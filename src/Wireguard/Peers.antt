-- ===== src/Wireguard/Peers.antt =====
-- The peers of an imported file.
use segwire.Base.{
  ap, subst, ◌>>=◌, ℕ, suc, ◌+◌, Bool, true, false, not, ◌&&◌, Option, none, some, List, [], ◌∷◌,
  map, if◌then◌else◌, Result, ok, err, ◌≡◌, ◌≢◌, refl, arith, length, length-append, Bool-cases,
  inl, inr, sym, ◌∙◌,
}
use segwire.Text.{Text, lit, is_empty}
use segwire.Text.Equality.{text_eq, text_eq_iff}
use segwire.Text.Split.{split_once, trim, lines}
use segwire.Config.{NamespaceConfig, WireguardConfig}
use segwire.Wireguard.{
  WgParseError, panicked, WgQuickPeer, WgQuickConfig, Section, interface_section, peer_section,
  Parser, start, flush, open_section, interface_key, peer_key, assign_peer, assign_in, is_skipped,
  is_header, section_name, parse_assignment, parse_line, parse_lines, parse_wg_quick_raw,
  parse_wg_quick, flush_peer, to_peer,
}

-- In the section of a peer there is a peer, so that `unwrap` finds one.
abbrev has_peer : Option Section → Option WgQuickPeer → Bool
has_peer none peer = true
has_peer (some interface_section) peer = true
has_peer (some peer_section) none = false
has_peer (some peer_section) (some peer) = true

abbrev holds : Option WgQuickPeer → ℕ
holds none = 0
holds (some peer) = 1

-- The peers that a parser has seen.
abbrev seen : Parser → ℕ
seen p = length p.config.peers + holds p.current_peer

abbrev pub opens_peer : Text → ℕ
opens_peer line =
    if not (is_skipped line) && is_header line && text_eq (section_name line) (lit "Peer")
    then 1
    else 0

-- The lines that open a peer.
abbrev pub peer_headers : List Text → ℕ
peer_headers [] = 0
peer_headers (l ∷ ls) = opens_peer (trim l) + peer_headers ls

abbrev is_panic : WgParseError → Bool
is_panic panicked = true
is_panic e = false

-- A step that succeeds leaves a parser with its peer that has seen so many; one that fails is no panic.
abbrev Good : ℕ → Result WgParseError Parser → Type 0
Good n (ok p) = (has_peer p.current_section p.current_peer ≡ true) × (seen p ≡ n)
Good n (err e) = is_panic e ≡ false

has_peer-some :
    (section : Option Section) (peer : WgQuickPeer) → has_peer section (some peer) ≡ true
has_peer-some none peer = refl
has_peer-some (some interface_section) peer = refl
has_peer-some (some peer_section) peer = refl

interface_key-Good :
    (line key value : Text) (p : Parser) (r : Result WgParseError WgQuickConfig)
    → interface_key line key value p.config ≡ r
    → p.current_section ≡ some interface_section
    → Good (seen p) (r >>= λ changed. ok (record p { config = changed }))
unfolding interface_key
interface_key-Good line key value p (ok c) e s = (rw s refl, ground arith)
interface_key-Good line key value p (err x) e s = ground arith

peer_key-Good :
    (line key value : Text) (p : Parser) (peer : WgQuickPeer) (r : Result WgParseError WgQuickPeer)
    → peer_key line key value peer ≡ r
    → p.current_peer ≡ some peer
    → Good (seen p) (r >>= λ changed. ok (record p { current_peer = some changed }))
unfolding peer_key
peer_key-Good line key value p peer (ok c) e s = (has_peer-some p.current_section c, ground arith)
peer_key-Good line key value p peer (err x) e s = ground arith

module _ (line : Text) (p : Parser) where
  assign_in-Good :
      (key value : Text) (section : Option Section) (peer : Option WgQuickPeer)
      → p.current_section ≡ section
      → p.current_peer ≡ peer
      → has_peer section peer ≡ true
      → Good (seen p) (assign_in section line key value p)
  assign_in-Good key value none peer s q h = (rw s refl, refl)
  assign_in-Good key value (some interface_section) peer s q h =
      interface_key-Good line key value p (interface_key line key value p.config) refl s
  assign_in-Good key value (some peer_section) none s q h = absurd (cc)
  assign_in-Good key value (some peer_section) (some peer) s q h =
      subst (λ o. Good (seen p) (assign_peer line key value o p)) (sym q)
        (peer_key-Good line key value p peer (peer_key line key value peer) refl q)

  parse_assignment-Good :
      (o : Option (Text × Text))
      → has_peer p.current_section p.current_peer ≡ true
      → Good (seen p) (parse_assignment o line p)
  parse_assignment-Good none h = refl
  parse_assignment-Good (some (key, value)) h =
      assign_in-Good (trim key) (trim value) p.current_section p.current_peer refl refl h

flush_peer-seen :
    (p : Parser) → (length (flush p).config.peers ≡ seen p) × ((flush p).current_peer ≡ none)
unfolding flush
flush_peer-seen p = from p.current_peer refl
  where
    from :
        (o : Option WgQuickPeer)
        → p.current_peer ≡ o
        → (length (flush_peer o p).config.peers ≡ length p.config.peers + holds o)
          × ((flush_peer o p).current_peer ≡ none)
    from none e = (omega arith, e)
    from (some peer) e = (length-append p.config.peers (peer ∷ []), refl)

Good-eq : (n m : ℕ) (r : Result WgParseError Parser) → n ≡ m → Good n r → Good m r
Good-eq n m r e g = subst (λ k. Good k r) e g

interface_not_peer :
    (s : Text) → text_eq s (lit "Interface") ≡ true → text_eq s (lit "Peer") ≡ false
unfolding text_eq lit
interface_not_peer s h = let e = (text_eq_iff s (lit "Interface")).0 h in rw e refl

open_section-Good :
    (section : Text) (p : Parser)
    → Good
        ((if text_eq section (lit "Peer") then 1 else 0) + seen p)
        (open_section section (flush p))
unfolding open_section
open_section-Good section p =
    let (count, gone) = flush_peer-seen p in
    elim (Bool-cases (text_eq section (lit "Interface"))) [
      | inl interface ↦ rw interface (refl, ground (arith, interface_not_peer section interface))
      | inr other ↦ elim (Bool-cases (text_eq section (lit "Peer"))) [
        | inl peer ↦ rw (other, peer) (refl, omega arith)
        | inr unknown ↦ rw (other, unknown) refl
      ]
    ]

parse_line-Good :
    (line : Text) (p : Parser)
    → has_peer p.current_section p.current_peer ≡ true
    → Good (opens_peer line + seen p) (parse_line line p)
unfolding parse_line
parse_line-Good line p h = elim (Bool-cases (is_skipped line)) [
  | inl skipped ↦ rw skipped (h, omega arith)
  | inr content ↦ elim (Bool-cases (is_header line)) [
    | inl header ↦ rw (content, header) (open_section-Good (section_name line) p)
    | inr other ↦
        rw (content, other)
          (Good-eq _ _ _ (omega arith) (parse_assignment-Good line p (split_once b'=' line) h))
  ]
]

Good-bind :
    (n m : ℕ) (rest : Parser → Result WgParseError Parser) (r : Result WgParseError Parser)
    → Good n r
    → ((next : Parser)
        → has_peer next.current_section next.current_peer ≡ true
        → seen next ≡ n
        → Good m (rest next))
    → Good m (r >>= rest)
Good-bind n m rest (err x) g k = g
Good-bind n m rest (ok next) (ready, count) k = k next ready count

length-map-to_peer : (ps : List WgQuickPeer) → length (map to_peer ps) ≡ length ps
length-map-to_peer [] = refl
length-map-to_peer (p ∷ ps) = ap suc (length-map-to_peer ps)

parse_lines-Good :
    (ls : List Text) (p : Parser)
    → has_peer p.current_section p.current_peer ≡ true
    → Good (peer_headers ls + seen p) (parse_lines ls p)
unfolding parse_lines
parse_lines-Good [] p h = (h, omega arith)
parse_lines-Good (l ∷ ls) p h =
    Good-bind (opens_peer (trim l) + seen p) (opens_peer (trim l) + peer_headers ls + seen p)
      (parse_lines ls) (parse_line (trim l) p) (parse_line-Good (trim l) p h)
      (λ next ready count. Good-eq _ _ _ (omega (arith, count)) (parse_lines-Good ls next ready))

parse_wg_quick_raw-Good :
    (content : Text) (r : Result WgParseError Parser)
    → parse_lines (lines content) start ≡ r
    → Good (peer_headers (lines content)) r
parse_wg_quick_raw-Good content r e =
    subst (Good (peer_headers (lines content))) e
      (Good-eq _ _ _ (omega arith) (parse_lines-Good (lines content) start refl))

-- The import never panics: in the section of a peer there always is a peer to change.
pub parse_wg_quick-panic :
    (content namespace_name : Text) (wg_interface_name : Option Text)
    → parse_wg_quick content namespace_name wg_interface_name ≢ err panicked
unfolding parse_wg_quick parse_wg_quick_raw
parse_wg_quick-panic content namespace_name wg_interface_name h =
    from (parse_lines (lines content) start) refl
  where
    from : (r : Result WgParseError Parser) → parse_lines (lines content) start ≡ r → ⊥
    from (err x) e = let g = parse_wg_quick_raw-Good content (err x) e in ground arith
    from (ok p) e = ground arith

-- An import that succeeds has one peer for each line `[Peer]`, and a private key.
pub parse_wg_quick-peers :
    (content namespace_name : Text) (wg_interface_name : Option Text) (c : NamespaceConfig)
    → parse_wg_quick content namespace_name wg_interface_name ≡ ok c
    → (wg : WireguardConfig) × (c.wireguard ≡ some wg)
      × (length wg.peers ≡ peer_headers (lines content))
      × (is_empty wg.private_key ≡ false)
unfolding parse_wg_quick parse_wg_quick_raw
parse_wg_quick-peers content namespace_name wg_interface_name c h =
    from (parse_lines (lines content) start) refl
  where
    from :
        (r : Result WgParseError Parser)
        → parse_lines (lines content) start ≡ r
        → (wg : WireguardConfig) × (c.wireguard ≡ some wg)
          × (length wg.peers ≡ peer_headers (lines content))
          × (is_empty wg.private_key ≡ false)
    from (err x) e = absurd (ground arith)
    from (ok p) e =
        let (ready, count) = parse_wg_quick_raw-Good content (ok p) e in
        let raw = (flush p).config in
        (
          record {
            private_key = raw.private_key;
            listen_port = raw.listen_port;
            fwmark = raw.fwmark;
            peers = map to_peer raw.peers;
          },
          ground arith,
          length-map-to_peer raw.peers ∙ (flush_peer-seen p).0 ∙ count,
          ground arith,
        )
