-- ===== src/Netlink/Real/Resolver.antt =====
-- resolv.conf, written and read again.
pub mod Stored
use segwire.Base.{
  ℕ, Bool, true, false, not, ◌&&◌, ◌||◌, Option, List, [], ◌∷◌, ◌++◌, ◌==◌, All, append_assoc,
  append-nil, ◌≡◌, refl, sym, ◌∙◌, ap, arith, Bool-cases, inl, inr, if◌then◌else◌,
}
use segwire.Text.{Text, lit, is_empty, contains_char, is_whitespace, strip_prefix}
use segwire.Text.Prefix.{strip_prefix-append}
use segwire.Text.Split.{lines, strip_return, trim, trim_start, trim_end}
use segwire.Text.Trim.{
  lines_cons, strip_return-trim_end, trim_end-append, is_solid, trim_end-is_solid,
  contains_char-is_solid, contains_char-append, is_solid_cons,
}
use segwire.Netlink.{ResolverConfig}
use segwire.Netlink.Real.Settings.{
  item_lines, join_spaces, search_line, resolver_text, words_from, split_whitespace, read_line,
  read_lines, empty_resolver, parse_resolver,
}

-- A text on one line that neither begins nor ends with white space.
abbrev pub IsItem : Text → Type 0
IsItem s =
    (is_empty s ≡ false) × (contains_char 10 s ≡ false) × (trim_start s ≡ s) × (trim_end s ≡ s)

abbrev pub IsWord : Text → Type 0
IsWord s = (is_empty s ≡ false) × (is_solid s ≡ true)

-- A line of a word and an item is read as it was written.
clean_line :
    (p s : Text)
    → trim_start (p ++ s) ≡ p ++ s
    → is_empty s ≡ false
    → trim_end s ≡ s
    → trim (strip_return (p ++ s)) ≡ p ++ s
unfolding trim
clean_line p s front full back =
    let ends = trim_end-append p s full back in rw (strip_return-trim_end (p ++ s) ends, front) ends

-- The first line of a file.
read_first :
    (p s rest : Text) (dns : ResolverConfig)
    → contains_char 10 p ≡ false
    → contains_char 10 s ≡ false
    → trim_start (p ++ s) ≡ p ++ s
    → is_empty s ≡ false
    → trim_end s ≡ s
    → read_lines (lines (p ++ (s ++ 10 ∷ rest))) dns
      ≡ read_lines (lines rest) (read_line (p ++ s) dns)
unfolding read_lines
read_first p s rest dns hp hs front full back =
    let whole : contains_char 10 (p ++ s) ≡ false =
      contains_char-append 10 p s ∙ rw (hp, hs) refl in
    let first = lines_cons (p ++ s) rest whole in
    ap (λ t. read_lines (lines t) dns) (sym (append_assoc p s (10 ∷ rest)))
    ∙ ap (λ t. read_lines t dns) first
    ∙ ap (λ t. read_lines (lines rest) (read_line t dns)) (clean_line p s front full back)

abbrev nameserver : Text
nameserver = lit "nameserver "

abbrev option_word : Text
option_word = lit "options "

abbrev search_word : Text
search_word = lit "search "

read_line-nameserver :
    (s : Text) (dns : ResolverConfig)
    → IsItem s
    → read_line (nameserver ++ s) dns ≡ record dns { servers = dns.servers ++ s ∷ [] }
unfolding read_line trim lit strip_prefix
read_line-nameserver s dns (full, one, front, back) = rw (front, back) refl

read_line-options :
    (s : Text) (dns : ResolverConfig)
    → IsItem s
    → read_line (option_word ++ s) dns ≡ record dns { options = dns.options ++ s ∷ [] }
unfolding read_line trim lit strip_prefix
read_line-options s dns (full, one, front, back) = rw (front, back) refl

read_servers :
    (servers : List Text) (rest : Text) (dns : ResolverConfig)
    → All IsItem servers
    → read_lines (lines (item_lines nameserver servers ++ rest)) dns
      ≡ read_lines (lines rest) (record dns { servers = dns.servers ++ servers })
unfolding item_lines lit contains_char trim_start is_whitespace
read_servers [] rest dns h = rw append-nil refl
read_servers (s ∷ servers) rest dns (item, h) =
    let (full, one, front, back) = item in
    let more = item_lines nameserver servers in
    let dns' : ResolverConfig = record dns { servers = dns.servers ++ s ∷ [] } in
    let shape : (nameserver ++ (s ++ (10 ∷ more))) ++ rest
        ≡ nameserver ++ (s ++ 10 ∷ (more ++ rest)) =
      simp append_assoc in
    ap (λ t. read_lines (lines t) dns) shape
    ∙ read_first nameserver s (more ++ rest) dns no_newline one (starts s) full back
    ∙ ap (λ d. read_lines (lines (more ++ rest)) d) (read_line-nameserver s dns item)
    ∙ read_servers servers rest dns' h
    ∙ ap (λ l. read_lines (lines rest) (record dns { servers = l }))
        (append_assoc dns.servers (s ∷ []) servers)
  where
    no_newline : contains_char 10 nameserver ≡ false
    no_newline = refl

    starts : (s : Text) → trim_start (nameserver ++ s) ≡ nameserver ++ s
    starts s = refl

read_options :
    (options : List Text) (dns : ResolverConfig)
    → All IsItem options
    → read_lines (lines (item_lines option_word options)) dns
      ≡ record dns { options = dns.options ++ options }
unfolding item_lines lit contains_char trim_start is_whitespace read_lines lines
read_options [] dns h = rw append-nil (empty dns)
  where
    empty : (dns : ResolverConfig) → read_lines (lines []) dns ≡ dns
    empty dns = refl
read_options (s ∷ options) dns (item, h) =
    let (full, one, front, back) = item in
    let more = item_lines option_word options in
    let dns' : ResolverConfig = record dns { options = dns.options ++ s ∷ [] } in
    read_first option_word s more dns no_newline one (starts s) full back
    ∙ ap (λ d. read_lines (lines more) d) (read_line-options s dns item)
    ∙ read_options options dns' h
    ∙ ap (λ l. record dns { options = l }) (append_assoc dns.options (s ∷ []) options)
  where
    no_newline : contains_char 10 option_word ≡ false
    no_newline = refl

    starts : (s : Text) → trim_start (option_word ++ s) ≡ option_word ++ s
    starts s = refl

-- A word, a space and the words behind it.
words_from-word :
    (w s : Text) → is_solid w ≡ true → words_from (w ++ b' ' ∷ s) ≡ (w, split_whitespace s)
unfolding words_from split_whitespace
words_from-word [] s h = refl
words_from-word (c ∷ w) s h =
    let (solid, rest) = is_solid_cons c w h in rw (solid, words_from-word w s rest) refl

words_from-last : (w : Text) → is_solid w ≡ true → words_from w ≡ (w, [])
unfolding words_from
words_from-last [] h = refl
words_from-last (c ∷ w) h =
    let (solid, rest) = is_solid_cons c w h in rw (solid, words_from-last w rest) refl

-- Words that are joined by spaces are found again.
split_whitespace-join_spaces :
    (words : List Text) → All IsWord words → split_whitespace (join_spaces words) ≡ words
unfolding split_whitespace join_spaces
split_whitespace-join_spaces [] h = refl
split_whitespace-join_spaces ([] ∷ words) h = absurd (cc)
split_whitespace-join_spaces ((c ∷ w) ∷ []) h = rw (words_from-last (c ∷ w) h.0.1) refl
split_whitespace-join_spaces ((c ∷ w) ∷ v ∷ words) h =
    rw (words_from-word (c ∷ w) (join_spaces (v ∷ words)) h.0.1)
      (ap (λ l. (c ∷ w) ∷ l) (split_whitespace-join_spaces (v ∷ words) h.1))

-- The joined words stand on one line that does not end with white space.
join_spaces_line :
    (w : Text) (words : List Text)
    → All IsWord (w ∷ words)
    → (is_empty (join_spaces (w ∷ words)) ≡ false)
      × (contains_char 10 (join_spaces (w ∷ words)) ≡ false)
      × (trim_end (join_spaces (w ∷ words)) ≡ join_spaces (w ∷ words))
unfolding join_spaces contains_char
join_spaces_line w [] h = (h.0.0, contains_char-is_solid w h.0.1, trim_end-is_solid w h.0.1)
join_spaces_line w (v ∷ words) h =
    let (full, one, back) = join_spaces_line v words h.1 in
    let j = join_spaces (v ∷ words) in
    let spaced : trim_end (b' ' ∷ j) ≡ b' ' ∷ j = trim_end-append (b' ' ∷ []) j full back in
    (
      filled w j,
      contains_char-append 10 w (b' ' ∷ j) ∙ rw (contains_char-is_solid w h.0.1) one,
      trim_end-append w (b' ' ∷ j) refl spaced,
    )
  where
    filled : (w j : Text) → is_empty (w ++ b' ' ∷ j) ≡ false
    filled [] j = refl
    filled (c ∷ w) j = refl

read_line-search :
    (words : List Text) (dns : ResolverConfig)
    → All IsWord words
    → read_line (search_word ++ join_spaces words) dns ≡ record dns { search_domains = words }
unfolding read_line lit strip_prefix
read_line-search words dns h = rw (split_whitespace-join_spaces words h) refl

read_search_line :
    (words : List Text) (rest : Text) (dns : ResolverConfig)
    → All IsWord words
    → dns.search_domains ≡ []
    → read_lines (lines (search_line words ++ rest)) dns
      ≡ read_lines (lines rest) (record dns { search_domains = words })
unfolding lit contains_char trim_start is_whitespace
read_search_line [] rest dns h none_yet =
    ap (λ l. read_lines (lines rest) (record dns { search_domains = l })) none_yet
read_search_line (w ∷ words) rest dns h none_yet =
    let (full, one, back) = join_spaces_line w words h in
    let j = join_spaces (w ∷ words) in
    let shape : (search_word ++ (j ++ (10 ∷ []))) ++ rest ≡ search_word ++ (j ++ 10 ∷ rest) =
      simp append_assoc in
    ap (λ t. read_lines (lines t) dns) shape
    ∙ read_first search_word j rest dns no_newline one (starts j) full back
    ∙ ap (λ d. read_lines (lines rest) d) (read_line-search (w ∷ words) dns h)
  where
    no_newline : contains_char 10 search_word ≡ false
    no_newline = refl

    starts : (s : Text) → trim_start (search_word ++ s) ≡ search_word ++ s
    starts s = refl

-- The resolv.conf that is written for DNS settings is read back as those settings, where each server and
-- each option is a text on one line without white space at its ends, and each domain is a word.
pub parse_resolver-resolver_text :
    (dns : ResolverConfig)
    → All IsItem dns.servers
    → All IsWord dns.search_domains
    → All IsItem dns.options
    → parse_resolver (resolver_text dns) ≡ dns
unfolding parse_resolver resolver_text
parse_resolver-resolver_text dns servers domains options =
    let more = item_lines option_word dns.options in
    read_servers dns.servers (search_line dns.search_domains ++ more) empty_resolver servers
    ∙ read_search_line dns.search_domains more (record empty_resolver { servers = dns.servers })
        domains refl
    ∙ read_options dns.options (record dns { options = [] }) options
