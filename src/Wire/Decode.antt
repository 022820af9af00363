-- ===== src/Wire/Decode.antt =====
-- A generic netlink message as the kernel reads it, and what the messages of the source are to it; the
-- answer with the id of a family, through the whole call.
use segwire.Base.{
  ℕ, suc, ◌+◌, ◌-◌, ◌^◌, ◌≤◌, ◌<◌, Option, none, some, List, ◌∷◌, ◌++◌, length, length-append,
  append_assoc, All, Result, ok, ◌==◌, if◌then◌else◌, ◌≡◌, ◌≢◌, refl, ap, ◌∙◌, arith,
}
use segwire.Text.{Text}
use segwire.Wire.{
  u16_bytes, read_u16, read_u32, drop, zeros, Kernel, open_netlink_fd, returns, send_raw,
}
use segwire.Wire.Words.{take-all}
use segwire.Wire.Genl.{genl_message, received, receive}
use segwire.Wire.Family.{
  attribute, parse_family, parse_reply, resolve_genl_family_id, getfamily_message, family_outcome,
}
use segwire.Wire.Resolve.{resolve_genl_family_id_exchange}
use segwire.Wire.Roundtrip.{
  attributes, IsOther, search_family_id-attributes, count_attributes, length-attribute,
}

-- linux/netlink.h and linux/genetlink.h: nlmsg_len, nlmsg_type, nlmsg_flags, nlmsg_seq, nlmsg_pid, cmd,
-- version, and the rest behind two reserved bytes.
pub record GenlMessage : Type 0 where
  pub message_type : ℕ
  pub flags : ℕ
  pub seq : ℕ
  pub cmd : ℕ
  pub version : ℕ
  pub payload : List ℕ

abbrev decode_header :
    Option ℕ → Option ℕ → Option ℕ → Option ℕ → List ℕ → List ℕ → Option GenlMessage
decode_header (some len) (some message_type) (some flags) (some seq)
      (cmd ∷ version ∷ _ ∷ _ ∷ payload) bytes =
    if len == length bytes
    then some (record {
      message_type = message_type;
      flags = flags;
      seq = seq;
      cmd = cmd;
      version = version;
      payload = payload;
    })
    else none
decode_header _ _ _ _ _ bytes = none

unfoldable pub decode : List ℕ → Option GenlMessage
unfolding drop
decode bytes =
    decode_header (read_u32 bytes) (read_u16 (drop 4 bytes)) (read_u16 (drop 6 bytes))
      (read_u32 (drop 8 bytes)) (drop 16 bytes) bytes

length-genl_message :
    (message_type flags seq cmd version : ℕ) (payload : List ℕ)
    → length (genl_message message_type flags seq cmd version payload) ≡ 20 + length payload
unfolding genl_message
length-genl_message message_type flags seq cmd version payload = omega arith

pub decode-genl_message :
    (message_type flags seq cmd version : ℕ) (payload : List ℕ)
    → message_type < 65536
    → flags < 65536
    → seq < 2 ^ 32
    → 20 + length payload < 2 ^ 32
    → decode (genl_message message_type flags seq cmd version payload)
      ≡ some (record {
        message_type = message_type;
        flags = flags;
        seq = seq;
        cmd = cmd;
        version = version;
        payload = payload;
      })
unfolding decode genl_message drop
decode-genl_message message_type flags seq cmd version payload ht hf hs hl = ground arith

-- A datagram that fits is received whole.
received-all :
    (size : ℕ) (datagram : List ℕ)
    → length datagram ≤ size
    → received size datagram ≡ (datagram ++ zeros (size - length datagram), length datagram)
unfolding received
received-all size datagram h =
    ap (λ kept. (kept ++ zeros (size - length kept), length kept)) (take-all size datagram h)

parse_reply-attributes :
    (name : Text) (buf : List ℕ) (n message_type : ℕ) (before : List (ℕ × List ℕ)) (id : ℕ)
    (after : List ℕ)
    → message_type ≢ 2
    → All IsOther before
    → id < 65536
    → drop 20 buf ≡ attributes before ++ (attribute 1 (u16_bytes id) ++ after)
    → 20 + (length (attributes before) + 6) ≤ n
    → parse_reply name buf n message_type ≡ returns (ok id)
unfolding parse_reply family_outcome
parse_reply-attributes name buf n message_type before id after ht o hid at h =
    let found =
      search_family_id-attributes before id after (suc n) 20 n buf o hid at h
        (omega (arith, count_attributes before)) in
    rw found (ground arith)

genl_message_front :
    (message_type flags seq cmd version : ℕ) (payload rest : List ℕ)
    → message_type < 65536
    → (read_u16 (drop 4 (genl_message message_type flags seq cmd version payload ++ rest))
        ≡ some message_type)
      × (drop 20 (genl_message message_type flags seq cmd version payload ++ rest)
          ≡ payload ++ rest)
unfolding genl_message drop
genl_message_front message_type flags seq cmd version payload rest ht =
    (ap some (omega arith), refl)

-- The answer of the kernel with the id of the family behind other attributes.
abbrev pub family_answer : ℕ → ℕ → ℕ → ℕ → ℕ → List (ℕ × List ℕ) → ℕ → List ℕ → List ℕ
family_answer message_type flags seq cmd version before id after =
    genl_message message_type flags seq cmd version
      (attributes before ++ (attribute 1 (u16_bytes id) ++ after))

parse_family-answer :
    (name : Text) (message_type flags seq cmd version : ℕ) (before : List (ℕ × List ℕ)) (id : ℕ)
    (after : List ℕ)
    → message_type < 65536
    → message_type ≢ 2
    → All IsOther before
    → id < 65536
    → length (family_answer message_type flags seq cmd version before id after) ≤ 4096
    → parse_family name
        (received 4096 (family_answer message_type flags seq cmd version before id after))
      ≡ returns (ok id)
unfolding parse_family
parse_family-answer name message_type flags seq cmd version before id after ht h2 o hid hl =
    let payload = attributes before ++ (attribute 1 (u16_bytes id) ++ after) in
    let answer = genl_message message_type flags seq cmd version payload in
    let pad = zeros (4096 - length answer) in
    let (kind, behind) = genl_message_front message_type flags seq cmd version payload pad ht in
    let assoc : payload ++ pad
        ≡ attributes before ++ (attribute 1 (u16_bytes id) ++ (after ++ pad)) =
      append_assoc (attributes before) _ pad
      ∙ ap (λ l. attributes before ++ l) (append_assoc (attribute 1 (u16_bytes id)) after pad) in
    let sized = length-genl_message message_type flags seq cmd version payload in
    let sum = length-append (attributes before) (attribute 1 (u16_bytes id) ++ after) in
    let sum' = length-append (attribute 1 (u16_bytes id)) after in
    let one = length-attribute 1 (u16_bytes id) in
    let reply =
      parse_reply-attributes name (answer ++ pad) (length answer) message_type before id
        (after ++ pad) h2 o hid (behind ∙ assoc) (omega (arith, sized, sum, sum', one)) in
    rw (received-all 4096 answer hl, kind, reply) (ground (arith, sized))

pub resolve_genl_family_id-family_answer :
    (k : Kernel) (name : Text) (name_bytes : List ℕ) (message_type flags seq cmd version : ℕ)
    (before : List (ℕ × List ℕ)) (id : ℕ) (after : List ℕ) (rest : List (Result Text (List ℕ)))
    → open_netlink_fd k ≡ ok tt
    → k.send (getfamily_message k name_bytes 1) ≡ ok tt
    → k.answers (getfamily_message k name_bytes 1)
      ≡ ok (family_answer message_type flags seq cmd version before id after) ∷ rest
    → message_type < 65536
    → message_type ≢ 2
    → All IsOther before
    → id < 65536
    → length (family_answer message_type flags seq cmd version before id after) ≤ 4096
    → resolve_genl_family_id k name name_bytes ≡ returns (ok id)
unfolding send_raw receive getfamily_message parse_family
resolve_genl_family_id-family_answer k name name_bytes message_type flags seq cmd version before id
      after rest hk hs ha ht h2 o hid hl =
    resolve_genl_family_id_exchange k name name_bytes
    ∙ rw (hk, hs, ha)
        (parse_family-answer name message_type flags seq cmd version before id after ht h2 o hid hl)
