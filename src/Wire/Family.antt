-- ===== src/Wire/Family.antt =====
-- resolve_genl_family_id: the request CTRL_CMD_GETFAMILY and the search of the answer's attributes.
use segwire.Base.{
  ℕ, zero, suc, ◌+◌, ◌-◌, ◌&&◌, Option, none, some, List, [], ◌∷◌, ◌++◌, length, ok, err, ◌==◌, leb,
  ltb, if◌then◌else◌,
}
use segwire.Text.{Text, lit}
use segwire.Error.{NetlinkError, protocol_error}
use segwire.Wire.{
  u16_bytes, read_u16, read_u32, decimal_i32, align4, drop, zeros, Kernel, CallOutcome, returns,
  panics, unfinished, reading, next_seq, open_netlink, send_raw, ◌>>-◌,
}
use segwire.Wire.Genl.{genl_message, receive}

abbrev genl_id_ctrl : ℕ
genl_id_ctrl = 0x10

abbrev ctrl_cmd_getfamily : ℕ
ctrl_cmd_getfamily = 3

abbrev ctrl_attr_family_id : ℕ
ctrl_attr_family_id = 1

abbrev ctrl_attr_family_name : ℕ
ctrl_attr_family_name = 2

-- An attribute, padded to a multiple of four bytes.
unfoldable pub attribute : ℕ → List ℕ → List ℕ
unfolding zeros
attribute kind payload =
    let nla_len = 4 + length payload in
    u16_bytes nla_len ++ (u16_bytes kind ++ (payload ++ zeros (align4 nla_len - nla_len)))

-- The name is given as its bytes.
unfoldable pub getfamily_message : Kernel → List ℕ → ℕ → List ℕ
unfolding genl_message attribute
getfamily_message k family_name seq =
    genl_message genl_id_ctrl k.nlm_f_request seq ctrl_cmd_getfamily 1
      (attribute ctrl_attr_family_name (family_name ++ 0 ∷ []))

-- What the search of the attributes finds.
pub data Found : Type 0 where
  family : ℕ → Found
  absent out_of_bounds out_of_fuel : Found

-- One round of the loop: the next offset, or the end.
pub data Round : Type 0 where
  next_offset : ℕ → Round
  finished : Found → Round

unfoldable pub read_family_id : Option ℕ → Round
read_family_id (some id) = finished (family id)
read_family_id none = finished out_of_bounds

unfoldable pub attribute_round : ℕ → Option ℕ → Option ℕ → Option ℕ → Round
unfolding read_family_id
attribute_round offset (some nla_len) (some nla_type) value =
    if ltb nla_len 4
    then finished absent
    else if (nla_type == ctrl_attr_family_id) && leb 6 nla_len
    then read_family_id value
    else next_offset (offset + align4 nla_len)
attribute_round offset _ _ _ = finished out_of_bounds

unfoldable pub search_round : ℕ → ℕ → List ℕ → Round
unfolding attribute_round drop
search_round offset n buf =
    if leb (offset + 4) n
    then attribute_round offset (read_u16 (drop offset buf)) (read_u16 (drop (offset + 2) buf))
        (read_u16 (drop (offset + 4) buf))
    else finished absent

-- The loop over the attributes, on fuel.
unfoldable pub search_family_id : ℕ → ℕ → ℕ → List ℕ → Found
unfolding search_round
search_family_id zero offset n buf = out_of_fuel
search_family_id (suc fuel) offset n buf = elim (search_round offset n buf) [
  | next_offset later ↦ search_family_id fuel later n buf
  | finished found ↦ found
]

abbrev family_not_found : Text → NetlinkError
family_not_found family_name =
    protocol_error (family_name ++ lit " family ID not found in GETFAMILY response")

unfoldable pub family_outcome : Text → Found → CallOutcome ℕ
unfolding lit
family_outcome name (family id) = returns (ok id)
family_outcome name absent = returns (err (family_not_found name))
family_outcome name out_of_bounds = panics
family_outcome name out_of_fuel = unfinished

abbrev getfamily_error : Text → ℕ → NetlinkError
getfamily_error family_name errno =
    protocol_error
      (lit "GETFAMILY '" ++ (family_name ++ (lit "' error: errno " ++ decimal_i32 errno)))

abbrev pub unexpected_ack : NetlinkError
unexpected_ack = protocol_error (lit "unexpected ACK for GETFAMILY")

abbrev pub refused : Text → ℕ → CallOutcome ℕ
refused family_name errno =
    returns (err (if errno == 0 then unexpected_ack else getfamily_error family_name errno))

-- What an answer of this type comes to. The loop makes at least four bytes a round.
unfoldable pub parse_reply : Text → List ℕ → ℕ → ℕ → CallOutcome ℕ
unfolding drop lit decimal_i32 search_family_id family_outcome
parse_reply family_name buf n message_type =
    if message_type == 2
    then (if leb 24 n
        then reading (read_u32 (drop 16 buf)) (refused family_name)
        else returns (err unexpected_ack))
    else family_outcome family_name (search_family_id (suc n) 20 n buf)

abbrev pub too_short : NetlinkError
too_short = protocol_error (lit "response too short")

-- The part behind `recv_raw`.
unfoldable pub parse_family : Text → List ℕ × ℕ → CallOutcome ℕ
unfolding drop lit parse_reply
parse_family family_name (buf, n) =
    if ltb n 20
    then returns (err too_short)
    else reading (read_u16 (drop 4 buf)) (parse_reply family_name buf n)

-- The name in characters for the messages, and in bytes for the request.
unfoldable pub resolve_genl_family_id : Kernel → Text → List ℕ → CallOutcome ℕ
unfolding open_netlink send_raw getfamily_message receive parse_family
resolve_genl_family_id k family_name name_bytes = open_netlink k >>- λ sock.
    let buf = getfamily_message k name_bytes (next_seq sock).0 in
    send_raw k buf >>- λ _. receive 4096 (k.answers buf) (parse_family family_name)
