-- ===== src/Tests/Messages.antt =====
-- Netlink messages on concrete answers.
use segwire.Base.{
  ℕ, true, none, some, List, [], ◌∷◌, ◌++◌, Result, ok, err, Option, ◌≡◌, refl, arith, ◌==◌,
  if◌then◌else◌,
}
use segwire.Text.{Text, lit}
use segwire.Wire.{
  open_netlink_fd, Kernel, returns, panics, drop, take, zeros, u32_bytes, u16_bytes, read_u16,
}
use segwire.Wire.Walk.{IsReturn}
use segwire.Wire.Genl.{genl_message, send_genl_request}
use segwire.Wire.Family.{attribute, resolve_genl_family_id}
use segwire.Wire.Roundtrip.{attributes}
use segwire.Wire.Resolve.{resolve_genl_family_id-IsReturn}
use segwire.Wire.Decode.{family_answer, resolve_genl_family_id-family_answer}
use segwire.Wire.Batch.{Payload, done, other, parse_response_batch, receive_loop}
use segwire.Wire.Stream.{
  IsFrame, stream, collect, datagrams, parse_response_batch-stream, receive_loop-dump,
}

abbrev wireguard : List ℕ
wireguard = b'w' ∷ b'g' ∷ []

-- The name of the family, its id 30 and its version.
abbrev answer : List ℕ
answer = family_answer 16 0 1 1 2 ((2, wireguard ++ 0 ∷ []) ∷ []) 30 (attribute 3 (u32_bytes 1))

-- A kernel that gives one answer to whatever is sent.
abbrev answering : List ℕ → Kernel
answering datagram = record {
  socket = ok tt;
  bind = ok tt;
  send = λ _. ok tt;
  answers = λ _. ok datagram ∷ [];
  nlm_f_request = 1;
  nlm_f_ack = 4;
  nlm_f_dump = 768;
}

-- NLMSG_ERROR with the code of an error
abbrev refusal : List ℕ
refusal = genl_message 2 0 1 0 0 (zeros 16)

resolve_genl_family_id-family_answer_example :
    resolve_genl_family_id (answering answer) (lit "wg") wireguard ≡ returns (ok 30)
unfolding attributes attribute genl_message zeros open_netlink_fd
resolve_genl_family_id-family_answer_example =
    resolve_genl_family_id-family_answer (answering answer) (lit "wg") wireguard 16 0 1 1 2
      ((2, wireguard ++ 0 ∷ []) ∷ []) 30 (attribute 3 (u32_bytes 1)) [] refl refl refl (omega arith)
      (λ e. omega arith) ((omega arith, omega arith, λ e. omega arith), tt) (omega arith)
      (omega arith)

resolve_genl_family_id-IsReturn_example :
    IsReturn (resolve_genl_family_id (answering answer) (lit "wg") wireguard)
unfolding attributes attribute genl_message zeros open_netlink_fd
resolve_genl_family_id-IsReturn_example =
    resolve_genl_family_id-IsReturn (answering answer) (lit "wg") wireguard answer [] refl
      (omega arith)

-- An answer that fills the buffer and ends behind the head of an attribute with the id.
abbrev cut_answer : List ℕ
cut_answer = genl_message 16 0 1 1 2 (attribute 9 (zeros 4068) ++ (u16_bytes 6 ++ u16_bytes 1))

-- An answer without even a whole header counts as an acknowledgement.
send_genl_request-short : send_genl_request (answering (2 ∷ [])) 30 1 1 [] ≡ returns (ok tt)
unfolding send_genl_request take drop zeros
send_genl_request-short = refl

-- A message of the type 3 ends the answer, and one of another type is its type.
abbrev read_kind : Option ℕ → Result Text (Payload ℕ)
read_kind (some kind) = if kind == 3 then ok done else ok (other kind)
read_kind none = err (lit "short")

abbrev by_kind : List ℕ → Result Text (Payload ℕ)
by_kind m = read_kind (read_u16 (drop 4 m))

abbrev message : ℕ → List ℕ
message kind = u32_bytes 17 ++ (u16_bytes kind ++ zeros 11)

message-IsFrame : (kind : ℕ) → IsFrame (message kind)
unfolding zeros
message-IsFrame kind = (omega arith, refl)

parse_response_batch-stream_example :
    parse_response_batch by_kind (stream (message 16 ∷ message 3 ∷ message 18 ∷ [])) []
    ≡ collect by_kind (message 16 ∷ message 3 ∷ message 18 ∷ []) []
unfolding zeros
parse_response_batch-stream_example =
    parse_response_batch-stream by_kind (message 16 ∷ message 3 ∷ message 18 ∷ []) []
      (message-IsFrame 16, (message-IsFrame 3, (message-IsFrame 18, tt)))

receive_loop-dump_example :
    receive_loop by_kind true
      (datagrams by_kind (((message 16, 16) ∷ []) ∷ [])
        ++ (ok (stream (message 18 ∷ message 3 ∷ [])) ∷ []))
      []
    ≡ returns (ok (16 ∷ 18 ∷ []))
unfolding zeros drop stream
receive_loop-dump_example =
    receive_loop-dump by_kind (((message 16, 16) ∷ []) ∷ []) ((message 18, 18) ∷ []) (message 3) []
      [] ((((message-IsFrame 16, refl), tt), omega arith), tt) ((message-IsFrame 18, refl), tt)
      (message-IsFrame 3) refl (omega arith)

cut_answer-panics : resolve_genl_family_id (answering cut_answer) (lit "wg") wireguard ≡ panics
unfolding resolve_genl_family_id take drop zeros attribute genl_message
cut_answer-panics = refl
