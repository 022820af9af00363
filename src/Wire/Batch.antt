-- ===== src/Wire/Batch.antt =====
-- NetlinkSocket::request and parse_response_batch: the datagrams of an answer, and the messages in
-- each of them.
use Prim.Native.Nat.{bit_and, bit_or}
use segwire.Base.{
  ℕ, zero, suc, ◌+◌, ◌-◌, Bool, true, false, not, ◌&&◌, ◌||◌, Option, none, some, List, [], ◌∷◌,
  ◌++◌, length, Result, ok, err, ◌==◌, leb, ltb, if◌then◌else◌,
}
use segwire.Text.{Text, lit}
use segwire.Error.{NetlinkError, protocol_error}
use segwire.Wire.{
  read_u32, align4, drop, take, Kernel, NetlinkSocket, CallOutcome, returns, panics, waits,
  unfinished, next_seq, send_raw, recv_failed, ◌>>-◌,
}

-- The payload of a message, as netlink-packet-core tells it apart; an error has its code as printed.
pub data Payload (I : Type 0) : Type 0 where
  done : Payload I
  error : Option Text → Payload I
  other : I → Payload I

-- `is_empty` of a list
abbrev pub is_nil : {A : Type 0} → List A → Bool
is_nil [] = true
is_nil (x ∷ xs) = false

-- `deserialize` is that of netlink-packet-core for the type of the messages.
module _ {I : Type 0} (deserialize : List ℕ → Result Text (Payload I)) where
  -- A batch that is read, and the messages behind it.
  abbrev pub BatchResult : Type 0
  BatchResult = CallOutcome Bool × List I

  pub data BatchRound : Type 0 where
    more : ℕ → List I → BatchRound
    finish : BatchResult → BatchRound

  abbrev pub netlink_error : Text → NetlinkError
  netlink_error code = protocol_error (lit "netlink error: code " ++ code)

  abbrev pub parse_failed : Text → NetlinkError
  parse_failed e = protocol_error (lit "failed to parse netlink message: " ++ e)

  -- What is done with a message; `later` is the offset behind it.
  unfoldable pub take_message : ℕ → List I → Result Text (Payload I) → BatchRound
  unfolding lit
  take_message later responses (ok done) = finish (returns (ok true), responses)
  take_message later responses (ok (error (some code))) =
      finish (returns (err (netlink_error code)), responses)
  take_message later responses (ok (error none)) = finish (returns (ok true), responses)
  take_message later responses (ok (other parsed)) = more later (responses ++ parsed ∷ [])
  take_message later responses (err e) = finish (returns (err (parse_failed e)), responses)

  -- One round of the loop. `drop` by the offset is the part of the slice from the offset on.
  unfoldable pub batch_round : ℕ → List ℕ → List I → BatchRound
  unfolding take_message drop take
  batch_round offset bytes responses =
      if leb (length bytes) offset || ltb (length bytes - offset) 4
      then finish (returns (ok false), responses)
      else elim (read_u32 (drop offset bytes)) [
        | none ↦ finish (panics, responses)
        | some msg_len ↦
            if ltb msg_len 16 || ltb (length bytes) (offset + msg_len)
            then finish (returns (ok false), responses)
            else take_message (align4 (offset + msg_len)) responses
                (deserialize (take msg_len (drop offset bytes)))
      ]

  -- The loop behind one of its rounds.
  abbrev pub behind_round : BatchRound → (ℕ → List I → BatchResult) → BatchResult
  behind_round (more later collected) next = next later collected
  behind_round (finish result) next = result

  unfoldable pub batch_loop : ℕ → ℕ → List ℕ → List I → BatchResult
  unfolding batch_round
  batch_loop zero offset bytes responses = (unfinished, responses)
  batch_loop (suc fuel) offset bytes responses =
      behind_round (batch_round offset bytes responses)
        (λ later collected. batch_loop fuel later bytes collected)

  -- The loop makes at least sixteen bytes a round.
  unfoldable pub parse_response_batch : List ℕ → List I → BatchResult
  unfolding batch_loop
  parse_response_batch bytes responses = batch_loop (suc (length bytes)) 0 bytes responses

  -- What the loop over the datagrams does behind one of them; `further` are its later rounds.
  abbrev pub behind_batch :
      Bool → List I → CallOutcome (List I) → CallOutcome Bool → CallOutcome (List I)
  behind_batch is_dump collected further (returns (err e)) = returns (err e)
  behind_batch is_dump collected further (returns (ok true)) = returns (ok collected)
  behind_batch is_dump collected further (returns (ok false)) =
      if not is_dump && not (is_nil collected) then returns (ok collected) else further
  behind_batch is_dump collected further panics = panics
  behind_batch is_dump collected further waits = waits
  behind_batch is_dump collected further unfinished = unfinished

  unfoldable pub receive_loop : Bool → List (Result Text (List ℕ)) → List I → CallOutcome (List I)
  unfolding parse_response_batch take lit
  receive_loop is_dump [] responses = waits
  receive_loop is_dump (err e ∷ _) responses = returns (err (recv_failed e))
  receive_loop is_dump (ok datagram ∷ rest) responses =
      let (batch, collected) = parse_response_batch (take 65536 datagram) responses in
      let further = receive_loop is_dump rest collected in
      behind_batch is_dump collected further batch

  -- The message as netlink-packet-core emits it, by its flags and its sequence number.
  unfoldable pub request :
      Kernel → (ℕ → ℕ → List ℕ) → ℕ → NetlinkSocket → CallOutcome (List I) × NetlinkSocket
  unfolding send_raw receive_loop
  request k emit flags sock =
      let (seq, later) = next_seq sock in
      let requested = bit_or flags k.nlm_f_request in
      let buf = emit requested seq in
      let is_dump = not (bit_and requested k.nlm_f_dump == 0) in
      ((send_raw k buf >>- λ _. receive_loop is_dump (k.answers buf) []), later)
