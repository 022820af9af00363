-- ===== src/Wire/Genl.antt =====
-- send_genl_request: the message, its sending and the check of the answer.
use Prim.Native.Nat.{bit_or}
use segwire.Base.{
  ℕ, ◌+◌, ◌-◌, List, [], ◌∷◌, ◌++◌, length, Result, ok, err, ◌==◌, leb, if◌then◌else◌,
}
use segwire.Text.{Text, lit}
use segwire.Error.{NetlinkError, protocol_error}
use segwire.Wire.{
  u16_bytes, u32_bytes, read_u16, read_u32, decimal_i32, drop, take, zeros, Kernel, CallOutcome,
  returns, waits, reading, next_seq, open_netlink, send_raw, recv_failed, ◌>>-◌,
}

-- Netlink header, generic netlink header and payload in a buffer that starts as zeros.
unfoldable pub genl_message : ℕ → ℕ → ℕ → ℕ → ℕ → List ℕ → List ℕ
genl_message message_type flags seq cmd version payload =
    u32_bytes (16 + 4 + length payload)
    ++ (u16_bytes message_type
        ++ (u16_bytes flags
            ++ (u32_bytes seq ++ (0 ∷ 0 ∷ 0 ∷ 0 ∷ cmd ∷ version ∷ 0 ∷ 0 ∷ payload))))

-- A buffer of zeros behind a datagram has been received into it, and the number of its bytes.
unfoldable pub received : ℕ → List ℕ → List ℕ × ℕ
unfolding take zeros
received size datagram =
    let kept = take size datagram in (kept ++ zeros (size - length kept), length kept)

-- `recv_raw` into a fresh buffer, where the first datagram counts.
unfoldable pub receive :
    {A : Type 0} → ℕ → List (Result Text (List ℕ)) → (List ℕ × ℕ → CallOutcome A) → CallOutcome A
unfolding lit received
receive size [] next = waits
receive size (err e ∷ _) next = returns (err (recv_failed e))
receive size (ok datagram ∷ _) next = next (received size datagram)

abbrev genetlink_error : ℕ → NetlinkError
genetlink_error errno = protocol_error (lit "genetlink error: errno " ++ decimal_i32 errno)

abbrev pub check_errno : (ℕ → NetlinkError) → ℕ → Result NetlinkError (Unit {0})
check_errno failed errno = if errno == 0 then ok tt else err (failed errno)

-- The part behind `recv_raw`.
unfoldable pub check_ack : List ℕ × ℕ → CallOutcome (Unit {0})
unfolding drop lit decimal_i32
check_ack (buf, n) =
    if leb 20 n
    then reading (read_u16 (drop 4 buf)) (λ message_type.
      if message_type == 2
      then reading (read_u32 (drop 16 buf)) (λ errno. returns (check_errno genetlink_error errno))
      else returns (ok tt))
    else returns (ok tt)

unfoldable pub send_genl_request : Kernel → ℕ → ℕ → ℕ → List ℕ → CallOutcome (Unit {0})
unfolding open_netlink send_raw genl_message receive check_ack
send_genl_request k family_id cmd version payload = open_netlink k >>- λ sock.
    let flags = bit_or k.nlm_f_request k.nlm_f_ack in
    let buf = genl_message family_id flags (next_seq sock).0 cmd version payload in
    send_raw k buf >>- λ _. receive 4096 (k.answers buf) check_ack
