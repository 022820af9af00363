-- ===== src/Wire.antt =====
-- crates/segwire-netlink/src/lib.rs: bytes and words of netlink messages, sockets, and what a call of
-- the helpers comes to. A byte is a number below 256, and the words are those of a little-endian
-- machine.

pub mod Words
pub mod Genl
pub mod Walk
pub mod Resolve
pub mod Roundtrip
pub mod Decode
pub mod Stream
pub mod Family
pub mod Batch
use Prim.Native.Nat.{bit_or}
use segwire.Base.{
  ℕ, zero, suc, ◌+◌, ◌-◌, ◌*◌, ◌/◌, ◌%◌, ◌^◌, Bool, true, false, Option, none, some, List, [], ◌∷◌,
  ◌++◌, Result, ok, err, ◌>>=◌, ◌>>◌, map_err, ltb, if◌then◌else◌,
}
use segwire.Text.{Text, lit}
use segwire.Text.Numbers.{decimal}
use segwire.Error.{NetlinkError, socket_error, protocol_error}

-- u16::to_ne_bytes of the number taken `as u16`
abbrev pub u16_bytes : ℕ → List ℕ
u16_bytes n = (n % 256) ∷ (n / 256 % 256) ∷ []

-- u32::to_ne_bytes of the number taken `as u32`
abbrev pub u32_bytes : ℕ → List ℕ
u32_bytes n = (n % 256) ∷ (n / 256 % 256) ∷ (n / 65536 % 256) ∷ (n / 16777216 % 256) ∷ []

-- u16::from_ne_bytes at the front of the bytes; `none` where an index is out of bounds.
abbrev pub read_u16 : List ℕ → Option ℕ
read_u16 (a ∷ b ∷ _) = some (a + b * 256)
read_u16 _ = none

-- u32::from_ne_bytes, and the pattern of i32::from_ne_bytes
abbrev pub read_u32 : List ℕ → Option ℕ
read_u32 (a ∷ b ∷ c ∷ d ∷ _) = some (a + b * 256 + c * 65536 + d * 16777216)
read_u32 _ = none

-- The number of an i32, printed.
unfoldable pub decimal_i32 : ℕ → Text
unfolding decimal lit
decimal_i32 w = if ltb w (2 ^ 31) then decimal w else lit "-" ++ decimal (2 ^ 32 - w)

-- (x + 3) & !3
abbrev pub align4 : ℕ → ℕ
align4 x = (x + 3) / 4 * 4

module _ {ℓ} {A : Type ℓ} where
  unfoldable pub drop : ℕ → List A → List A
  drop zero xs = xs
  drop (suc n) [] = []
  drop (suc n) (x ∷ xs) = drop n xs

  unfoldable pub take : ℕ → List A → List A
  take zero xs = []
  take (suc n) [] = []
  take (suc n) (x ∷ xs) = x ∷ take n xs

unfoldable pub zeros : ℕ → List ℕ
zeros zero = []
zeros (suc n) = 0 ∷ zeros n

-- What the kernel answers on a socket, and the flags that netlink-packet-core defines.
pub record Kernel : Type 0 where
  pub socket : Result Text (Unit {0})
  pub bind : Result Text (Unit {0})
  pub send : List ℕ → Result Text (Unit {0})
  -- the datagrams that follow on what has been sent; recv() waits where there is none
  pub answers : List ℕ → List (Result Text (List ℕ))
  pub nlm_f_request : ℕ
  pub nlm_f_ack : ℕ
  pub nlm_f_dump : ℕ

pub record NetlinkSocket : Type 0 where
  pub seq : ℕ

-- An error is the text of the SocketError.
unfoldable pub open_netlink_fd : Kernel → Result Text (Unit {0})
unfolding lit
open_netlink_fd k = do
  map_err (λ e. lit "socket() failed: " ++ e) k.socket
  map_err (λ e. lit "bind() failed: " ++ e) k.bind

unfoldable pub open_netlink : Kernel → Result NetlinkError NetlinkSocket
unfolding open_netlink_fd
open_netlink k = map_err socket_error (open_netlink_fd k) >>= λ _. ok (record { seq = 1 })

-- NetlinkSocket::next_seq
abbrev pub next_seq : NetlinkSocket → ℕ × NetlinkSocket
next_seq s = (s.seq, record { seq = (s.seq + 1) % 2 ^ 32 })

unfoldable pub send_raw : Kernel → List ℕ → Result NetlinkError (Unit {0})
unfolding lit
send_raw k buf = map_err (λ e. socket_error (lit "send() failed: " ++ e)) (k.send buf)

abbrev pub recv_failed : Text → NetlinkError
recv_failed e = socket_error (lit "recv() failed: " ++ e)

-- What a call comes to: it returns, indexes out of bounds, or waits for a datagram for ever.
-- `unfinished` is a loop whose fuel is used up.
pub data CallOutcome {ℓ} (A : Type ℓ) : Type ℓ where
  returns : Result NetlinkError A → CallOutcome A
  panics waits unfinished : CallOutcome A

infixl 5 ◌>>-◌
abbrev pub ◌>>-◌ {ℓ κ} :
    {A : Type ℓ} {B : Type κ} → Result NetlinkError A → (A → CallOutcome B) → CallOutcome B
ok a >>- f = f a
err e >>- f = returns (err e)

-- An index that is used only behind `unwrap`: `none` is a panic.
abbrev pub reading {ℓ κ} :
    {A : Type ℓ} {B : Type κ} → Option A → (A → CallOutcome B) → CallOutcome B
reading (some a) f = f a
reading none f = panics
