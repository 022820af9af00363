-- ===== src/Wire/Resolve.antt =====
-- resolve_genl_family_id comes to a result on each answer that leaves two bytes of its buffer free.
use segwire.Base.{
  ℕ, suc, ◌+◌, ◌-◌, ◌≤◌, List, ◌∷◌, length, length-append, Result, ok, map_err, leb, ltb, ◌==◌, ◌≡◌,
  refl, arith,
}
use segwire.Text.{Text}
use segwire.Error.{socket_error}
use segwire.Wire.{
  read_u16, read_u32, drop, take, zeros, Kernel, open_netlink_fd, open_netlink, send_raw, ◌>>-◌,
}
use segwire.Wire.Words.{
  length-drop, length-take, length-take_all, length-zeros, read_u16_inside, read_u32_inside,
}
use segwire.Wire.Genl.{received, receive}
use segwire.Wire.Family.{
  search_family_id, parse_family, parse_reply, refused, resolve_genl_family_id, getfamily_message,
}
use segwire.Wire.Walk.{
  IsReturn, family_outcome-IsReturn, reading-IsReturn, if-IsReturn, >>--IsReturn, >>--fresh,
  search_family_id_finishes, search_family_id_inside,
}

-- The buffer keeps its size.
pub length-received : (size : ℕ) (datagram : List ℕ) → length (received size datagram).0 ≡ size
unfolding received
length-received size datagram =
    let kept = take size datagram in
    omega (
      arith,
      length-append kept (zeros (size - length kept)),
      length-zeros (size - length kept),
      length-take size datagram,
    )

-- As many bytes as the datagram has, and no more than fit.
pub count-received : (size : ℕ) (datagram : List ℕ) → (received size datagram).1 ≤ length datagram
unfolding received
count-received size datagram = length-take_all size datagram

parse_reply-IsReturn :
    (name : Text) (buf : List ℕ) (n message_type : ℕ)
    → 20 ≤ length buf
    → n + 2 ≤ length buf
    → IsReturn (parse_reply name buf n message_type)
unfolding parse_reply
parse_reply-IsReturn name buf n message_type l h =
    if-IsReturn (message_type == 2)
      (λ _.
        if-IsReturn (leb 24 n)
          (λ _.
            reading-IsReturn (read_u32 (drop 16 buf)) (refused name)
              (read_u32_inside (drop 16 buf) (omega (arith, length-drop 16 buf)))
              (λ errno. (_, refl)))
          (λ _. (_, refl)))
      (λ _.
        family_outcome-IsReturn name (search_family_id (suc n) 20 n buf)
          (search_family_id_finishes n 20 n buf (omega arith))
          (search_family_id_inside (suc n) 20 n buf h))

parse_family-IsReturn :
    (name : Text) (buf : List ℕ) (n : ℕ)
    → 20 ≤ length buf
    → n + 2 ≤ length buf
    → IsReturn (parse_family name (buf, n))
unfolding parse_family
parse_family-IsReturn name buf n l h =
    if-IsReturn (ltb n 20) (λ _. (_, refl))
      (λ _.
        reading-IsReturn (read_u16 (drop 4 buf)) (parse_reply name buf n)
          (read_u16_inside (drop 4 buf) (omega (arith, length-drop 4 buf)))
          (λ message_type. parse_reply-IsReturn name buf n message_type l h))

-- The call as the exchange of the request, with the first sequence number, for the answer.
pub resolve_genl_family_id_exchange :
    (k : Kernel) (name : Text) (name_bytes : List ℕ)
    → resolve_genl_family_id k name name_bytes ≡ (
        map_err socket_error (open_netlink_fd k) >>- λ _.
        send_raw k (getfamily_message k name_bytes 1) >>- λ _.
        receive 4096 (k.answers (getfamily_message k name_bytes 1)) (parse_family name))
unfolding resolve_genl_family_id open_netlink
resolve_genl_family_id_exchange k name name_bytes =
    >>--fresh (open_netlink_fd k) socket_error (record { seq = 1 })
      (λ sock. send_raw k (getfamily_message k name_bytes sock.seq) >>- λ _.
        receive 4096 (k.answers (getfamily_message k name_bytes sock.seq)) (parse_family name))

-- An answer that leaves two bytes of the buffer free makes the call return.
pub resolve_genl_family_id-IsReturn :
    (k : Kernel) (name : Text) (name_bytes datagram : List ℕ) (rest : List (Result Text (List ℕ)))
    → k.answers (getfamily_message k name_bytes 1) ≡ ok datagram ∷ rest
    → length datagram ≤ 4094
    → IsReturn (resolve_genl_family_id k name name_bytes)
unfolding receive parse_family
resolve_genl_family_id-IsReturn k name name_bytes datagram rest h le =
    let parsed : IsReturn (parse_family name (received 4096 datagram)) =
      parse_family-IsReturn name (received 4096 datagram).0 (received 4096 datagram).1
        (omega (arith, length-received 4096 datagram))
        (omega (arith, length-received 4096 datagram, count-received 4096 datagram, le)) in
    rw (resolve_genl_family_id_exchange k name name_bytes) (
      >>--IsReturn (map_err socket_error (open_netlink_fd k)) _ (λ _.
        >>--IsReturn (send_raw k (getfamily_message k name_bytes 1)) _
          (λ _. rw (h, receive) parsed)))
