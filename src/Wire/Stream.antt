-- ===== src/Wire/Stream.antt =====
-- Batches that are built of whole messages: the loop of parse_response_batch against a reference that
-- takes the messages one by one, and an answer that comes in several datagrams.
use segwire.Base.{
  ℕ, zero, suc, ◌+◌, ◌-◌, ◌%◌, ◌≤◌, ◌<◌, Bool, true, false, none, some, List, [], ◌∷◌, ◌++◌, map,
  length, length-append, append_assoc, append-nil, All, Result, ok, err, leb, ltb, ◌||◌, ◌≡◌, refl,
  sym, ap, ◌∙◌, arith,
}
use segwire.Text.{Text, lit}
use segwire.Wire.{read_u32, align4, drop, take, zeros, returns}
use segwire.Wire.Words.{drop-drop, drop-append, take-append, take-all, length-zeros, align4-le}
use segwire.Wire.Batch.{
  Payload, done, error, other, BatchResult, BatchRound, finish, take_message, batch_round,
  behind_round, batch_loop, parse_response_batch, behind_batch, receive_loop, netlink_error,
  parse_failed,
}

-- A message whose first word is its length.
abbrev pub IsFrame : List ℕ → Type 0
IsFrame m = (16 ≤ length m) × (read_u32 m ≡ some (length m))

unfoldable pub padded : List ℕ → List ℕ
unfolding zeros
padded m = m ++ zeros (align4 (length m) - length m)

-- Messages one behind the other, each padded to a multiple of four bytes.
unfoldable pub stream : List (List ℕ) → List ℕ
unfolding padded
stream [] = []
stream (m ∷ ms) = padded m ++ stream ms

length-padded : (m : List ℕ) → length (padded m) ≡ align4 (length m)
unfolding padded
length-padded m =
    let pad = align4 (length m) - length m in
    omega (arith, length-append m (zeros pad), length-zeros pad, align4-le (length m))

count_stream : (ms : List (List ℕ)) → All IsFrame ms → length ms ≤ length (stream ms)
unfolding stream
count_stream [] h = omega arith
count_stream (m ∷ ms) ((l, r), h) =
    omega (arith, l, count_stream ms h, length-padded m, length-append (padded m) (stream ms))

read_u32-append : (m rest : List ℕ) → 16 ≤ length m → read_u32 (m ++ rest) ≡ read_u32 m
read_u32-append (a ∷ b ∷ c ∷ d ∷ m) rest h = refl
read_u32-append [] rest h = absurd (omega arith)
read_u32-append (a ∷ []) rest h = absurd (omega arith)
read_u32-append (a ∷ b ∷ []) rest h = absurd (omega arith)
read_u32-append (a ∷ b ∷ c ∷ []) rest h = absurd (omega arith)

module _ {I : Type 0} (deserialize : List ℕ → Result Text (Payload I)) where
  -- What a message does to the messages that have been collected.
  abbrev pub collect_message :
      Result Text (Payload I)
      → List I
      → (List I → BatchResult deserialize)
      → BatchResult deserialize
  collect_message (ok done) responses further = (returns (ok true), responses)
  collect_message (ok (error none)) responses further = (returns (ok true), responses)
  collect_message (ok (error (some code))) responses further =
      (returns (err (netlink_error deserialize code)), responses)
  collect_message (ok (other i)) responses further = further (responses ++ i ∷ [])
  collect_message (err e) responses further =
      (returns (err (parse_failed deserialize e)), responses)

  -- The reference: the messages in order, up to the end of the answer or an error.
  unfoldable pub collect : List (List ℕ) → List I → BatchResult deserialize
  unfolding lit
  collect [] responses = (returns (ok false), responses)
  collect (m ∷ ms) responses = collect_message (deserialize m) responses (collect ms)

  batch_round-frame :
      (offset : ℕ) (bytes m rest : List ℕ) (responses : List I)
      → IsFrame m
      → drop offset bytes ≡ padded m ++ rest
      → length bytes ≡ offset + (length (padded m) + length rest)
      → offset % 4 ≡ 0
      → batch_round deserialize offset bytes responses
        ≡ take_message deserialize (offset + length (padded m)) responses (deserialize m)
  unfolding batch_round padded
  batch_round-frame offset bytes m rest responses (l, r) at total h =
      let front = at ∙ append_assoc m (zeros (align4 (length m) - length m)) rest in
      let word : read_u32 (drop offset bytes) ≡ some (length m) =
        ap read_u32 front ∙ (read_u32-append m _ l ∙ r) in
      let kept : take (length m) (drop offset bytes) ≡ m =
        ap (take (length m)) front ∙ take-append m _ in
      let later : align4 (offset + length m) ≡ offset + length (padded m) =
        omega (arith, length-padded m) in
      let inside : (leb (length bytes) offset || ltb (length bytes - offset) 4) ≡ false =
        ground (arith, length-padded m) in
      let whole : (ltb (length m) 16 || ltb (length bytes) (offset + length m)) ≡ false =
        ground (arith, length-padded m) in
      rw (inside, word, whole, kept, later) refl

  batch_loop-round :
      (fuel offset : ℕ) (bytes : List ℕ) (responses : List I) {round : BatchRound deserialize}
      → batch_round deserialize offset bytes responses ≡ round
      → batch_loop deserialize (suc fuel) offset bytes responses
        ≡ behind_round deserialize round
            (λ later collected. batch_loop deserialize fuel later bytes collected)
  unfolding batch_loop
  batch_loop-round fuel offset bytes responses e = rw (e, batch_loop) refl

  behind_round-take_message :
      (later : ℕ) (responses : List I) (read : Result Text (Payload I))
      (next : ℕ → List I → BatchResult deserialize) (further : List I → BatchResult deserialize)
      → ((collected : List I) → next later collected ≡ further collected)
      → behind_round deserialize (take_message deserialize later responses read) next
        ≡ collect_message read responses further
  unfolding take_message
  behind_round-take_message later responses (ok done) next further h = refl
  behind_round-take_message later responses (ok (error none)) next further h = refl
  behind_round-take_message later responses (ok (error (some code))) next further h = refl
  behind_round-take_message later responses (ok (other i)) next further h = h (responses ++ i ∷ [])
  behind_round-take_message later responses (err e) next further h = refl

  batch_round-end :
      (offset : ℕ) (bytes : List ℕ) (responses : List I)
      → length bytes ≤ offset
      → batch_round deserialize offset bytes responses ≡ finish (returns (ok false), responses)
  unfolding batch_round
  batch_round-end offset bytes responses h =
      let past : leb (length bytes) offset ≡ true = ground arith in rw past refl

  batch_loop-stream :
      (ms : List (List ℕ)) (fuel offset : ℕ) (bytes : List ℕ) (responses : List I)
      → All IsFrame ms
      → drop offset bytes ≡ stream ms
      → length bytes ≡ offset + length (stream ms)
      → offset % 4 ≡ 0
      → length ms < fuel
      → batch_loop deserialize fuel offset bytes responses ≡ collect ms responses
  unfolding stream collect
  batch_loop-stream [] (suc fuel) offset bytes responses frames at total h f =
      batch_loop-round fuel offset bytes responses
        (batch_round-end offset bytes responses (omega (arith, total)))
  batch_loop-stream (m ∷ ms) (suc fuel) offset bytes responses (frame, frames) at total h f =
      let sum = length-append (padded m) (stream ms) in
      let four = length-padded m in
      let later : drop (offset + length (padded m)) bytes ≡ stream ms =
        sym (drop-drop offset (length (padded m)) bytes)
        ∙ (ap (drop (length (padded m))) at ∙ drop-append (padded m) (stream ms)) in
      batch_loop-round fuel offset bytes responses (
        batch_round-frame offset bytes m (stream ms) responses frame at (omega (arith, sum, total))
          h)
      ∙ behind_round-take_message (offset + length (padded m)) responses (deserialize m)
          (λ o c. batch_loop deserialize fuel o bytes c) (collect ms)
          (λ collected.
            batch_loop-stream ms fuel (offset + length (padded m)) bytes collected frames later
              (omega (arith, sum, total)) (omega (arith, four, h)) (omega arith))
  batch_loop-stream ms zero offset bytes responses frames at total h f = absurd (omega arith)

  -- The loop takes the messages of a batch as the reference does.
  pub parse_response_batch-stream :
      (ms : List (List ℕ)) (responses : List I)
      → All IsFrame ms
      → parse_response_batch deserialize (stream ms) responses ≡ collect ms responses
  unfolding parse_response_batch drop
  parse_response_batch-stream ms responses frames =
      batch_loop-stream ms (suc (length (stream ms))) 0 (stream ms) responses frames refl
        (omega arith) refl (omega (arith, count_stream ms frames))

  -- A message with the data that it is read as.
  abbrev pub IsData : List ℕ × I → Type 0
  IsData (m, i) = IsFrame m × (deserialize m ≡ ok (other i))

  abbrev pub messages : List (List ℕ × I) → List (List ℕ)
  messages = map (λ p. p.0)

  abbrev pub items : List (List ℕ × I) → List I
  items = map (λ p. p.1)

  messages-IsFrame : (ps : List (List ℕ × I)) → All IsData ps → All IsFrame (messages ps)
  messages-IsFrame [] h = tt
  messages-IsFrame ((m, i) ∷ ps) ((frame, _), h) = (frame, messages-IsFrame ps h)

  -- Data is collected in its order, and the messages behind it are seen next.
  collect-messages :
      (ps : List (List ℕ × I)) (ms : List (List ℕ)) (responses : List I)
      → All IsData ps
      → collect (messages ps ++ ms) responses ≡ collect ms (responses ++ items ps)
  unfolding collect
  collect-messages [] ms responses h = ap (collect ms) (sym (append-nil responses))
  collect-messages ((m, i) ∷ ps) ms responses ((_, d), h) = rw d (
      collect-messages ps ms (responses ++ i ∷ []) h
      ∙ ap (collect ms) (append_assoc responses (i ∷ []) (items ps)))

  -- The datagrams of an answer with data alone.
  abbrev pub datagrams : List (List (List ℕ × I)) → List (Result Text (List ℕ))
  datagrams = map (λ batch. ok (stream (messages batch)))

  abbrev pub all_items : List (List (List ℕ × I)) → List I
  all_items [] = []
  all_items (batch ∷ batches) = items batch ++ all_items batches

  abbrev pub IsBatch : List (List ℕ × I) → Type 0
  IsBatch batch = All IsData batch × (length (stream (messages batch)) ≤ 65536)

  receive_loop-stream :
      (is_dump : Bool) (ms : List (List ℕ)) (rest : List (Result Text (List ℕ)))
      (responses : List I)
      → All IsFrame ms
      → length (stream ms) ≤ 65536
      → receive_loop deserialize is_dump (ok (stream ms) ∷ rest) responses
        ≡ behind_batch deserialize is_dump
            (collect ms responses).1
            (receive_loop deserialize is_dump rest (collect ms responses).1)
            (collect ms responses).0
  unfolding receive_loop
  receive_loop-stream is_dump ms rest responses frames l =
      ap (λ r. behind_batch deserialize is_dump r.1 (receive_loop deserialize is_dump rest r.1) r.0)
        (ap (λ d. parse_response_batch deserialize d responses) (take-all 65536 (stream ms) l)
          ∙ parse_response_batch-stream ms responses frames)

  receive_loop-batch :
      (batch : List (List ℕ × I)) (rest : List (Result Text (List ℕ))) (responses : List I)
      → IsBatch batch
      → receive_loop deserialize true (ok (stream (messages batch)) ∷ rest) responses
        ≡ receive_loop deserialize true rest (responses ++ items batch)
  unfolding collect
  receive_loop-batch batch rest responses (h, l) =
      let parsed : collect (messages batch) responses
          ≡ (returns (ok false), responses ++ items batch) =
        ap (λ ms. collect ms responses) (sym (append-nil (messages batch)))
        ∙ collect-messages batch [] responses h in
      receive_loop-stream true (messages batch) rest responses (messages-IsFrame batch h) l
      ∙ ap (λ r. behind_batch deserialize true r.1 (receive_loop deserialize true rest r.1) r.0)
          parsed

  messages-IsFrame_last :
      (ps : List (List ℕ × I)) (last : List ℕ)
      → All IsData ps
      → IsFrame last
      → All IsFrame (messages ps ++ last ∷ [])
  messages-IsFrame_last [] last h frame = (frame, tt)
  messages-IsFrame_last ((m, i) ∷ ps) last ((here, _), h) frame =
      (here, messages-IsFrame_last ps last h frame)

  -- A dump that comes in several datagrams, each of at most 65536 bytes and of whole messages, the last of
  -- which ends with the message that ends the answer, is returned whole and in order. What comes behind it
  -- is not read.
  pub receive_loop-dump :
      (batches : List (List (List ℕ × I))) (final : List (List ℕ × I)) (last : List ℕ)
      (rest : List (Result Text (List ℕ))) (responses : List I)
      → All IsBatch batches
      → All IsData final
      → IsFrame last
      → deserialize last ≡ ok done
      → length (stream (messages final ++ last ∷ [])) ≤ 65536
      → receive_loop deserialize true
          (datagrams batches ++ (ok (stream (messages final ++ last ∷ [])) ∷ rest))
          responses
        ≡ returns (ok (responses ++ (all_items batches ++ items final)))
  unfolding collect
  receive_loop-dump [] final last rest responses h whole frame d l =
      let finished : collect (last ∷ []) (responses ++ items final)
          ≡ (returns (ok true), responses ++ items final) =
        rw d refl in
      let ended : collect (messages final ++ last ∷ []) responses
          ≡ (returns (ok true), responses ++ items final) =
        collect-messages final (last ∷ []) responses whole ∙ finished in
      receive_loop-stream true (messages final ++ last ∷ []) rest responses
        (messages-IsFrame_last final last whole frame) l
      ∙ ap (λ r. behind_batch deserialize true r.1 (receive_loop deserialize true rest r.1) r.0)
          ended
  receive_loop-dump (batch ∷ batches) final last rest responses (b, h) whole frame d l =
      receive_loop-batch batch
        (datagrams batches ++ (ok (stream (messages final ++ last ∷ [])) ∷ rest)) responses b
      ∙ (receive_loop-dump batches final last rest (responses ++ items batch) h whole frame d l
          ∙ ap (λ i. returns (ok i))
              (append_assoc responses (items batch) (all_items batches ++ items final)
                ∙ ap (λ i. responses ++ i)
                    (sym (append_assoc (items batch) (all_items batches) (items final)))))
