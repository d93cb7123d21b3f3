-- ===== src/ClipboardTransfer/Complete.antt =====
-- A whole transfer: what sendClipboard puts into its events, received chunk by chunk.
use zero_flow.Prelude.{
  ℕ, zero, suc, ◌+◌, ◌-◌, ◌≤◌, ◌<◌, ◌^◌, ◌%◌, ◌≡◌, ◌∙◌, refl, false, List, [], ◌∷◌, ◌++◌, ltb, ◌==◌,
  length, take, drop, Option, some, arith, Bool-cases, inl, inr, ltb→le, le→ltb, ==→eq, ==→ne,
}
use zero_flow.ClipboardTransfer.{
  Assembly, TransferState, in_progress, receive, make_chunk, chunk_id, chunk_mark, chunk_data,
  chunk_size, data_start, data_chunk, data_end, next_size, send_round, send_loop, send_clipboard,
}
use zero_flow.ClipboardTransfer.Wire.{
  chunk_id-make_chunk, chunk_mark-make_chunk, chunk_data-make_chunk,
}

-- What QString's number and toULongLong promise of a 64-bit number.
pub record IsDecimal (number : ℕ → List ℕ) (to_number : List ℕ → Option ℕ) : Type 0 where
  pub inverse : (n : ℕ) → n < 2 ^ 64 → to_number (number n) ≡ some n

abbrev pub replicate : ℕ → TransferState → List TransferState
replicate zero t = []
replicate (suc n) t = t ∷ replicate n t

module _ (to_number : List ℕ → Option ℕ) (max : ℕ) where
  -- The receiver, which gets the chunks one by one, and what each call of assemble returns.
  unfoldable pub receive_all : List (List ℕ) → Assembly → Assembly × List TransferState
  receive_all [] a = (a, [])
  receive_all (c ∷ cs) a =
      let first = receive to_number max (chunk_id c) (chunk_mark c) (chunk_data c) a in
      let more = receive_all cs first.0 in (more.0, first.1 ∷ more.1)

  receive_all-append :
      (cs ds : List (List ℕ)) (a : Assembly)
      → receive_all (cs ++ ds) a ≡ (
        (receive_all ds (receive_all cs a).0).0,
        (receive_all cs a).1 ++ (receive_all ds (receive_all cs a).0).1,
      )
  unfolding receive_all
  receive_all-append [] ds a = refl
  receive_all-append (c ∷ cs) ds a =
      rw
        (receive_all-append cs ds
          (receive to_number max (chunk_id c) (chunk_mark c) (chunk_data c) a).0)
        refl

  receive_all-cons :
      (id sequence mark : ℕ) (bytes : List ℕ) (cs : List (List ℕ)) (a b : Assembly)
      (t : TransferState)
      → id < 2 ^ 8
      → receive to_number max id mark bytes a ≡ (b, t)
      → receive_all (make_chunk id sequence mark bytes ∷ cs) a
        ≡ ((receive_all cs b).0, t ∷ (receive_all cs b).1)
  unfolding receive_all
  receive_all-cons id sequence mark bytes cs a b t h e =
      rw
        (
          chunk_id-make_chunk id sequence mark bytes h,
          chunk_mark-make_chunk id sequence mark bytes,
          chunk_data-make_chunk id sequence mark bytes,
          e,
        )
        refl

  -- What a receiver in `state sent` makes of the chunks.
  abbrev pub Delivers : List ℕ → (ℕ → Assembly) → Option (List (List ℕ)) → ℕ → Type 0
  Delivers bytes state sending sent =
      (cs : List (List ℕ)) × (sending ≡ some cs)
      × (receive_all cs (state sent) ≡ (state (length bytes), replicate (length cs) in_progress))

  -- The loop, for a receiver that is in `state n` behind n bytes of the data.
  module _ (bytes : List ℕ) (id sequence : ℕ) (is : id < 2) (small : length bytes < 2 ^ 63)
      (state : ℕ → Assembly)
      (step : (sent count : ℕ)
        → sent + count ≤ length bytes
        → receive to_number max id data_chunk (take count (drop sent bytes)) (state sent)
          ≡ (state (sent + count), in_progress)) where
    round :
        (sent count : ℕ) (next : ℕ → Option (List (List ℕ)))
        → sent + count ≤ length bytes
        → (sent + count < length bytes → Delivers bytes state (next (sent + count)) (sent + count))
        → Delivers bytes state (send_round bytes (length bytes) id sequence sent count next) sent
    unfolding send_round receive_all
    round sent count next h rest = elim (Bool-cases (sent + count == length bytes)) [
      | inl l ↦ (
        chunk ∷ [],
        rw (inside, wrap, l) refl,
        first [] ∙ rw (==→eq (sent + count) (length bytes) l, receive_all) refl,
      )
      | inr l ↦
          let (cs, same, got) = rest (omega (arith, ==→ne (sent + count) (length bytes) l)) in
          (chunk ∷ cs, rw (inside, wrap, l, same) refl, first cs ∙ rw got refl)
    ]
      where
        chunk : List ℕ
        chunk = make_chunk id sequence data_chunk (take count (drop sent bytes))

        wrap : (sent + count) % 2 ^ 64 ≡ sent + count
        wrap = omega arith

        inside : ltb (length bytes) (sent + count) ≡ false
        inside = le→ltb (length bytes) (sent + count) h

        first :
            (cs : List (List ℕ))
            → receive_all (chunk ∷ cs) (state sent) ≡ (
              (receive_all cs (state (sent + count))).0,
              in_progress ∷ (receive_all cs (state (sent + count))).1,
            )
        first cs =
            receive_all-cons id sequence data_chunk (take count (drop sent bytes)) cs (state sent)
              (state (sent + count)) in_progress (omega arith) (step sent count h)

    pub loop_lem :
        (fuel sent : ℕ)
        → sent ≤ length bytes
        → length bytes < sent + fuel
        → Delivers bytes state
            (send_loop fuel bytes (length bytes) id sequence sent chunk_size)
            sent
    unfolding send_loop next_size
    loop_lem zero sent h k = absurd (omega arith)
    loop_lem (suc fuel) sent h k =
        elim (Bool-cases (ltb (length bytes) ((sent + chunk_size) % 2 ^ 64))) [
          | inl l ↦
              let count : (length bytes + 2 ^ 64 - sent) % 2 ^ 64 ≡ length bytes - sent =
                omega arith in
              rw (l, count)
                (round sent (length bytes - sent)
                  (λ n. send_loop fuel bytes (length bytes) id sequence n (length bytes - sent))
                  (omega arith) (λ m. absurd (omega arith)))
          | inr l ↦
              let fits : sent + chunk_size ≤ length bytes =
                omega (arith, ltb→le (length bytes) ((sent + chunk_size) % 2 ^ 64) l) in
              rw l (
                round sent chunk_size
                  (λ n. send_loop fuel bytes (length bytes) id sequence n chunk_size) fits
                  (λ m. loop_lem fuel (sent + chunk_size) fits (omega arith)))
        ]

  -- A transfer whose loop delivers `state`, from its first chunk to its last.
  pub whole :
      (number : ℕ → List ℕ) (bytes : List ℕ) (id sequence : ℕ) (a b : Assembly)
      (state : ℕ → Assembly) (first last : TransferState)
      → id < 2
      → Delivers bytes state
          (send_loop (suc (length bytes)) bytes (length bytes) id sequence 0 chunk_size)
          0
      → receive to_number max id data_start (number (length bytes)) a ≡ (state 0, first)
      → receive to_number max id data_end [] (state (length bytes)) ≡ (b, last)
      → (cs : List (List ℕ)) × (n : ℕ) × (send_clipboard number bytes (length bytes) id sequence
          ≡ some cs)
        × (receive_all cs a ≡ (b, first ∷ (replicate n in_progress ++ (last ∷ []))))
  unfolding send_clipboard
  whole number bytes id sequence a b state first last is (cs, same, got) e f =
      let end = make_chunk id sequence data_end [] ∷ [] in
      let start = make_chunk id sequence data_start (number (length bytes)) in
      let closing : receive_all end (state (length bytes)) ≡ (b, last ∷ []) =
        receive_all-cons id sequence data_end [] [] (state (length bytes)) b last (omega arith) f
        ∙ unfold receive_all in refl in
      (
        start ∷ (cs ++ end),
        length cs,
        rw (same, send_clipboard) refl,
        receive_all-cons id sequence data_start (number (length bytes)) (cs ++ end) a (state 0)
              first (omega arith) e
            ∙ rw (receive_all-append cs end (state 0), got, closing) refl,
      )
