-- ===== src/ClipboardTransfer/EndToEnd.antt =====
-- The two ways in which a transfer of sendClipboard ends at the receiver.
use zero_flow.Prelude.{
  ℕ, zero, suc, ◌+◌, ◌≤◌, ◌<◌, ◌^◌, ◌≡◌, ◌∙◌, sym, refl, ap, true, false, List, [], ◌∷◌, ◌++◌, leb,
  length, take, drop, take_all, length-take, Option, some, arith, lt→ltb, le→ltb, eq→==,
}
use zero_flow.ClipboardTransfer.{
  Assembly, started, in_progress, finished, reset, receive, receive_start, receive_data,
  receive_end, would_exceed, data_start, data_chunk, data_end, send_clipboard,
}
use zero_flow.ClipboardTransfer.Complete.{IsDecimal, replicate, receive_all, loop_lem, whole}

take-add : (m n : ℕ) (xs : List ℕ) → take m xs ++ take n (drop m xs) ≡ take (m + n) xs
take-add zero n xs = ap (λ k. take k xs) (omega arith)
take-add (suc m) n [] = take_all n [] (omega arith) ∙ sym (take_all (suc m + n) [] (omega arith))
take-add (suc m) n (x ∷ xs) =
    let e : suc (m + n) ≡ suc m + n = omega arith in
    ap (◌∷◌ x) (take-add m n xs) ∙ ap (λ k. take k (x ∷ xs)) e

within : (x y z : ℕ) → x + y ≤ z → would_exceed x y z ≡ false
unfolding would_exceed
within x y z h = ground arith

module _ (to_number : List ℕ → Option ℕ) (max id : ℕ) (bytes : List ℕ) (is : id < 2) where
  -- The receiver behind n bytes of a transfer that fits.
  keeping : ℕ → Assembly
  keeping n = record {
    cached = take n bytes;
    expected_size = length bytes;
    active = true;
    discarding = false;
  }

  known : leb 2 id ≡ false
  known = ground arith

  keeping_step :
      (sent count : ℕ)
      → sent + count ≤ length bytes
      → receive to_number max id data_chunk (take count (drop sent bytes)) (keeping sent)
        ≡ (keeping (sent + count), in_progress)
  unfolding receive receive_data keeping
  keeping_step sent count h =
      rw (known, fits)
        (ap
          (λ (xs : List ℕ). (
            record { cached = xs; expected_size = length bytes; active = true; discarding = false },
            in_progress,
          ))
          (take-add sent count bytes))
    where
      fits :
          would_exceed
            (length (take sent bytes))
            (length (take count (drop sent bytes)))
            (length bytes)
          ≡ false
      fits =
          within (length (take sent bytes)) (length (take count (drop sent bytes))) (length bytes)
            (omega (arith, length-take sent bytes, length-take count (drop sent bytes)))

  skipping : ℕ → Assembly
  skipping n = record {
    cached = [];
    expected_size = length bytes;
    active = true;
    discarding = true;
  }

  skipping_step :
      (sent count : ℕ)
      → sent + count ≤ length bytes
      → receive to_number max id data_chunk (take count (drop sent bytes)) (skipping sent)
        ≡ (skipping (sent + count), in_progress)
  unfolding receive receive_data skipping
  skipping_step sent count h = rw known refl

  keeping_start :
      (text : List ℕ) (a : Assembly)
      → to_number text ≡ some (length bytes)
      → length bytes ≤ max
      → receive to_number max id data_start text a ≡ (keeping 0, started)
  unfolding receive receive_start keeping
  keeping_start text a e h = rw (known, e, le→ltb max (length bytes) h) refl

  keeping_end : receive to_number max id data_end [] (keeping (length bytes)) ≡ (
    record { cached = bytes; expected_size = length bytes; active = false; discarding = false },
    finished,
  )
  unfolding receive receive_end keeping
  keeping_end =
      rw
        (
          known,
          take_all (length bytes) bytes (omega arith),
          eq→== (length bytes) (length bytes) refl,
        )
        refl

  skipping_start :
      (text : List ℕ) (a : Assembly)
      → to_number text ≡ some (length bytes)
      → max < length bytes
      → receive to_number max id data_start text a ≡ (skipping 0, in_progress)
  unfolding receive receive_start skipping
  skipping_start text a e h = rw (known, e, lt→ltb max (length bytes) h) refl

  skipping_end :
      receive to_number max id data_end [] (skipping (length bytes)) ≡ (reset, in_progress)
  unfolding receive receive_end skipping
  skipping_end = rw known refl

-- A transfer of no more than `max` bytes goes through, whatever the receiver was at before:
-- sendClipboard finishes, assemble answers its chunks with Started, InProgress and, for the last
-- one only, Finished, and then it keeps the data. The clipboard is one of the two, the data shorter
-- than 2 ^ 63 bytes, and QString reads back the 64-bit numbers that it prints.
pub send_clipboard-Finishes :
    (number : ℕ → List ℕ) (to_number : List ℕ → Option ℕ)
    → IsDecimal number to_number
    → (max id sequence : ℕ) (bytes : List ℕ) (a : Assembly) → id < 2
    → length bytes < 2 ^ 63
    → length bytes ≤ max
    → (cs : List (List ℕ)) × (n : ℕ) × (send_clipboard number bytes (length bytes) id sequence
        ≡ some cs)
      × (receive_all to_number max cs a ≡ (
        record { cached = bytes; expected_size = length bytes; active = false; discarding = false },
        started ∷ (replicate n in_progress ++ (finished ∷ [])),
      ))
send_clipboard-Finishes number to_number decimal max id sequence bytes a is small fits =
    whole to_number max number bytes id sequence a
      (record { cached = bytes; expected_size = length bytes; active = false; discarding = false })
      (keeping to_number max id bytes is) started finished is
      (loop_lem to_number max bytes id sequence is small (keeping to_number max id bytes is)
        (keeping_step to_number max id bytes is) (suc (length bytes)) 0 (omega arith) (omega arith))
      (keeping_start to_number max id bytes is (number (length bytes)) a
        (decimal.inverse (length bytes) (omega arith)) fits)
      (keeping_end to_number max id bytes is)

-- A transfer of more than `max` bytes is skipped, whatever the receiver was at before:
-- sendClipboard finishes, assemble answers all of its chunks with InProgress, and is then as it was
-- at the beginning. The clipboard is one of the two, the data shorter than 2 ^ 63 bytes, and
-- QString reads back the 64-bit numbers that it prints.
pub send_clipboard-Skipped :
    (number : ℕ → List ℕ) (to_number : List ℕ → Option ℕ)
    → IsDecimal number to_number
    → (max id sequence : ℕ) (bytes : List ℕ) (a : Assembly) → id < 2
    → length bytes < 2 ^ 63
    → max < length bytes
    → (cs : List (List ℕ)) × (n : ℕ) × (send_clipboard number bytes (length bytes) id sequence
        ≡ some cs)
      × (receive_all to_number max cs a
          ≡ (reset, in_progress ∷ (replicate n in_progress ++ (in_progress ∷ []))))
send_clipboard-Skipped number to_number decimal max id sequence bytes a is small more =
    whole to_number max number bytes id sequence a reset (skipping to_number max id bytes is)
      in_progress in_progress is
      (loop_lem to_number max bytes id sequence is small (skipping to_number max id bytes is)
        (skipping_step to_number max id bytes is) (suc (length bytes)) 0 (omega arith)
        (omega arith))
      (skipping_start to_number max id bytes is (number (length bytes)) a
        (decimal.inverse (length bytes) (omega arith)) more)
      (skipping_end to_number max id bytes is)
