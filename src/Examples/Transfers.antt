-- ===== src/Examples/Transfers.antt =====
-- Runs of src/lib/deskflow/ClipboardChunk.cpp and StreamChunker.cpp, with numbers in decimal, filled
-- up with zeros to twenty digits.
use zero_flow.Prelude.{
  ℕ, zero, suc, ◌+◌, ◌-◌, ◌*◌, ◌/◌, ◌%◌, ◌<◌, ◌≡◌, ◌∙◌, refl, ap, true, false, List, [], ◌∷◌, ◌++◌,
  Option, some, arith,
}
use zero_flow.Protocol.Stream.{in_memory, ok}
use zero_flow.ClipboardTransfer.{
  Assembly, TransferState, started, in_progress, finished, error, reset, assemble, receive,
  receive_start, receive_data, receive_end, make_chunk, send, send_clipboard,
}
use zero_flow.ClipboardTransfer as ClipboardTransfer
use zero_flow.ClipboardTransfer.Bounded.{IsAssembly, receive-IsAssembly}
use zero_flow.ClipboardTransfer.Wire.{chunk_body, assemble-send}
use zero_flow.ClipboardTransfer.Complete.{IsDecimal, receive_all, replicate}
use zero_flow.ClipboardTransfer.EndToEnd.{send_clipboard-Finishes, send_clipboard-Skipped}

digits : ℕ → ℕ → List ℕ
digits zero n = []
digits (suc k) n = digits k (n / 10) ++ ((n % 10 + b'0') ∷ [])

value : ℕ → List ℕ → ℕ
value acc [] = acc
value acc (d ∷ ds) = value (10 * acc + (d - b'0')) ds

value-snoc : (acc d : ℕ) (ds : List ℕ) → value acc (ds ++ (d ∷ [])) ≡ 10 * value acc ds + (d - b'0')
unfolding value
value-snoc acc d [] = refl
value-snoc acc d (e ∷ ds) = value-snoc (10 * acc + (e - b'0')) d ds

limit : ℕ → ℕ
limit zero = 1
limit (suc k) = 10 * limit k

value-digits : (k n : ℕ) → n < limit k → value 0 (digits k n) ≡ n
unfolding digits limit value
value-digits zero n h = omega arith
value-digits (suc k) n h =
    value-snoc 0 (n % 10 + b'0') (digits k (n / 10))
    ∙ omega (arith, value-digits k (n / 10) (omega arith))

abbrev number : ℕ → List ℕ
number n = digits 20 n

abbrev to_number : List ℕ → Option ℕ
to_number text = some (value 0 text)

number-IsDecimal : IsDecimal number to_number
unfolding limit
number-IsDecimal = record {
  inverse = λ n h. ap (λ (m : ℕ). some m) (value-digits 20 n (omega arith));
}

abbrev some_bytes : List ℕ
some_bytes = b'h' ∷ b'e' ∷ b'y' ∷ []

-- A transfer of three bytes, of which two are there.
abbrev underway : Assembly
underway = record {
  cached = b'h' ∷ b'e' ∷ [];
  expected_size = 3;
  active = true;
  discarding = false;
}

underway-IsAssembly : IsAssembly 10 underway
underway-IsAssembly = record { kept = omega arith; announced = λ h k. (omega arith, omega arith) }

-- More than was announced ends the transfer.
too_much : receive to_number 10 1 2 (b'y' ∷ b'o' ∷ []) underway ≡ (reset, error)
unfolding receive receive_data ClipboardTransfer.would_exceed
too_much = refl

receive-IsAssembly_example : IsAssembly 10 (receive to_number 10 1 2 (b'y' ∷ []) underway).0
receive-IsAssembly_example =
    receive-IsAssembly to_number 10 1 2 (b'y' ∷ []) underway underway-IsAssembly

assemble-send_example :
    (send (make_chunk 1 7 2 some_bytes)
      ≡ some ((b'D' ∷ b'C' ∷ b'L' ∷ b'P' ∷ chunk_body 1 7 2 some_bytes) ∷ []))
    × ((t : List ℕ) × (assemble to_number in_memory 10 underway
            (chunk_body 1 7 2 some_bytes ++ (9 ∷ []))
          ≡ ok (receive to_number 10 1 2 some_bytes underway, some (1, (7, t))))
        × (t ≡ 9 ∷ []))
assemble-send_example =
    assemble-send 1 7 2 some_bytes (omega arith) (omega arith) (omega arith) (omega arith) to_number
      in_memory 10 underway (9 ∷ []) (chunk_body 1 7 2 some_bytes ++ (9 ∷ [])) refl

send_clipboard-Finishes_example :
    (cs : List (List ℕ)) × (n : ℕ) × (send_clipboard number some_bytes 3 1 7 ≡ some cs)
    × (receive_all to_number 10 cs underway ≡ (
      record { cached = some_bytes; expected_size = 3; active = false; discarding = false },
      started ∷ (replicate n in_progress ++ (finished ∷ [])),
    ))
send_clipboard-Finishes_example =
    send_clipboard-Finishes number to_number number-IsDecimal 10 1 7 some_bytes underway
      (omega arith) (omega arith) (omega arith)

send_clipboard-Skipped_example :
    (cs : List (List ℕ)) × (n : ℕ) × (send_clipboard number some_bytes 3 1 7 ≡ some cs)
    × (receive_all to_number 2 cs underway
        ≡ (reset, in_progress ∷ (replicate n in_progress ++ (in_progress ∷ []))))
send_clipboard-Skipped_example =
    send_clipboard-Skipped number to_number number-IsDecimal 2 1 7 some_bytes underway (omega arith)
      (omega arith) (omega arith)
