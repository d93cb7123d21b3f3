-- ===== src/ClipboardTransfer/Wire.antt =====
-- What send writes for a chunk, as assemble reads it.
use zero_flow.Prelude.{
  ℕ, suc, ◌+◌, ◌-◌, ◌<◌, ◌^◌, ◌≡◌, refl, ap, ◌∙◌, List, [], ◌∷◌, ◌++◌, length, take, take-append,
  take_all, length-append, Option, some, arith,
}
use zero_flow.Protocol.Format.{Arg, int_arg, string_arg, directives, kind_of, is_width}
use zero_flow.Protocol.Write.{write_int, write_string}
use zero_flow.Protocol.Stream.{Stream, ok}
use zero_flow.Protocol.Read.{readf, vreadf}
use zero_flow.Protocol.Fits.{Fits, empty_fits, literal_fits, int_fits, string_fits}
use zero_flow.Protocol.Length.{message, writef-message, length-write_string}
use zero_flow.Protocol.RoundTrip.{vreadf-message}
use zero_flow.ClipboardTransfer.{
  Assembly, body_format, clipboard_format, receive, assemble, make_chunk, chunk_id, chunk_sequence,
  chunk_mark, chunk_data, send,
}

pub chunk_id-make_chunk :
    (id sequence mark : ℕ) (bytes : List ℕ)
    → id < 2 ^ 8
    → chunk_id (make_chunk id sequence mark bytes) ≡ id
unfolding chunk_id make_chunk
chunk_id-make_chunk id sequence mark bytes h = omega arith

pub chunk_sequence-make_chunk :
    (id sequence mark : ℕ) (bytes : List ℕ)
    → sequence < 2 ^ 32
    → chunk_sequence (make_chunk id sequence mark bytes) ≡ sequence
unfolding chunk_sequence make_chunk
chunk_sequence-make_chunk id sequence mark bytes h = omega arith

pub chunk_mark-make_chunk :
    (id sequence mark : ℕ) (bytes : List ℕ) → chunk_mark (make_chunk id sequence mark bytes) ≡ mark
unfolding chunk_mark make_chunk
chunk_mark-make_chunk id sequence mark bytes = refl

pub chunk_data-make_chunk :
    (id sequence mark : ℕ) (bytes : List ℕ) → chunk_data (make_chunk id sequence mark bytes) ≡ bytes
unfolding chunk_data make_chunk
chunk_data-make_chunk id sequence mark bytes =
    let n : suc (suc (suc (suc (suc (suc (length (bytes ++ (0 ∷ [])))))))) - 7 ≡ length bytes =
      omega (arith, length-append bytes (0 ∷ [])) in
    ap (λ k. take k (bytes ++ (0 ∷ []))) n
    ∙ take-append (length bytes) bytes (0 ∷ []) (omega arith)
    ∙ take_all (length bytes) bytes (omega arith)

readf_lem :
    (stream : Stream) (fmt : List ℕ) (s : stream.State) (r : List Arg × stream.State)
    → vreadf stream (directives fmt) s ≡ ok r
    → readf stream fmt s ≡ ok (some r)
unfolding readf
readf_lem stream fmt s r e = rw (e, readf)

assemble-readf :
    (to_number : List ℕ → Option ℕ) (stream : Stream) (max id sequence mark : ℕ) (bytes : List ℕ)
    (a : Assembly) (s t : stream.State)
    → readf stream body_format s
      ≡ ok (some (int_arg id ∷ int_arg sequence ∷ int_arg mark ∷ string_arg bytes ∷ [], t))
    → assemble to_number stream max a s
      ≡ ok (receive to_number max id mark bytes a, some (id, (sequence, t)))
unfolding assemble
assemble-readf to_number stream max id sequence mark bytes a s t e = rw (e, assemble)

module _ (id sequence mark : ℕ) (bytes : List ℕ) (is : id < 2 ^ 8) (ss : sequence < 2 ^ 32)
    (ms : mark < 2 ^ 8) (bs : length bytes < 2 ^ 32 - 14) where
  args : List Arg
  args = int_arg id ∷ int_arg sequence ∷ int_arg mark ∷ string_arg bytes ∷ []

  body_fits : Fits (directives body_format) args
  unfolding directives kind_of is_width args
  body_fits = int_fits 1 b'i' id refl refl is (
      int_fits 4 b'i' sequence refl refl ss (
        int_fits 1 b'i' mark refl refl ms
          (string_fits 0 b's' bytes refl refl (omega arith) empty_fits)))

  clipboard_fits : Fits (directives clipboard_format) args
  unfolding directives
  clipboard_fits =
      literal_fits b'D' (literal_fits b'C' (literal_fits b'L' (literal_fits b'P' body_fits)))

  length-body : length (message body_fits) ≡ length bytes + 10
  unfolding message body_fits write_int write_string
  length-body =
      omega (arith, length-append (write_string bytes) [], length-write_string bytes (omega arith))

  send_lem :
      send (make_chunk id sequence mark bytes)
      ≡ some ((b'D' ∷ b'C' ∷ b'L' ∷ b'P' ∷ message body_fits) ∷ [])
  unfolding send
  send_lem =
      rw
        (
          chunk_id-make_chunk id sequence mark bytes is,
          chunk_sequence-make_chunk id sequence mark bytes ss,
          chunk_mark-make_chunk id sequence mark bytes,
          chunk_data-make_chunk id sequence mark bytes,
        )
        (unfold message clipboard_fits args in
          (writef-message clipboard_format args clipboard_fits (omega arith)
            (omega (arith, length-body))).2)

  assemble_lem :
      (to_number : List ℕ → Option ℕ) (stream : Stream) (max : ℕ) (a : Assembly) (end : List ℕ)
      (s : stream.State)
      → stream.pending s ≡ message body_fits ++ end
      → (t : stream.State) × (assemble to_number stream max a s
          ≡ ok (receive to_number max id mark bytes a, some (id, (sequence, t))))
        × (stream.pending t ≡ end)
  unfolding args
  assemble_lem to_number stream max a end s e =
      let (t, same, p) = vreadf-message stream body_fits end s e in
      (
        t,
        assemble-readf to_number stream max id sequence mark bytes a s t
            (readf_lem stream body_format s (args, t) same),
        p,
      )

-- The message of a chunk, behind its code.
abbrev pub chunk_body : ℕ → ℕ → ℕ → List ℕ → List ℕ
chunk_body id sequence mark bytes =
    write_int id 1 ++ (write_int sequence 4 ++ (write_int mark 1 ++ (write_string bytes ++ [])))

-- send writes one message for a chunk, and assemble, on any stream that gives this message behind
-- its code, takes the transfer's next step with the chunk's fields and leaves what follows. The
-- fields fit their integers, and the payload leaves room for the message's header in 2 ^ 32 bytes.
pub assemble-send :
    (id sequence mark : ℕ) (bytes : List ℕ)
    → id < 2 ^ 8
    → sequence < 2 ^ 32
    → mark < 2 ^ 8
    → length bytes < 2 ^ 32 - 14
    → (to_number : List ℕ → Option ℕ) (stream : Stream) (max : ℕ) (a : Assembly) (end : List ℕ)
      (s : stream.State)
    → stream.pending s ≡ chunk_body id sequence mark bytes ++ end
    → (send (make_chunk id sequence mark bytes)
        ≡ some ((b'D' ∷ b'C' ∷ b'L' ∷ b'P' ∷ chunk_body id sequence mark bytes) ∷ []))
      × ((t : stream.State) × (assemble to_number stream max a s
            ≡ ok (receive to_number max id mark bytes a, some (id, (sequence, t))))
          × (stream.pending t ≡ end))
assemble-send id sequence mark bytes is ss ms bs to_number stream max a end s e = (
  send_lem id sequence mark bytes is ss ms bs ∙ unfold message body_fits in refl,
  assemble_lem id sequence mark bytes is ss ms bs to_number stream max a end s
      (e ∙ unfold message body_fits in refl),
)
