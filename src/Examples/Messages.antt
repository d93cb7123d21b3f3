-- ===== src/Examples/Messages.antt =====
-- Runs of src/lib/deskflow/ProtocolUtil.cpp.
use zero_flow.Prelude.{ℕ, ◌≡◌, refl, List, [], ◌∷◌, ◌++◌, take, drop, some, none, arith}
use zero_flow.Protocol.Format.{
  directives, scan, Arg, int_arg, vector_arg, string_arg, kind_of, is_width,
}
use zero_flow.Protocol.Write.{write_int, write_ints, write_vector, write_string, writef}
use zero_flow.Protocol.Stream.{in_memory, ok, read, read_loop}
use zero_flow.Protocol.Read.{readf, vreadf, read_literal, read_conversion}
use zero_flow.Protocol.Fits.{Fits, empty_fits, literal_fits, int_fits, vector_fits, string_fits}
use zero_flow.Protocol.Length.{message}
use zero_flow.Protocol.Percent.{percent_format, readf-percent}
use zero_flow.Protocol.RoundTrip.{readf-writef}
use zero_flow.Protocol.Packets.{Held, over_packets, readf-filter_event}
use zero_flow.StreamBuffer.View.{concat}
use zero_flow.PacketStream.{initial, input_ready, write, filter_event}
use zero_flow.PacketStream.EndToEnd.{sent, sent_packets}

-- "DS%2i%4I%s"
abbrev some_format : List ℕ
some_format = b'D' ∷ b'S' ∷ b'%' ∷ b'2' ∷ b'i' ∷ b'%' ∷ b'4' ∷ b'I' ∷ b'%' ∷ b's' ∷ []

abbrev some_args : List Arg
some_args = int_arg 517 ∷ vector_arg (1 ∷ 70000 ∷ []) ∷ string_arg (b'h' ∷ b'i' ∷ []) ∷ []

abbrev some_args-Fits : Fits (directives some_format) some_args
unfolding directives scan kind_of is_width
some_args-Fits = literal_fits b'D' (
    literal_fits b'S' (
      int_fits 2 b'i' 517 refl refl (omega arith) (
        vector_fits 4 b'I' (1 ∷ 70000 ∷ []) refl refl (omega arith) (omega arith, (omega arith, tt))
          (string_fits 0 b's' (b'h' ∷ b'i' ∷ []) refl refl (omega arith) empty_fits))))

some_message :
    message some_args-Fits
    ≡ b'D' ∷ b'S' ∷ 2 ∷ 5 ∷ 0 ∷ 0 ∷ 0 ∷ 2 ∷ 0 ∷ 0 ∷ 0 ∷ 1 ∷ 0 ∷ 1 ∷ 17 ∷ 112 ∷ 0 ∷ 0 ∷ 0 ∷ 2 ∷ b'h'
      ∷ b'i' ∷ []
unfolding message some_args-Fits write_int write_ints write_vector write_string
some_message = refl

-- A format with a sign of its own is written with it, and not read back: readf takes no byte for %%.
percent-readf : readf in_memory (b'%' ∷ b'%' ∷ b'x' ∷ []) (b'%' ∷ b'x' ∷ []) ≡ ok none
unfolding readf directives scan vreadf kind_of read_conversion read_literal read read_loop
percent-readf = refl

readf-writef_example :
    (writef some_format some_args ≡ some (message some_args-Fits ∷ []))
    × ((t : List ℕ) × (readf in_memory some_format (message some_args-Fits ++ (9 ∷ []))
          ≡ ok (some (some_args, t)))
        × (t ≡ 9 ∷ []))
unfolding message some_args-Fits write_int write_ints write_vector write_string
readf-writef_example =
    readf-writef in_memory some_format some_args (9 ∷ []) (message some_args-Fits ++ (9 ∷ []))
      some_args-Fits (omega arith) (omega arith) refl

-- A message and another packet as they travel, in three pieces, the first within a length.
abbrev travelling : List ℕ
unfolding message some_args-Fits write_int write_ints write_vector write_string sent_packets sent
    write
travelling = sent_packets (message some_args-Fits ∷ (7 ∷ 8 ∷ []) ∷ [])

abbrev pieces : List (List ℕ)
unfolding travelling
pieces = take 3 travelling ∷ take 10 (drop 3 travelling) ∷ drop 13 travelling ∷ []

readf-filter_event_example :
    (writef some_format some_args ≡ some (message some_args-Fits ∷ []))
    × ((h : Held) × (h.filter ≡ (filter_event input_ready initial pieces).filter)
        × (h.packets ≡ message some_args-Fits ∷ (7 ∷ 8 ∷ []) ∷ [])
        × ((t : Held) × (readf over_packets some_format h ≡ ok (some (some_args, t)))
            × (concat t.packets ≡ 7 ∷ 8 ∷ [])))
unfolding message some_args-Fits write_int write_ints write_vector write_string sent_packets sent
    write travelling pieces
readf-filter_event_example =
    readf-filter_event some_format some_args some_args-Fits ((7 ∷ 8 ∷ []) ∷ []) pieces
      ((omega arith, omega arith), ((omega arith, omega arith), tt)) refl (omega arith)

readf-percent_example :
    (writef (percent_format b'x') [] ≡ some ((b'%' ∷ b'x' ∷ []) ∷ []))
    × (readf in_memory (percent_format b'x') (b'%' ∷ b'x' ∷ []) ≡ ok none)
readf-percent_example = readf-percent in_memory b'x' [] (b'%' ∷ b'x' ∷ []) (omega arith) refl
