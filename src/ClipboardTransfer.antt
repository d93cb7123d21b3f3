-- ===== src/ClipboardTransfer.antt =====
-- The two ends of a clipboard transfer: src/lib/deskflow/ClipboardChunk.cpp and StreamChunker.cpp.
-- size_t has 64 bits; uint32_t values are copied with the least significant byte first, as the hosts
-- that the program runs on hold them. QString's number and toULongLong are parameters.
use zero_flow.Prelude.{
  ℕ, zero, suc, ◌+◌, ◌-◌, ◌*◌, ◌/◌, ◌%◌, ◌^◌, Bool, true, false, ◌||◌, List, [], ◌∷◌, ◌++◌, ltb,
  leb, ◌==◌, if◌then◌else◌, length, get_or, take, drop, Option, some, none,
}
use zero_flow.Protocol.Format.{Arg, int_arg, string_arg}
use zero_flow.Protocol.Stream.{Stream, Outcome, ok, end_of_stream, mismatch, bad_client, undefined}
use zero_flow.Protocol.Read.{readf}
use zero_flow.Protocol.Write.{writef}
pub mod Wire
pub mod Bounded
pub mod Complete
pub mod EndToEnd

pub data TransferState : Type 0 where
  started in_progress finished error : TransferState

-- dataCached and ClipboardChunkAssemblyState
pub record Assembly : Type 0 where
  pub cached : List ℕ
  pub expected_size : ℕ
  pub active : Bool
  pub discarding : Bool

-- `reset` of ClipboardChunk::assemble
abbrev pub reset : Assembly
reset = record { cached = []; expected_size = 0; active = false; discarding = false }

abbrev pub data_start : ℕ
data_start = 1

abbrev pub data_chunk : ℕ
data_chunk = 2

abbrev pub data_end : ℕ
data_end = 3

abbrev pub clipboard_end : ℕ
clipboard_end = 2

-- kMsgDClipboard behind its code
abbrev pub body_format : List ℕ
body_format = b'%' ∷ b'1' ∷ b'i' ∷ b'%' ∷ b'4' ∷ b'i' ∷ b'%' ∷ b'1' ∷ b'i' ∷ b'%' ∷ b's' ∷ []

-- kMsgDClipboard
abbrev pub clipboard_format : List ℕ
clipboard_format = b'D' ∷ b'C' ∷ b'L' ∷ b'P' ∷ body_format

unfoldable pub would_exceed : ℕ → ℕ → ℕ → Bool
would_exceed current extra limit = if ltb limit current then true else ltb (limit - current) extra

-- The branch of assemble for the first chunk.
unfoldable pub receive_start : ℕ → Option ℕ → Assembly × TransferState
receive_start max none = (reset, error)
receive_start max (some expected) =
    let a : Assembly = record {
      cached = [];
      expected_size = expected;
      active = true;
      discarding = ltb max expected;
    } in
    if ltb max expected then (a, in_progress) else (a, started)

-- The branch for a chunk of data.
unfoldable pub receive_data : List ℕ → Assembly → Assembly × TransferState
receive_data bytes a =
    if a.active
    then if a.discarding
      then (a, in_progress)
      else if would_exceed (length a.cached) (length bytes) a.expected_size
      then (reset, error)
      else (record a { cached = a.cached ++ bytes }, in_progress)
    else (reset, error)

-- The branch for the last chunk.
unfoldable pub receive_end : Assembly → Assembly × TransferState
receive_end a =
    if a.active
    then if a.discarding
      then (reset, in_progress)
      else if a.expected_size == length a.cached
      then (record a { active = false }, finished)
      else (reset, error)
    else (reset, error)

module _ (to_number : List ℕ → Option ℕ) where
  -- ClipboardChunk::assemble behind readf: the limit, then what readf gave.
  unfoldable pub receive : ℕ → ℕ → ℕ → List ℕ → Assembly → Assembly × TransferState
  receive max id mark bytes a =
      if leb clipboard_end id
      then (reset, error)
      else if mark == data_start
      then receive_start max (to_number bytes)
      else if mark == data_chunk
      then receive_data bytes a
      else if mark == data_end
      then receive_end a
      else (reset, error)

  module _ (stream : Stream) where
    open stream use {State}

    -- ClipboardChunk::assemble. With the result comes what it stores in `id` and `sequence`, and the
    -- stream, if readf has read the chunk.
    unfoldable pub assemble :
        ℕ → Assembly → State → Outcome ((Assembly × TransferState) × Option (ℕ × (ℕ × State)))
    assemble max a s = elim (readf stream body_format s) [
      | ok (some (int_arg id ∷ int_arg sequence ∷ int_arg mark ∷ string_arg bytes ∷ [], s')) ↦
          ok (receive max id mark bytes a, some (id, (sequence, s')))
      | ok none ↦ ok ((reset, error), none)
      | ok (some other) ↦ undefined
      | end_of_stream ↦ end_of_stream
      | mismatch ↦ mismatch
      | bad_client ↦ bad_client
      | undefined ↦ undefined
    ]

abbrev pub meta_size : ℕ
meta_size = 7

-- ClipboardChunk::start, data and end, which differ in their mark and payload: the bytes of m_chunk.
unfoldable pub make_chunk : ℕ → ℕ → ℕ → List ℕ → List ℕ
make_chunk id sequence mark bytes =
    id % 256
    ∷ sequence % 256
    ∷ sequence / 2 ^ 8 % 256
    ∷ sequence / 2 ^ 16 % 256
    ∷ sequence / 2 ^ 24 % 256
    ∷ mark
    ∷ (bytes ++ (0 ∷ []))

-- What ClipboardChunk::send takes out of a chunk.
unfoldable pub chunk_id : List ℕ → ℕ
chunk_id c = get_or c 0 0

unfoldable pub chunk_sequence : List ℕ → ℕ
chunk_sequence c =
    get_or c 1 0 + get_or c 2 0 * 2 ^ 8 + get_or c 3 0 * 2 ^ 16 + get_or c 4 0 * 2 ^ 24

unfoldable pub chunk_mark : List ℕ → ℕ
chunk_mark c = get_or c 5 0

unfoldable pub chunk_data : List ℕ → List ℕ
chunk_data c = take (length c - meta_size) (drop 6 c)

-- ClipboardChunk::send: the writes that the stream gets.
unfoldable pub send : List ℕ → Option (List (List ℕ))
send c = writef clipboard_format (
    int_arg (chunk_id c)
    ∷ int_arg (chunk_sequence c)
    ∷ int_arg (chunk_mark c)
    ∷ string_arg (chunk_data c)
    ∷ [])

abbrev pub chunk_size : ℕ
chunk_size = 512 * 1024

-- How much the next chunk takes, by what chunkSize holds so far.
unfoldable pub next_size : ℕ → ℕ → ℕ → ℕ
next_size size sent room =
    if ltb size ((sent + room) % 2 ^ 64) then (size + 2 ^ 64 - sent) % 2 ^ 64 else room

-- The rest of a round of StreamChunker::sendClipboard, and the rounds behind it. Reading past the
-- end of the data is undefined.
unfoldable pub send_round :
    List ℕ → ℕ → ℕ → ℕ → ℕ → ℕ → (ℕ → Option (List (List ℕ))) → Option (List (List ℕ))
send_round bytes size id sequence sent count next =
    let chunk = make_chunk id sequence data_chunk (take count (drop sent bytes)) in
    let sent' = (sent + count) % 2 ^ 64 in
    if ltb (length bytes) (sent + count)
    then none
    else if sent' == size
    then some (chunk ∷ [])
    else (elim (next sent') [ none ↦ none | some cs ↦ some (chunk ∷ cs) ])

-- The loop of StreamChunker::sendClipboard, behind `sent` bytes, with what chunkSize holds. Each
-- round sends a byte or is the last.
unfoldable pub send_loop : ℕ → List ℕ → ℕ → ℕ → ℕ → ℕ → ℕ → Option (List (List ℕ))
send_loop zero bytes size id sequence sent room = none
send_loop (suc fuel) bytes size id sequence sent room =
    let count = next_size size sent room in
    send_round bytes size id sequence sent count
      (λ sent'. send_loop fuel bytes size id sequence sent' count)

-- StreamChunker::sendClipboard: the chunks in the events that it adds, in order.
unfoldable pub send_clipboard : (ℕ → List ℕ) → List ℕ → ℕ → ℕ → ℕ → Option (List (List ℕ))
send_clipboard number bytes size id sequence =
    elim (send_loop (suc size) bytes size id sequence 0 chunk_size) [
      | none ↦ none
      | some cs ↦ some (
          make_chunk id sequence data_start (number size)
          ∷ (cs ++ (make_chunk id sequence data_end [] ∷ [])))
    ]
