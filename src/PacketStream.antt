-- ===== src/PacketStream.antt =====
-- src/lib/deskflow/PacketStreamFilter.cpp, with the calls of src/lib/io/StreamFilter.cpp that it
-- passes on. The stream below is what its successive reads return; what the filter does to the
-- stream and to the event queue comes back as a list of effects, in order. The mutex makes each
-- method one step.
pub mod Frames
pub mod Sizes
pub mod Receive
pub mod Deliver
pub mod EndToEnd
pub mod Shutdown
pub mod Oversize
use zero_flow.Prelude.{
  ℕ, zero, suc, ◌+◌, ◌-◌, ◌*◌, Bool, true, false, not, ◌&&◌, List, [], ◌∷◌, ◌++◌, leb, ltb, ◌==◌,
  if◌then◌else◌, length, be32, of_be32, get_or,
}
use zero_flow.StreamBuffer
use zero_flow.StreamBuffer.{StreamBuffer}

pub data Event : Type 0 where
  input_ready input_shutdown input_format_error : Event
  other_event : ℕ → Event

pub data Effect : Type 0 where
  add_event dispatch_event : Event → Effect
  write_stream : List ℕ → Effect
  close_stream shutdown_stream_input : Effect

pub record Filter : Type 0 where
  pub size : ℕ
  pub buffer : StreamBuffer
  pub is_input_shutdown : Bool

abbrev pub initial : Filter
initial = record { size = 0; buffer = StreamBuffer.empty; is_input_shutdown = false }

abbrev pub max_message_length : ℕ
max_message_length = 4 * 1024 * 1024

-- PacketStreamFilter::isReadyNoLock, isReady
unfoldable pub is_ready : Filter → Bool
is_ready f = not (f.size == 0) && leb f.size (StreamBuffer.get_size f.buffer)

-- PacketStreamFilter::getSize
unfoldable pub get_size : Filter → ℕ
get_size f = if is_ready f then f.size else 0

-- The state after readPacketSize, its result and its events.
pub record SizeRead : Type 0 where
  pub filter : Filter
  pub fine : Bool
  pub effects : List Effect

unfoldable pub take_size : Filter → SizeRead
take_size f =
    let (bytes, peeked) = StreamBuffer.peek 4 f.buffer in
    let size =
      of_be32 (get_or bytes 0 0) (get_or bytes 1 0) (get_or bytes 2 0) (get_or bytes 3 0) in
    let f' : Filter = record f { buffer = StreamBuffer.pop 4 peeked; size = size } in
    if ltb max_message_length size
    then record { filter = f'; fine = false; effects = add_event input_format_error ∷ [] }
    else record { filter = f'; fine = true; effects = [] }

-- PacketStreamFilter::readPacketSize
unfoldable pub read_packet_size : Filter → SizeRead
read_packet_size f =
    if f.size == 0 && leb 4 (StreamBuffer.get_size f.buffer)
    then take_size f
    else record { filter = f; fine = true; effects = [] }

-- What a read returns, with the state and the effects after it.
pub record Reading : Type 0 where
  pub bytes : List ℕ
  pub filter : Filter
  pub effects : List Effect

-- The part of read behind the guards. With a null pointer for a buffer (`wanted` false) nothing is
-- copied, and the bytes are skipped.
unfoldable pub read_ready : Bool → ℕ → Filter → Reading
read_ready wanted asked f =
    let n = if ltb f.size asked then f.size else asked in
    let (bytes, peeked) = if wanted then StreamBuffer.peek n f.buffer else ([], f.buffer) in
    let next =
      read_packet_size (record f { buffer = StreamBuffer.pop n peeked; size = f.size - n }) in
    let hung_up = next.filter.is_input_shutdown && next.filter.size == 0 in
    record {
      bytes = bytes;
      filter = next.filter;
      effects = next.effects ++ (if hung_up then add_event input_shutdown ∷ [] else []);
    }

-- PacketStreamFilter::read
unfoldable pub read : Bool → ℕ → Filter → Reading
read wanted n f =
    if n == 0
    then record { bytes = []; filter = f; effects = [] }
    else if not (is_ready f)
    then record { bytes = []; filter = f; effects = [] }
    else read_ready wanted n f

-- PacketStreamFilter::write
unfoldable pub write : List ℕ → List Effect
write bytes = write_stream (be32 (length bytes)) ∷ write_stream bytes ∷ []

unfoldable pub drop_input : Filter → Filter
drop_input f = record f {
  size = 0;
  buffer = StreamBuffer.pop (StreamBuffer.get_size f.buffer) f.buffer;
}

-- PacketStreamFilter::close
unfoldable pub close : Filter → Filter × List Effect
close f = (drop_input f, close_stream ∷ [])

-- PacketStreamFilter::shutdownInput
unfoldable pub shutdown_input : Filter → Filter × List Effect
shutdown_input f = (drop_input f, shutdown_stream_input ∷ [])

-- The state after readMore's loop, what the stream still holds, and the events.
pub record Drained : Type 0 where
  pub filter : Filter
  pub left : List (List ℕ)
  pub effects : List Effect

-- The loop of readMore. `reads` is what the reads of at most 4096 bytes return before one returns 0.
unfoldable pub drain : Filter → List (List ℕ) → Drained
drain f [] = record { filter = f; left = []; effects = [] }
drain f (bytes ∷ reads) =
    let r = read_packet_size (record f { buffer = StreamBuffer.write bytes f.buffer }) in
    let more = drain r.filter reads in
    if r.fine
    then record more { effects = r.effects ++ more.effects }
    else record { filter = r.filter; left = reads; effects = r.effects }

-- PacketStreamFilter::readMore: the loop, and whether the filter became ready or ceased to be.
unfoldable pub read_more : Filter → List (List ℕ) → Drained × Bool
read_more f reads =
    let d = drain f reads in (d, if is_ready f then not (is_ready d.filter) else is_ready d.filter)

unfoldable pub on_input_ready : Filter → List (List ℕ) → Drained
on_input_ready f reads =
    let (d, changed) = read_more f reads in
    if changed then record d { effects = d.effects ++ dispatch_event input_ready ∷ [] } else d

unfoldable pub on_input_shutdown : Filter → List (List ℕ) → Drained
on_input_shutdown f reads =
    let down : Filter = record f { is_input_shutdown = true } in
    if f.size == 0
    then record { filter = down; left = reads; effects = dispatch_event input_shutdown ∷ [] }
    else if leb f.size (StreamBuffer.get_size f.buffer)
    then record { filter = down; left = reads; effects = [] }
    else record {
      filter = record down { size = 0 };
      left = reads;
      effects = add_event input_format_error ∷ dispatch_event input_shutdown ∷ [];
    }

-- PacketStreamFilter::filterEvent
unfoldable pub filter_event : Event → Filter → List (List ℕ) → Drained
filter_event input_ready f reads = on_input_ready f reads
filter_event input_shutdown f reads = on_input_shutdown f reads
filter_event e f reads = record { filter = f; left = reads; effects = dispatch_event e ∷ [] }
