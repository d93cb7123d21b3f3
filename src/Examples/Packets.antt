-- ===== src/Examples/Packets.antt =====
-- Runs of src/lib/io/StreamBuffer.cpp and src/lib/deskflow/PacketStreamFilter.cpp.
use zero_flow.Prelude.{
  ℕ, ◌^◌, ◌*◌, ◌≡◌, refl, true, false, not, ◌&&◌, ◌==◌, if◌then◌else◌, List, [], ◌∷◌, ◌++◌, inl,
  take, drop, arith,
}
use zero_flow.StreamBuffer.{StreamBuffer, peek, pop}
use zero_flow.StreamBuffer as StreamBuffer
use zero_flow.StreamBuffer.View.{contents, empty-IsBuffer, IsBuffer}
use zero_flow.StreamBuffer.Peek.{peek-contents}
use zero_flow.StreamBuffer.Pop.{pop-contents}
use zero_flow.StreamBuffer.Write.{write-contents}
use zero_flow.PacketStream.{
  Filter, initial, is_ready, read_packet_size, read, filter_event, input_ready, input_shutdown,
  dispatch_event, add_event, input_format_error,
}
use zero_flow.PacketStream as PacketStream
use zero_flow.PacketStream.Frames.{Carries}
use zero_flow.PacketStream.Receive.{filter_event-Carries}
use zero_flow.PacketStream.Deliver.{read_whole}
use zero_flow.PacketStream.Shutdown.{read-shutdown}
use zero_flow.PacketStream.Oversize.{filter_event_oversize}
use zero_flow.PacketStream.EndToEnd.{read_packets-write, read_packets, sent, sent_packets}

-- Two chunks, of which one byte is gone.
abbrev two_chunks : StreamBuffer
two_chunks = record { chunks = (1 ∷ 2 ∷ []) ∷ (3 ∷ 4 ∷ 5 ∷ []) ∷ []; size = 4; head_used = 1 }

two_chunks-IsBuffer : IsBuffer two_chunks
unfolding contents
two_chunks-IsBuffer = record { counted = refl; shape = (omega arith, (omega arith, tt)) }

peek-contents_example :
    ((peek 2 two_chunks).0 ≡ take 2 (contents two_chunks))
    × (contents (peek 2 two_chunks).1 ≡ contents two_chunks)
    × IsBuffer (peek 2 two_chunks).1
peek-contents_example = peek-contents 2 two_chunks two_chunks-IsBuffer (omega arith)

pop-contents_example :
    (contents (pop 3 two_chunks) ≡ drop 3 (contents two_chunks)) × IsBuffer (pop 3 two_chunks)
pop-contents_example = pop-contents 3 two_chunks two_chunks-IsBuffer

write-contents_example :
    (contents (StreamBuffer.write (6 ∷ []) two_chunks) ≡ contents two_chunks ++ (6 ∷ []))
    × IsBuffer (StreamBuffer.write (6 ∷ []) two_chunks)
write-contents_example = write-contents (6 ∷ []) two_chunks two_chunks-IsBuffer (omega arith)

-- A filter that has taken the size of a packet of three bytes, and holds them and one byte more.
abbrev ready_filter : Filter
ready_filter = record {
  size = 3;
  buffer = record { chunks = (7 ∷ 8 ∷ 9 ∷ 0 ∷ []) ∷ []; size = 4; head_used = 0 };
  is_input_shutdown = false;
}

-- The rest of the packet behind, which has one byte.
abbrev to_come : List ℕ
to_come = 0 ∷ 0 ∷ 1 ∷ 5 ∷ []

ready_filter-Carries : Carries ready_filter ((7 ∷ 8 ∷ 9 ∷ []) ∷ (5 ∷ []) ∷ []) to_come
unfolding contents
ready_filter-Carries = record {
  buffered = record { counted = refl; shape = (omega arith, tt) };
  stream = refl;
  packets = ((omega arith, omega arith), ((omega arith, omega arith), tt));
  limit = omega arith;
  settled = inl (omega arith);
}

filter_event-Carries_example :
    let d = filter_event input_ready ready_filter ((0 ∷ 0 ∷ 1 ∷ []) ∷ []) in
    Carries d.filter ((7 ∷ 8 ∷ 9 ∷ []) ∷ (5 ∷ []) ∷ []) (5 ∷ [])
    × (d.left ≡ [])
    × (d.effects ≡ (
        if (if is_ready ready_filter then not (is_ready d.filter) else is_ready d.filter)
        then dispatch_event input_ready ∷ []
        else []))
    × (d.filter.is_input_shutdown ≡ false)
filter_event-Carries_example =
    filter_event-Carries ((7 ∷ 8 ∷ 9 ∷ []) ∷ (5 ∷ []) ∷ []) (omega arith) ready_filter
      ((0 ∷ 0 ∷ 1 ∷ []) ∷ []) (5 ∷ []) ready_filter-Carries

read_whole_example :
    let r = read true 10 ready_filter in
    (r.bytes ≡ 7 ∷ 8 ∷ 9 ∷ [])
    × Carries r.filter ((5 ∷ []) ∷ []) to_come
    × (r.filter.is_input_shutdown ≡ false)
    × (r.effects ≡ (if false && r.filter.size == 0 then add_event input_shutdown ∷ [] else []))
unfolding is_ready StreamBuffer.get_size
read_whole_example =
    read_whole ready_filter (7 ∷ 8 ∷ 9 ∷ []) ((5 ∷ []) ∷ []) to_come true 10 refl
      ready_filter-Carries (omega arith)

read_packets-write_example :
    read_packets 2
      (filter_event input_ready initial
        ((0 ∷ 0 ∷ 0 ∷ 2 ∷ 7 ∷ []) ∷ (8 ∷ 0 ∷ 0 ∷ 0 ∷ 1 ∷ 9 ∷ []) ∷ [])).filter
    ≡ (7 ∷ 8 ∷ []) ∷ (9 ∷ []) ∷ []
unfolding sent_packets sent PacketStream.write
read_packets-write_example =
    read_packets-write ((7 ∷ 8 ∷ []) ∷ (9 ∷ []) ∷ [])
      ((0 ∷ 0 ∷ 0 ∷ 2 ∷ 7 ∷ []) ∷ (8 ∷ 0 ∷ 0 ∷ 0 ∷ 1 ∷ 9 ∷ []) ∷ [])
      ((omega arith, omega arith), ((omega arith, omega arith), tt)) refl (omega arith)

-- All of the last packet has arrived.
abbrev last_packet : Filter
last_packet = record {
  size = 2;
  buffer = record { chunks = (7 ∷ 8 ∷ []) ∷ []; size = 2; head_used = 0 };
  is_input_shutdown = false;
}

last_packet-Carries : Carries last_packet ((7 ∷ 8 ∷ []) ∷ []) []
unfolding contents
last_packet-Carries = record {
  buffered = record { counted = refl; shape = (omega arith, tt) };
  stream = refl;
  packets = ((omega arith, omega arith), tt);
  limit = omega arith;
  settled = inl (omega arith);
}

read-shutdown_example :
    let d = filter_event input_shutdown last_packet [] in
    let r = read true 9 d.filter in
    (d.effects ≡ []) × (r.bytes ≡ 7 ∷ 8 ∷ []) × (r.effects ≡ add_event input_shutdown ∷ [])
read-shutdown_example =
    read-shutdown last_packet (7 ∷ 8 ∷ []) [] true 9 last_packet-Carries (omega arith)

filter_event_oversize_example :
    let d = filter_event input_ready initial ((255 ∷ 0 ∷ 0 ∷ 0 ∷ 1 ∷ []) ∷ (2 ∷ []) ∷ []) in
    (d.left ≡ (2 ∷ []) ∷ []) × (d.effects ≡ add_event input_format_error ∷ [])
unfolding contents
filter_event_oversize_example =
    filter_event_oversize initial (255 ∷ 0 ∷ 0 ∷ 0 ∷ 1 ∷ []) ((2 ∷ []) ∷ []) (255 * 2 ^ 24) (1 ∷ [])
      empty-IsBuffer refl (omega arith) refl (omega arith) (omega arith) (omega arith)
