-- ===== src/PacketStream/Oversize.antt =====
-- A length in the stream that is above the limit.
use zero_flow.Prelude.{
  ℕ, ◌+◌, ◌<◌, ◌^◌, ◌≡◌, refl, ap, ◌∙◌, false, List, [], ◌∷◌, ◌++◌, length, take, drop, be32,
  of_be32-be32, arith, le→leb, lt→leb, lt→ltb, eq→==, ne→==,
}
use zero_flow.StreamBuffer
use zero_flow.StreamBuffer.View.{contents, IsBuffer}
use zero_flow.StreamBuffer.Peek.{peek-contents}
use zero_flow.StreamBuffer.Pop.{pop-contents}
use zero_flow.StreamBuffer.Write.{write-contents}
use zero_flow.PacketStream.{
  Filter, max_message_length, is_ready, take_size, read_packet_size, drain, read_more,
  on_input_ready, filter_event, input_ready, input_format_error, add_event,
}

-- A filter that has taken the size `n` off, and holds `rest` behind it.
record Holds (f : Filter) (n : ℕ) (rest : List ℕ) : Type 0 where
  sized : f.size ≡ n
  buffered : f.buffer.size ≡ length rest

take_size_oversize :
    (f : Filter) (n : ℕ) (rest : List ℕ)
    → IsBuffer f.buffer
    → contents f.buffer ≡ be32 n ++ rest
    → max_message_length < n
    → n < 2 ^ 32
    → ((take_size f).fine ≡ false)
      × ((take_size f).effects ≡ add_event input_format_error ∷ [])
      × Holds (take_size f).filter n rest
unfolding take_size
take_size_oversize f n rest v e big small =
    let l = ap (λ (x : List ℕ). length x) e in
    let shown = peek-contents 4 f.buffer v (omega (arith, l, v.counted)) in
    let popped = pop-contents 4 (StreamBuffer.peek 4 f.buffer).1 shown.2 in
    let bytes : (StreamBuffer.peek 4 f.buffer).0 ≡ be32 n = shown.0 ∙ ap (take 4) e in
    let left = ap (λ (x : List ℕ). length x) (popped.0 ∙ ap (drop 4) (shown.1 ∙ e)) in
    rw (bytes, of_be32-be32 n small, lt→ltb max_message_length n big)
      (refl, refl, record { sized = refl; buffered = popped.1.counted ∙ left })

drain_oversize :
    (f : Filter) (bytes : List ℕ) (reads : List (List ℕ)) (n : ℕ) (rest : List ℕ)
    → f.size ≡ 0
    → IsBuffer (StreamBuffer.write bytes f.buffer)
    → contents (StreamBuffer.write bytes f.buffer) ≡ be32 n ++ rest
    → max_message_length < n
    → n < 2 ^ 32
    → ((drain f (bytes ∷ reads)).left ≡ reads)
      × ((drain f (bytes ∷ reads)).effects ≡ add_event input_format_error ∷ [])
      × Holds (drain f (bytes ∷ reads)).filter n rest
unfolding drain read_packet_size StreamBuffer.get_size
drain_oversize f bytes reads n rest z v e big small =
    let l = ap (λ (x : List ℕ). length x) e in
    let t =
      take_size_oversize (record f { buffer = StreamBuffer.write bytes f.buffer }) n rest v e big
        small in
    rw
      (
        eq→== f.size 0 z,
        le→leb 4 (StreamBuffer.write bytes f.buffer).size (omega (arith, l, v.counted)),
        t.0,
      )
      (refl, t.1, t.2)

not_ready-Holds :
    (f : Filter) (n : ℕ) (rest : List ℕ) → Holds f n rest → length rest < n → is_ready f ≡ false
unfolding is_ready StreamBuffer.get_size
not_ready-Holds f n rest h k =
    rw
      (
        lt→leb f.size f.buffer.size (omega (arith, h.sized, h.buffered)),
        ne→== f.size 0 (omega (arith, h.sized)),
      )
      refl

not_ready-empty : (f : Filter) → f.size ≡ 0 → is_ready f ≡ false
unfolding is_ready
not_ready-empty f z = rw (eq→== f.size 0 z) refl

-- When the input has a length above the limit, filterEvent adds the event for a format error once,
-- leaves the rest of the input where it is, and announces no input. The filter is between two packets
-- and well-formed, what it then holds fits a uint32_t, the length too, and what stands behind the
-- length is shorter than it says.
pub filter_event_oversize :
    (f : Filter) (bytes : List ℕ) (reads : List (List ℕ)) (n : ℕ) (rest : List ℕ)
    → IsBuffer f.buffer
    → f.size ≡ 0
    → f.buffer.size + length bytes < 2 ^ 32
    → contents f.buffer ++ bytes ≡ be32 n ++ rest
    → max_message_length < n
    → n < 2 ^ 32
    → length rest < n
    → let d = filter_event input_ready f (bytes ∷ reads) in
      (d.left ≡ reads) × (d.effects ≡ add_event input_format_error ∷ [])
unfolding filter_event on_input_ready read_more
filter_event_oversize f bytes reads n rest v z room e big small short =
    let w = write-contents bytes f.buffer v room in
    let d = drain_oversize f bytes reads n rest z w.1 (w.0 ∙ e) big small in
    rw (not_ready-empty f z, not_ready-Holds (drain f (bytes ∷ reads)).filter n rest d.2 short)
      (d.0, d.1)
