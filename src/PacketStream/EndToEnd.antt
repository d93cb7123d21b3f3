-- ===== src/PacketStream/EndToEnd.antt =====
-- Packets written at one end and read at the other.
use zero_flow.Prelude.{
  ℕ, zero, suc, ◌≤◌, ◌<◌, ◌^◌, ◌≡◌, ◌≢◌, ◌↔◌, inl, inr, refl, ap, sym, ◌∙◌, true, false, List, [],
  ◌∷◌, ◌++◌, ◌==◌, if◌then◌else◌, length, length-append, arith, append-nil, Bool-cases, ==→eq,
  ==→ne, eq→==,
}
use zero_flow.StreamBuffer
use zero_flow.StreamBuffer.View.{contents, concat, empty-IsBuffer}
use zero_flow.PacketStream.{
  Filter, Effect, write_stream, add_event, dispatch_event, close_stream, shutdown_stream_input,
  initial, input_ready, is_ready, read, write, filter_event,
}
use zero_flow.PacketStream.Frames.{frames, stream_of_zero, Carries, ArePackets}
use zero_flow.PacketStream.Receive.{filter_event-Carries}
use zero_flow.PacketStream.Deliver.{first_packet, ready_parts, arrived, read_whole}

not_ready : (f : Filter) → f.size ≡ 0 → is_ready f ≡ false
unfolding is_ready
not_ready f h = rw (eq→== f.size 0 h)

is_ready_at : (f : Filter) → f.size ≢ 0 → f.size ≤ f.buffer.size → is_ready f ≡ true
unfolding is_ready StreamBuffer.get_size
is_ready_at f h k = ground arith

module _ (f : Filter) (p : List ℕ) (ps : List (List ℕ)) (more : List ℕ)
    (c : Carries f (p ∷ ps) more) where
  whole_packet : length more ≤ length (frames ps) → is_ready f ≡ true
  whole_packet h = elim (Bool-cases (f.size == 0)) [
    | inl e ↦ absurd (elim c.settled [
      | inl n ↦ n (==→eq f.size 0 e)
      | inr few ↦ omega (
        arith,
        ap (λ (l : List ℕ). length l)
            (ap (λ x. x ++ more) (sym (stream_of_zero f (==→eq f.size 0 e))) ∙ c.stream),
        length-append (contents f.buffer) more,
        length-append p (frames ps),
      )
    ])
    | inr e ↦
        let q = first_packet f p ps more (==→ne f.size 0 e) c in
        is_ready_at f (==→ne f.size 0 e) (
          omega (
            arith,
            q.0,
            c.buffered.counted,
            ap (λ (l : List ℕ). length l) q.1,
            length-append (contents f.buffer) more,
            length-append p (frames ps),
          ))
  ]

  -- A filter that carries packets, of which `more` is still to come, is ready exactly when all bytes
  -- of the first packet have arrived.
  pub is_ready_iff : (is_ready f ≡ true) ↔ (length more ≤ length (frames ps))
  is_ready_iff = (
    (λ r. omega (
      arith,
      arrived f p ps more true r c,
      ap (λ (l : List ℕ). length l) (first_packet f p ps more (taken r) c).1,
      length-append (contents f.buffer) more,
      length-append p (frames ps),
    )),
    whole_packet,
  )
    where
      taken : is_ready f ≡ true → f.size ≢ 0
      taken r e = cc (not_ready f e)

-- Read up to `n` packets, each whole, while the filter is ready.
pub read_packets : ℕ → Filter → List (List ℕ)
read_packets zero f = []
read_packets (suc n) f =
    let r = read true f.size f in
    let rest = read_packets n r.filter in if is_ready f then r.bytes ∷ rest else []

read_packets_lem :
    (f : Filter) (ps : List (List ℕ)) → Carries f ps [] → read_packets (length ps) f ≡ ps
unfolding read_packets
read_packets_lem f [] c = refl
read_packets_lem f (p ∷ ps) c =
    let ready = (is_ready_iff f p ps [] c).1 (omega arith) in
    let size = (first_packet f p ps [] (ready_parts f ready).0 c).0 in
    let w = read_whole f p ps [] true f.size ready c (omega (arith, size)) in
    rw ready (
      ap (λ x. x ∷ read_packets (length ps) (read true f.size f).filter) w.0
      ∙ ap (◌∷◌ p) (read_packets_lem (read true f.size f).filter ps w.1))

-- The bytes that effects put on the stream.
unfoldable pub sent : List Effect → List ℕ
sent [] = []
sent (write_stream bytes ∷ es) = bytes ++ sent es
sent (add_event e ∷ es) = sent es
sent (dispatch_event e ∷ es) = sent es
sent (close_stream ∷ es) = sent es
sent (shutdown_stream_input ∷ es) = sent es

unfoldable pub sent_packets : List (List ℕ) → List ℕ
sent_packets [] = []
sent_packets (p ∷ ps) = sent (write p) ++ sent_packets ps

sent_packets-frames : (ps : List (List ℕ)) → sent_packets ps ≡ frames ps
unfolding sent_packets sent write
sent_packets-frames [] = refl
sent_packets-frames (p ∷ ps) = rw (sent_packets-frames ps, append-nil p)

-- A filter that gets the bytes of packets, in pieces cut in any way, carries these packets.
pub filter_event-sent_packets :
    (ps : List (List ℕ)) (reads : List (List ℕ))
    → ArePackets ps
    → concat reads ≡ sent_packets ps
    → length (sent_packets ps) < 2 ^ 32
    → Carries (filter_event input_ready initial reads).filter ps []
filter_event-sent_packets ps reads ok pieces fits =
    let whole = sent_packets-frames ps in
    (filter_event-Carries ps (omega (arith, ap (λ (l : List ℕ). length l) whole)) initial reads []
      (record {
        buffered = empty-IsBuffer;
        stream = unfold contents in append-nil (concat reads) ∙ pieces ∙ whole;
        packets = ok;
        limit = omega arith;
        settled = inr (unfold contents in omega arith);
      })).0

-- Packets that were written one after the other, each not empty and within the length limit, and
-- whose bytes arrive in pieces cut in any way, are read back one after the other, each as it was
-- written, if all of them take less than 2 ^ 32 bytes.
pub read_packets-write :
    (ps : List (List ℕ)) (reads : List (List ℕ))
    → ArePackets ps
    → concat reads ≡ sent_packets ps
    → length (sent_packets ps) < 2 ^ 32
    → read_packets (length ps) (filter_event input_ready initial reads).filter ≡ ps
read_packets-write ps reads ok pieces fits =
    read_packets_lem (filter_event input_ready initial reads).filter ps
      (filter_event-sent_packets ps reads ok pieces fits)
