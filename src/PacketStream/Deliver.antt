-- ===== src/PacketStream/Deliver.antt =====
-- read of a packet, whole or piece by piece.
use zero_flow.Prelude.{
  ℕ, ◌-◌, ◌≤◌, ◌<◌, ◌^◌, ◌≡◌, ◌≢◌, refl, ap, sym, ◌∙◌, true, false, Bool, ◌&&◌, List, [], ◌∷◌, ◌++◌,
  ◌==◌, ltb, if◌then◌else◌, get_or, length, length-drop, take, drop, take-append, drop-append,
  take_all, drop_all, arith, append_assoc, be32, of_be32, of_be32-be32, ne→==,
}
use zero_flow.StreamBuffer
use zero_flow.StreamBuffer.View.{contents, IsBuffer}
use zero_flow.StreamBuffer.Peek.{peek-contents}
use zero_flow.StreamBuffer.Pop.{pop-contents}
use zero_flow.PacketStream.{
  Filter, is_ready, read_packet_size, read_ready, read, add_event, input_shutdown,
}
use zero_flow.PacketStream.Frames.{frames, stream_of_zero, stream_of_size, Carries}
use zero_flow.PacketStream.Sizes.{Settles, read_packet_size-Settles}

abbrev first32 : List ℕ → ℕ
first32 l = of_be32 (get_or l 0 0) (get_or l 1 0) (get_or l 2 0) (get_or l 3 0)

be32_inj :
    (m n : ℕ) (xs ys : List ℕ)
    → m < 2 ^ 32
    → n < 2 ^ 32
    → be32 m ++ xs ≡ be32 n ++ ys
    → (m ≡ n) × (xs ≡ ys)
be32_inj m n xs ys hm hn e =
    (sym (of_be32-be32 m hm) ∙ ap first32 e ∙ of_be32-be32 n hn, ap (drop 4) e)

-- The filter's first packet is the one whose size it has taken.
pub first_packet :
    (f : Filter) (p : List ℕ) (ps : List (List ℕ)) (more : List ℕ)
    → f.size ≢ 0
    → Carries f (p ∷ ps) more
    → (f.size ≡ length p) × (contents f.buffer ++ more ≡ p ++ frames ps)
first_packet f p ps more h c =
    be32_inj f.size (length p) (contents f.buffer ++ more) (p ++ frames ps) (omega (arith, c.limit))
      (omega (arith, c.packets.0.1)) (ap (λ x. x ++ more) (sym (stream_of_size f h)) ∙ c.stream)

-- A filter is ready when it has a packet's size and all of the packet.
pub ready_parts : (f : Filter) → is_ready f ≡ true → (f.size ≢ 0) × (f.size ≤ f.buffer.size)
unfolding is_ready StreamBuffer.get_size
ready_parts f h = ground arith

-- What read copies, and the buffer behind it.
copied :
    (wanted : Bool) (n : ℕ) (b : StreamBuffer.StreamBuffer)
    → IsBuffer b
    → n ≤ b.size
    → let (bytes, peeked) = if wanted then StreamBuffer.peek n b else ([], b) in
      (bytes ≡ (if wanted then take n (contents b) else []))
      × (contents peeked ≡ contents b)
      × IsBuffer peeked
copied true n b v h = peek-contents n b v h
copied false n b v h = (refl, refl, v)

-- One read of `n` bytes at most as many as the packet has left.
module _ (f : Filter) (p : List ℕ) (ps : List (List ℕ)) (more : List ℕ) (wanted : Bool)
    (ready : is_ready f ≡ true) (c : Carries f (p ∷ ps) more) where
  pub arrived : length p ≤ length (contents f.buffer)
  arrived =
      let r = ready_parts f ready in
      omega (arith, r.1, c.buffered.counted, (first_packet f p ps more r.0 c).0)

  -- the packet is at the head of the contents
  head_bytes :
      (n : ℕ)
      → n ≤ length p
      → (take n (contents f.buffer) ≡ take n p)
        × (drop n (contents f.buffer) ++ more ≡ drop n p ++ frames ps)
  head_bytes n h =
      let bs = contents f.buffer in
      let e = (first_packet f p ps more (ready_parts f ready).0 c).1 in
      (
        sym (take-append n bs more (omega (arith, arrived)))
            ∙ ap (take n) e
            ∙ take-append n p (frames ps) h,
        sym (drop-append n bs more (omega (arith, arrived)))
            ∙ ap (drop n) e
            ∙ drop-append n p (frames ps) h,
      )

  abbrev after : ℕ → Filter
  after n = record f {
    buffer = StreamBuffer.pop n (if wanted then StreamBuffer.peek n f.buffer else ([], f.buffer)).1;
    size = f.size - n;
  }

  after_lem :
      (n : ℕ)
      → n ≤ length p
      → IsBuffer (after n).buffer × (contents (after n).buffer ++ more ≡ drop n p ++ frames ps)
  after_lem n h =
      let (_, same, v) =
        copied wanted n f.buffer c.buffered (omega (arith, arrived, c.buffered.counted)) in
      let q =
        pop-contents n (if wanted then StreamBuffer.peek n f.buffer else ([], f.buffer)).1 v in
      (q.1, ap (λ x. x ++ more) (q.0 ∙ ap (drop n) same) ∙ (head_bytes n h).1)

  shown :
      (n : ℕ)
      → n ≤ length p
      → (if wanted then StreamBuffer.peek n f.buffer else ([], f.buffer)).0
        ≡ (if wanted then take n p else [])
  shown n h =
      (copied wanted n f.buffer c.buffered (omega (arith, arrived, c.buffered.counted))).0
      ∙ ap (λ x. if wanted then x else []) (head_bytes n h).0

  -- all of the packet was read
  whole : Settles (after (length p)) (read_packet_size (after (length p))) ps more
  whole =
      let (v, left) = after_lem (length p) (omega arith) in
      let size = (first_packet f p ps more (ready_parts f ready).0 c).0 in
      read_packet_size-Settles (after (length p)) ps more v
        (ap (λ x. x ++ more) (stream_of_zero (after (length p)) (omega (arith, size)))
          ∙ left
          ∙ ap (λ x. x ++ frames ps) (drop_all (length p) p (omega arith)))
        c.packets.1 (omega (arith, c.limit))

  -- some of it is left
  part :
      (n : ℕ) → n < length p → Settles (after n) (read_packet_size (after n)) (drop n p ∷ ps) more
  part n h =
      let (v, left) = after_lem n (omega arith) in
      let size = (first_packet f p ps more (ready_parts f ready).0 c).0 in
      let rest = length-drop n p in
      let same : f.size - n ≡ length (drop n p) = omega (arith, size, rest) in
      read_packet_size-Settles (after n) (drop n p ∷ ps) more v
        (ap (λ x. x ++ more) (stream_of_size (after n) (omega (arith, size)))
          ∙ append_assoc (be32 (f.size - n)) (contents (after n).buffer) more
          ∙ ap (λ x. be32 (f.size - n) ++ x) left
          ∙ ap (λ k. be32 k ++ (drop n p ++ frames ps)) same)
        ((omega (arith, rest), omega (arith, rest, c.packets.0.1)), c.packets.1)
        (omega (arith, c.limit))

  amount :
      (asked : ℕ)
      → (if ltb f.size asked then f.size else asked)
        ≡ (if ltb (length p) asked then length p else asked)
  amount asked = rw (first_packet f p ps more (ready_parts f ready).0 c).0

-- A read of as many bytes as the first packet has, or more, from a ready filter that carries
-- packets, returns this packet and nothing behind it, or only drops it if there is no buffer; the
-- filter then carries the other packets. Input shutdown, if it has come, is announced exactly if
-- the read leaves no size taken.
pub read_whole :
    (f : Filter) (p : List ℕ) (ps : List (List ℕ)) (more : List ℕ) (wanted : Bool) (asked : ℕ)
    → is_ready f ≡ true
    → Carries f (p ∷ ps) more
    → length p ≤ asked
    → let r = read wanted asked f in
      (r.bytes ≡ (if wanted then p else []))
      × Carries r.filter ps more
      × (r.filter.is_input_shutdown ≡ f.is_input_shutdown)
      × (r.effects ≡ (
          if f.is_input_shutdown && r.filter.size == 0 then add_event input_shutdown ∷ [] else []))
unfolding read read_ready
read_whole f p ps more wanted asked ready c h =
    let s = whole f p ps more wanted ready c in
    rw
      (
        ne→== asked 0 (omega (arith, c.packets.0.0)),
        ready,
        amount f p ps more wanted ready c asked ∙ full,
      )
      (
        shown f p ps more wanted ready c (length p) (omega arith)
            ∙ ap (λ x. if wanted then x else []) (take_all (length p) p (omega arith)),
        s.carries,
        s.shutdown,
        rw (s.silent, s.shutdown),
      )
  where
    full : (if ltb (length p) asked then length p else asked) ≡ length p
    full = ground arith

-- A read of some bytes, but fewer than the first packet has, from a ready filter that carries
-- packets, returns the first of them, or only drops them if there is no buffer, and the filter
-- carries the rest of the packet as its next one.
pub read_part :
    (f : Filter) (p : List ℕ) (ps : List (List ℕ)) (more : List ℕ) (wanted : Bool) (asked : ℕ)
    → is_ready f ≡ true
    → Carries f (p ∷ ps) more
    → 0 < asked
    → asked < length p
    → let r = read wanted asked f in
      (r.bytes ≡ (if wanted then take asked p else [])) × Carries r.filter (drop asked p ∷ ps) more
unfolding read read_ready
read_part f p ps more wanted asked ready c pos h =
    let s = part f p ps more wanted ready c asked h in
    rw (ne→== asked 0 (omega arith), ready, amount f p ps more wanted ready c asked ∙ some_of)
      (shown f p ps more wanted ready c asked (omega arith), s.carries)
  where
    some_of : (if ltb (length p) asked then length p else asked) ≡ asked
    some_of = ground arith
