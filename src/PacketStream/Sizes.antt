-- ===== src/PacketStream/Sizes.antt =====
-- readPacketSize on a stream of packets.
use zero_flow.Prelude.{
  ℕ, ◌≤◌, ◌<◌, ◌≡◌, ◌≢◌, ◌⊎◌, inl, inr, refl, ap, sym, ◌∙◌, true, false, List, [], ◌∷◌, ◌++◌, ◌==◌,
  leb, if◌then◌else◌, length, be32, of_be32-be32, take, drop, take-append, drop-append,
  length-append, Bool-cases, arith, ==→eq, ==→ne, leb→le, leb→lt, le→ltb, take-append-drop, ◌&&◌,
  subst, Bool,
}
use zero_flow.StreamBuffer
use zero_flow.StreamBuffer.View.{contents, IsBuffer}
use zero_flow.StreamBuffer.Peek.{peek-contents}
use zero_flow.StreamBuffer.Pop.{pop-contents}
use zero_flow.PacketStream.{Filter, SizeRead, max_message_length, take_size, read_packet_size}
use zero_flow.PacketStream.Frames.{
  frames, stream_of, stream_of_zero, stream_of_size, Carries, ArePackets,
}

-- The first four bytes of a stream of packets are the length of the first.
head_size :
    (bs more : List ℕ) (ps : List (List ℕ))
    → 4 ≤ length bs
    → bs ++ more ≡ frames ps
    → ArePackets ps
    → (p : List ℕ) × (qs : List (List ℕ)) × (ps ≡ p ∷ qs)
      × (take 4 bs ≡ be32 (length p))
      × (drop 4 bs ++ more ≡ p ++ frames qs)
head_size bs more [] h e v =
    absurd (omega (arith, ap (λ (l : List ℕ). length l) e, length-append bs more))
head_size bs more (p ∷ qs) h e v = (
  p,
  qs,
  refl,
  sym (take-append 4 bs more h) ∙ ap (take 4) e,
  sym (drop-append 4 bs more h) ∙ ap (drop 4) e,
)

-- The four bytes that take_size looks at, put together.
take_size_lem :
    (f : Filter) (n : ℕ)
    → IsBuffer f.buffer
    → 4 ≤ f.buffer.size
    → take 4 (contents f.buffer) ≡ be32 n
    → n ≤ max_message_length
    → (buffer' : StreamBuffer.StreamBuffer) × (take_size f
        ≡ record { filter = record f { buffer = buffer'; size = n }; fine = true; effects = [] })
      × IsBuffer buffer'
      × (contents buffer' ≡ drop 4 (contents f.buffer))
unfolding take_size
take_size_lem f n v h e k =
    let shown = peek-contents 4 f.buffer v h in
    let popped = pop-contents 4 (StreamBuffer.peek 4 f.buffer).1 shown.2 in
    (
      StreamBuffer.pop 4 (StreamBuffer.peek 4 f.buffer).1,
      rw (shown.0 ∙ e, of_be32-be32 n (omega arith)) (rw (le→ltb max_message_length n k)),
      popped.1,
      popped.0 ∙ ap (drop 4) shown.1,
    )

-- The test of readPacketSize, read both ways.
data HasSize (f : Filter) : Bool → Type 0 where
  at_size : f.size ≡ 0 → 4 ≤ f.buffer.size → HasSize f true
  in_packet : (f.size ≢ 0) ⊎ (f.buffer.size < 4) → HasSize f false

has_size : (f : Filter) → HasSize f ((f.size == 0) && leb 4 (StreamBuffer.get_size f.buffer))
unfolding StreamBuffer.get_size
has_size f = elim (Bool-cases (f.size == 0)) [
  | inl e ↦ elim (Bool-cases (leb 4 f.buffer.size)) [
    | inl k ↦ rw (e, k) (at_size (==→eq f.size 0 e) (leb→le 4 f.buffer.size k))
    | inr k ↦ rw (e, k) (in_packet (inr (leb→lt 4 f.buffer.size k)))
  ]
  | inr e ↦ rw e (in_packet (inl (==→ne f.size 0 e)))
]

-- readPacketSize on a stream of packets raises nothing, and the filter still carries the packets.
pub record Settles (f : Filter) (r : SizeRead) (ps : List (List ℕ)) (more : List ℕ) : Type 0 where
  pub fine : r.fine ≡ true
  pub silent : r.effects ≡ []
  pub shutdown : r.filter.is_input_shutdown ≡ f.is_input_shutdown
  pub carries : Carries r.filter ps more

module _ (f : Filter) (ps : List (List ℕ)) (more : List ℕ) (v : IsBuffer f.buffer)
    (e : stream_of f ++ more ≡ frames ps) (ok : ArePackets ps)
    (limit : f.size ≤ max_message_length) where
  Settles-at : f.size ≡ 0 → 4 ≤ f.buffer.size → Settles f (take_size f) ps more
  Settles-at z h =
      let bs = contents f.buffer in
      let whole = ap (λ x. x ++ more) (sym (stream_of_zero f z)) ∙ e in
      let (p, qs, first, head, rest) = head_size bs more ps (omega (arith, v.counted)) whole ok in
      let packet : (0 < length p) × (length p ≤ max_message_length) =
        (subst ArePackets first ok).0 in
      let (buffer', taken, v', left) = take_size_lem f (length p) v h head packet.1 in
      let f' : Filter = record f { buffer = buffer'; size = length p } in
      let joined : stream_of f' ≡ bs =
        stream_of_size f' (omega (arith, packet.0))
        ∙ ap (λ x. be32 (length p) ++ x) left
        ∙ ap (λ x. x ++ drop 4 bs) (sym head)
        ∙ take-append-drop 4 bs in
      subst (λ r. Settles f r ps more) (sym taken)
        (record {
          fine = refl;
          silent = refl;
          shutdown = refl;
          carries = record {
            buffered = v';
            stream = ap (λ x. x ++ more) joined ∙ whole;
            packets = ok;
            limit = packet.1;
            settled = inl (omega (arith, packet.0));
          };
        })

  Settles-if :
      (b : Bool)
      → HasSize f b
      → Settles f
          (if b then take_size f else record { filter = f; fine = true; effects = [] })
          ps
          more
  Settles-if true (at_size z h) = Settles-at z h
  Settles-if false (in_packet s) = record {
    fine = refl;
    silent = refl;
    shutdown = refl;
    carries = record {
      buffered = v;
      stream = e;
      packets = ok;
      limit = limit;
      settled = elim s [ inl n ↦ inl n | inr n ↦ inr (omega (arith, v.counted)) ];
    };
  }

  -- A filter that carries packets within the length limit still carries them after readPacketSize,
  -- which finds no format error, raises nothing and does not change the input's shutdown.
  pub read_packet_size-Settles : Settles f (read_packet_size f) ps more
  unfolding read_packet_size
  read_packet_size-Settles = Settles-if _ (has_size f)
