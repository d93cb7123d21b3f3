-- ===== src/Protocol/Packets.antt =====
-- PacketStreamFilter as the stream that readf reads: a filter that holds whole packets.
use zero_flow.Prelude.{
  ℕ, ◌^◌, some, ◌≤◌, ◌<◌, ◌≡◌, refl, sym, ap, ◌∙◌, inl, inr, true, false, List, [], ◌∷◌, ◌++◌, ◌==◌,
  ltb, if◌then◌else◌, length, take, drop, take-append-drop, length-take, take_all, append_assoc,
  length-append, Bool-cases, ==→eq, ==→ne, ltb→lt, ltb→le, arith, be32,
}
use zero_flow.StreamBuffer.View.{concat, contents}
use zero_flow.PacketStream.{Filter, initial, input_ready, filter_event, is_ready, read}
use zero_flow.PacketStream.Frames.{Carries, ArePackets, stream_of_size}
use zero_flow.PacketStream.Deliver.{read_whole, read_part}
use zero_flow.PacketStream.EndToEnd.{sent_packets, filter_event-sent_packets, is_ready_iff}
use zero_flow.Protocol.Format.{Arg, directives}
use zero_flow.Protocol.Fits.{Fits}
use zero_flow.Protocol.Length.{message}
use zero_flow.Protocol.Write.{writef}
use zero_flow.Protocol.Read.{readf}
use zero_flow.Protocol.RoundTrip.{readf-writef}
use zero_flow.Protocol.Stream.{Stream, ok}

-- What a read of `n` bytes takes off the packets: at most the first one.
abbrev front : ℕ → List (List ℕ) → List ℕ
front n [] = []
front n (p ∷ ps) = take n p

abbrev behind : ℕ → List (List ℕ) → List (List ℕ)
behind n [] = []
behind n (p ∷ ps) = if n == 0 then p ∷ ps else if ltb n (length p) then drop n p ∷ ps else ps

no_size : (f : Filter) → Carries f [] [] → is_ready f ≡ false
unfolding is_ready
no_size f c = elim (Bool-cases (f.size == 0)) [
  | inl e ↦ rw e refl
  | inr e ↦ absurd (
      omega (
        arith,
        ap (λ (l : List ℕ). length l)
            (ap (λ x. x ++ []) (sym (stream_of_size f (==→ne f.size 0 e))) ∙ c.stream),
        length-append (be32 f.size ++ contents f.buffer) [],
        length-append (be32 f.size) (contents f.buffer),
      ))
]

-- A read from a filter that holds whole packets returns the start of the first one, and the filter
-- holds what is behind it.
pub read-front :
    (f : Filter) (ps : List (List ℕ)) (n : ℕ)
    → Carries f ps []
    → ((read true n f).bytes ≡ front n ps) × Carries (read true n f).filter (behind n ps) []
read-front f [] n c = elim (Bool-cases (n == 0)) [
  | inl e ↦ unfold read in rw e (refl, c)
  | inr e ↦ unfold read in rw (e, no_size f c) (refl, c)
]
read-front f (p ∷ ps) n c = elim (Bool-cases (n == 0)) [
  | inl e ↦ let z = ==→eq n 0 e in unfold read in rw (e, z) (refl, c)
  | inr e ↦
      let ready = (is_ready_iff f p ps [] c).1 (omega arith) in
      elim (Bool-cases (ltb n (length p))) [
        | inl l ↦
            rw (e, l)
              (read_part f p ps [] true n ready c (omega (arith, ==→ne n 0 e)) (ltb→lt _ _ l))
        | inr l ↦
            let r = read_whole f p ps [] true n ready c (ltb→le _ _ l) in
            rw (e, l) (r.0 ∙ sym (take_all n p (ltb→le _ _ l)), r.1)
      ]
]

pub front-behind : (n : ℕ) (ps : List (List ℕ)) → front n ps ++ concat (behind n ps) ≡ concat ps
front-behind n [] = refl
front-behind n (p ∷ ps) = elim (Bool-cases (n == 0)) [
  | inl e ↦ rw (e, ==→eq n 0 e) refl
  | inr e ↦ elim (Bool-cases (ltb n (length p))) [
    | inl l ↦
        rw (e, l)
          (sym (append_assoc (take n p) (drop n p) (concat ps))
            ∙ ap (λ x. x ++ concat ps) (take-append-drop n p))
    | inr l ↦ rw (e, l, take_all n p (ltb→le _ _ l)) refl
  ]
]

pub length-front : (n : ℕ) (ps : List (List ℕ)) → length (front n ps) ≤ n
length-front n [] = omega arith
length-front n (p ∷ ps) = omega (arith, length-take n p)

pub front_some :
    (n : ℕ) (ps : List (List ℕ))
    → ArePackets ps
    → 0 < n
    → 0 < length (concat ps)
    → 0 < length (front n ps)
front_some n [] v h k = k
front_some n (p ∷ ps) v h k = omega (arith, length-take n p, v.0.0)

-- A filter with the packets that it holds, all of them whole.
pub record Held : Type 0 where
  pub filter : Filter
  pub packets : List (List ℕ)
  pub carries : Carries filter packets []

-- The filter as a stream: PacketStreamFilter::read with a buffer.
abbrev pub over_packets : Stream
over_packets = record {
  State = Held;
  pending = λ h. concat h.packets;
  get = λ n h.
      let r = read true n h.filter in
      (
        r.bytes,
        record {
          filter = r.filter;
          packets = behind n h.packets;
          carries = (read-front h.filter h.packets n h.carries).1;
        },
      );
  get_prefix = λ n h.
      ap (λ x. x ++ concat (behind n h.packets)) (read-front h.filter h.packets n h.carries).0
      ∙ front-behind n h.packets;
  get_short = λ n h. omega (
    arith,
    ap (λ (l : List ℕ). length l) (read-front h.filter h.packets n h.carries).0,
    length-front n h.packets,
  );
  get_some = λ n h pos some_left. omega (
    arith,
    ap (λ (l : List ℕ). length l) (read-front h.filter h.packets n h.carries).0,
    front_some n h.packets h.carries.packets pos some_left,
  );
}

-- A message that writef gives to a PacketStreamFilter, with other packets behind it, and whose bytes
-- arrive in pieces cut in any way at another one, is read there by readf with the same format, as the
-- arguments that were written; what the filter then holds are the bytes of the other packets. The
-- arguments fit the format, no packet is empty or above the length limit, and all of them take less
-- than 2 ^ 32 bytes.
pub readf-filter_event :
    (fmt : List ℕ) (args : List Arg) (f : Fits (directives fmt) args)
    → (ps : List (List ℕ)) (reads : List (List ℕ)) → ArePackets (message f ∷ ps)
    → concat reads ≡ sent_packets (message f ∷ ps)
    → length (sent_packets (message f ∷ ps)) < 2 ^ 32
    → (writef fmt args ≡ some (message f ∷ []))
      × ((h : Held) × (h.filter ≡ (filter_event input_ready initial reads).filter)
          × (h.packets ≡ message f ∷ ps)
          × ((t : Held) × (readf over_packets fmt h ≡ ok (some (args, t)))
              × (concat t.packets ≡ concat ps)))
readf-filter_event fmt args f ps reads packets pieces fits =
    let h : Held = record {
      filter = (filter_event input_ready initial reads).filter;
      packets = message f ∷ ps;
      carries = filter_event-sent_packets (message f ∷ ps) reads packets pieces fits;
    } in
    let back =
      readf-writef over_packets fmt args (concat ps) h f packets.0.0 (omega (arith, packets.0.1))
        refl in
    (back.0, (h, refl, refl, back.1))
