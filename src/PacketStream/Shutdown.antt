-- ===== src/PacketStream/Shutdown.antt =====
-- filterEvent when the stream below has shut its input down.
use zero_flow.Prelude.{
  ℕ, ◌+◌, ◌≤◌, ◌<◌, ◌≡◌, ◌≢◌, inl, inr, refl, ap, ◌∙◌, sym, Bool, true, List, [], ◌∷◌, ◌++◌, ◌==◌,
  leb, if◌then◌else◌, length, length-append, arith, Bool-cases, le→leb, lt→leb, leb→le, leb→lt,
  ==→eq, ==→ne, eq→==, ne→==,
}
use zero_flow.StreamBuffer
use zero_flow.StreamBuffer.View.{contents}
use zero_flow.PacketStream.{
  Filter, Effect, read, filter_event, on_input_shutdown, input_shutdown, input_format_error,
  add_event, dispatch_event,
}
use zero_flow.PacketStream.Frames.{frames, stream_of_zero, stream_of_size, Carries}
use zero_flow.PacketStream.Deliver.{first_packet, read_whole}
use zero_flow.PacketStream.EndToEnd.{is_ready_iff}

-- What has arrived of the first packet, when the rest of the stream is `more`.
data Arrived (f : Filter) (p : List ℕ) (ps : List (List ℕ)) (more : List ℕ) : Type 0 where
  no_size : f.size ≡ 0 → length p + length (frames ps) < length more → Arrived f p ps more
  some_of_it :
      f.size ≢ 0
      → f.buffer.size < f.size
      → length (frames ps) < length more
      → length more ≤ length p + length (frames ps)
      → Arrived f p ps more
  all_of_it :
      f.size ≢ 0 → f.size ≤ f.buffer.size → length more ≤ length (frames ps) → Arrived f p ps more

Arrived-cases :
    (f : Filter) (p : List ℕ) (ps : List (List ℕ)) (more : List ℕ)
    → Carries f (p ∷ ps) more
    → Arrived f p ps more
Arrived-cases f p ps more c = elim (Bool-cases (f.size == 0)) [
  | inl z ↦
      let e =
        ap (λ (l : List ℕ). length l)
          (sym (ap (λ x. x ++ more) (stream_of_zero f (==→eq f.size 0 z))) ∙ c.stream) in
      no_size (==→eq f.size 0 z) (elim c.settled [
        | inl n ↦ absurd (n (==→eq f.size 0 z))
        | inr s ↦
            omega (arith, e, s, length-append (contents f.buffer) more, length-append p (frames ps))
      ])
  | inr n ↦
      let first = first_packet f p ps more (==→ne f.size 0 n) c in
      let e = ap (λ (l : List ℕ). length l) first.1 in
      elim (Bool-cases (leb f.size f.buffer.size)) [
        | inl l ↦ all_of_it (==→ne f.size 0 n) (leb→le f.size f.buffer.size l) (
            omega (
              arith,
              e,
              first.0,
              c.buffered.counted,
              leb→le f.size f.buffer.size l,
              length-append (contents f.buffer) more,
              length-append p (frames ps),
            ))
        | inr l ↦
            some_of_it (==→ne f.size 0 n) (leb→lt f.size f.buffer.size l)
              (omega (
                arith,
                e,
                first.0,
                c.buffered.counted,
                leb→lt f.size f.buffer.size l,
                length-append (contents f.buffer) more,
                length-append p (frames ps),
              ))
              (omega
                (arith, e, length-append (contents f.buffer) more, length-append p (frames ps)))
      ]
]

-- What an input shutdown raises, when `rest` bytes of a first packet of `size` bytes and of `behind`
-- bytes behind it are still to come.
abbrev pub shutdown_effects : ℕ → ℕ → ℕ → List Effect
shutdown_effects rest size behind =
    if leb rest behind
    then []
    else if leb rest (size + behind)
    then add_event input_format_error ∷ dispatch_event input_shutdown ∷ []
    else dispatch_event input_shutdown ∷ []

-- An input shutdown in a stream of packets raises nothing if all of the first packet has arrived: it
-- waits until that is read. If only a part has, behind its size, it raises a format error and goes
-- on; with less than the size it goes on at once. The filter carries packets, of which `more` has
-- not arrived.
pub filter_event-shutdown_effects :
    (f : Filter) (p : List ℕ) (ps reads : List (List ℕ)) (more : List ℕ)
    → Carries f (p ∷ ps) more
    → (filter_event input_shutdown f reads).effects
      ≡ shutdown_effects (length more) (length p) (length (frames ps))
unfolding filter_event on_input_shutdown StreamBuffer.get_size
filter_event-shutdown_effects f p ps reads more c = elim (Arrived-cases f p ps more c) [
  | no_size z h ↦
      rw
        (
          eq→== f.size 0 z,
          lt→leb (length more) (length (frames ps)) (omega (arith, h)),
          lt→leb (length more) (length p + length (frames ps)) h,
          on_input_shutdown,
        )
        refl
  | some_of_it n l h k ↦
      rw
        (
          ne→== f.size 0 n,
          lt→leb f.size f.buffer.size l,
          lt→leb (length more) (length (frames ps)) h,
          le→leb (length more) (length p + length (frames ps)) k,
          on_input_shutdown,
        )
        refl
  | all_of_it n l h ↦
      rw
        (
          ne→== f.size 0 n,
          le→leb f.size f.buffer.size l,
          le→leb (length more) (length (frames ps)) h,
          on_input_shutdown,
        )
        refl
]

emptied : (f : Filter) → Carries f [] [] → f.size ≡ 0
emptied f c = elim (Bool-cases (f.size == 0)) [
  | inl e ↦ ==→eq f.size 0 e
  | inr e ↦ absurd (
      omega (
        arith,
        ap (λ (l : List ℕ). length l)
            (sym (ap (λ x. x ++ []) (stream_of_size f (==→ne f.size 0 e))) ∙ c.stream),
      ))
]

shut_down : Filter → Filter
shut_down f = record f { is_input_shutdown = true }

waiting :
    (f : Filter) (reads : List (List ℕ))
    → f.size ≢ 0
    → f.size ≤ f.buffer.size
    → filter_event input_shutdown f reads
      ≡ record { filter = shut_down f; left = reads; effects = [] }
unfolding filter_event on_input_shutdown StreamBuffer.get_size shut_down
waiting f reads n l = rw (ne→== f.size 0 n, le→leb f.size f.buffer.size l, on_input_shutdown) refl

Carries-shut_down :
    (f : Filter) (ps : List (List ℕ)) (more : List ℕ)
    → Carries f ps more
    → Carries (shut_down f) ps more
unfolding shut_down
Carries-shut_down f ps more c = record {
  buffered = c.buffered;
  stream = c.stream;
  packets = c.packets;
  limit = c.limit;
  settled = c.settled;
}

read-shut_down :
    (f : Filter) (p : List ℕ) (wanted : Bool) (asked : ℕ)
    → Carries f (p ∷ []) []
    → length p ≤ asked
    → let r = read wanted asked (shut_down f) in
      (r.bytes ≡ (if wanted then p else [])) × (r.effects ≡ add_event input_shutdown ∷ [])
unfolding shut_down
read-shut_down f p wanted asked c h =
    let c' = Carries-shut_down f (p ∷ []) [] c in
    let ready = (is_ready_iff (shut_down f) p [] [] c').1 (omega arith) in
    let w = read_whole (shut_down f) p [] [] wanted asked ready c' h in
    let z = emptied (read wanted asked (shut_down f)).filter w.1 in (w.0, w.3 ∙ rw z refl)

-- A shutdown behind the last packet, all of which has arrived, is announced neither too early nor
-- never: the event raises nothing, and the read that takes the packet announces it. The filter
-- carries this one packet, and the read asks for all of it.
pub read-shutdown :
    (f : Filter) (p : List ℕ) (reads : List (List ℕ)) (wanted : Bool) (asked : ℕ)
    → Carries f (p ∷ []) []
    → length p ≤ asked
    → let d = filter_event input_shutdown f reads in
      let r = read wanted asked d.filter in
      (d.effects ≡ [])
      × (r.bytes ≡ (if wanted then p else []))
      × (r.effects ≡ add_event input_shutdown ∷ [])
read-shutdown f p reads wanted asked c h = elim (Arrived-cases f p [] [] c) [
  | no_size z k ↦ absurd (omega (arith, k))
  | some_of_it n l k m ↦ absurd (omega (arith, k))
  | all_of_it n l k ↦
      let r = read-shut_down f p wanted asked c h in rw (waiting f reads n l) (refl, r.0, r.1)
]
