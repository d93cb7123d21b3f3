-- ===== src/PacketStream/Receive.antt =====
-- readMore on what arrives from the stream, in pieces of any length.
use zero_flow.Prelude.{
  ℕ, ◌+◌, ◌<◌, ◌^◌, ◌≡◌, refl, ap, sym, ◌∙◌, not, List, [], ◌∷◌, ◌++◌, ◌==◌, if◌then◌else◌, length,
  length-append, arith, append_assoc, be32, subst, Bool-cases, inl, inr,
}
use zero_flow.StreamBuffer
use zero_flow.StreamBuffer.View.{contents, concat}
use zero_flow.StreamBuffer.Write.{write-contents}
use zero_flow.PacketStream.{
  Filter, dispatch_event, input_ready, is_ready, Drained, read_packet_size, drain, read_more,
  on_input_ready, filter_event,
}
use zero_flow.PacketStream.Frames.{frames, stream_of, Carries}
use zero_flow.PacketStream.Sizes.{Settles, read_packet_size-Settles}

pub record Drains (f : Filter) (d : Drained) (ps : List (List ℕ)) (more : List ℕ) : Type 0 where
  pub carries : Carries d.filter ps more
  pub all_read : d.left ≡ []
  pub silent : d.effects ≡ []
  pub shutdown : d.filter.is_input_shutdown ≡ f.is_input_shutdown

module _ (ps : List (List ℕ)) (fits : length (frames ps) < 2 ^ 32) where
  stream_room :
      (f : Filter) (bytes more : List ℕ)
      → Carries f ps (bytes ++ more)
      → f.buffer.size + length bytes < 2 ^ 32
  stream_room f bytes more c = omega (
    arith,
    ap (λ (l : List ℕ). length l) c.stream,
    length-append (stream_of f) (bytes ++ more),
    length-append bytes more,
    length-append (if f.size == 0 then [] else be32 f.size) (contents f.buffer),
    c.buffered.counted,
  )

  one_piece :
      (f : Filter) (bytes more : List ℕ)
      → Carries f ps (bytes ++ more)
      → let f' : Filter = record f { buffer = StreamBuffer.write bytes f.buffer } in
        Settles f' (read_packet_size f') ps more
  one_piece f bytes more c =
      let (kept, v) = write-contents bytes f.buffer c.buffered (stream_room f bytes more c) in
      let size = if f.size == 0 then [] else be32 f.size in
      let longer : size ++ contents (StreamBuffer.write bytes f.buffer) ≡ stream_of f ++ bytes =
        ap (λ x. size ++ x) kept ∙ sym (append_assoc size (contents f.buffer) bytes) in
      read_packet_size-Settles (record f { buffer = StreamBuffer.write bytes f.buffer }) ps more v
        (ap (λ x. x ++ more) longer ∙ append_assoc (stream_of f) bytes more ∙ c.stream) c.packets
        c.limit

  drain-Drains :
      (f : Filter) (reads : List (List ℕ)) (more : List ℕ)
      → Carries f ps (concat reads ++ more)
      → Drains f (drain f reads) ps more
  unfolding drain
  drain-Drains f [] more c = record { carries = c; all_read = refl; silent = refl; shutdown = refl }
  drain-Drains f (bytes ∷ reads) more c =
      let c' : Carries f ps (bytes ++ (concat reads ++ more)) =
        subst (Carries f ps) (append_assoc bytes (concat reads) more) c in
      let s = one_piece f bytes (concat reads ++ more) c' in
      let r = read_packet_size (record f { buffer = StreamBuffer.write bytes f.buffer }) in
      let d = drain-Drains r.filter reads more s.carries in
      rw s.fine (record {
        carries = d.carries;
        all_read = d.all_read;
        silent = rw (s.silent, d.silent);
        shutdown = d.shutdown ∙ s.shutdown;
      })

  -- However the bytes of the packets are cut into pieces, an input event leaves a filter that
  -- carries packets with all of them, reads the stream empty, keeps what is known of the input's
  -- shutdown, and announces input exactly when the filter was not ready before and is ready now, or
  -- the other way round; nothing else is raised. With their lengths, the packets take less than 2 ^
  -- 32 bytes.
  pub filter_event-Carries :
      (f : Filter) (reads : List (List ℕ)) (more : List ℕ)
      → Carries f ps (concat reads ++ more)
      → let d = filter_event input_ready f reads in
        Carries d.filter ps more
        × (d.left ≡ [])
        × (d.effects ≡ (
            if (if is_ready f then not (is_ready d.filter) else is_ready d.filter)
            then dispatch_event input_ready ∷ []
            else []))
        × (d.filter.is_input_shutdown ≡ f.is_input_shutdown)
  unfolding filter_event on_input_ready read_more
  filter_event-Carries f reads more c =
      let d = drain-Drains f reads more c in
      let changed =
        if is_ready f
        then not (is_ready (drain f reads).filter)
        else is_ready (drain f reads).filter in
      elim (Bool-cases changed) [
        | inl e ↦ rw e (d.carries, d.all_read, (rw (e, d.silent)), d.shutdown)
        | inr e ↦ rw e (d.carries, d.all_read, (rw (e, d.silent)), d.shutdown)
      ]
