-- ===== src/Protocol/RoundTrip.antt =====
-- writef, and readf with the same format.
use zero_flow.Prelude.{
  ℕ, ◌%◌, ◌^◌, ◌≤◌, ◌<◌, ◌≡◌, refl, ap, ◌∙◌, subst, true, List, [], ◌∷◌, ◌++◌, some, length, arith,
  ◌==◌, if◌then◌else◌, All, append_assoc, le→ltb, eq→==,
}
use zero_flow.Protocol.Format.{
  Directive, conversion, directives, Arg, int_arg, vector_arg, string_arg, int_kind, vector_kind,
  string_kind, Kind, kind_of, is_width,
}
use zero_flow.Protocol.Write.{write_int, write_ints, write_vector, write_string, writef}
use zero_flow.Protocol.Stream.{Stream, Outcome, ok, ◌>>=◌, read}
use zero_flow.Protocol.Read.{
  max_list_length, int_value, read_int, read_vector_size, read_ints, read_vector, read_bytes,
  read_conversion, read_literal, vreadf, readf,
}
use zero_flow.Protocol.Exact.{Yields, read-Yields}
use zero_flow.Protocol.Fits.{
  Fits, empty_fits, literal_fits, int_fits, vector_fits, string_fits, limit_of,
}
use zero_flow.Protocol.Length.{length-write_int, message, writef-message}

int_value-write_int :
    (v len : ℕ) → is_width len ≡ true → v < limit_of len → int_value len (write_int v len) ≡ v
unfolding int_value write_int is_width
int_value-write_int v len h k = ground arith

copied_string : (s : List ℕ) → length s < 2 ^ 32 → (if length s % 2 ^ 32 == 0 then [] else s) ≡ s
copied_string [] h = refl
copied_string (x ∷ s) h = ground arith

module _ (stream : Stream) where
  open stream use {State, pending}

  -- One step of a scan, then the next.
  bind_Yields {ℓ κ} :
      {A : Type ℓ} {B : Type κ} (m : Outcome (A × State)) (a : A) (rest : List ℕ)
      (k : A × State → Outcome (B × State)) (b : B) (end : List ℕ)
      → Yields stream m a rest
      → ((s : State) → pending s ≡ rest → Yields stream (k (a, s)) b end)
      → Yields stream (m >>= k) b end
  bind_Yields m a rest k b end (s, e, p) next = rw e (next s p)

  read_int-Yields :
      (v len : ℕ) (rest : List ℕ) (s : State)
      → is_width len ≡ true
      → v < limit_of len
      → pending s ≡ write_int v len ++ rest
      → Yields stream (read_int stream len s) v rest
  unfolding read_int
  read_int-Yields v len rest s h k e =
      bind_Yields (read stream len s) (write_int v len) rest _ v rest
        (read-Yields stream len (write_int v len) rest s (length-write_int v len h) e)
        (λ t p. (t, ap (λ (x : ℕ). ok (x, t)) (int_value-write_int v len h k), p))

  read_ints-Yields :
      (len : ℕ) (vs rest : List ℕ) (s : State)
      → is_width len ≡ true
      → All (λ v. v < limit_of len) vs
      → pending s ≡ write_ints len vs ++ rest
      → Yields stream (read_ints stream len (length vs) s) vs rest
  unfolding read_ints write_ints
  read_ints-Yields len [] rest s h k e = (s, refl, e)
  read_ints-Yields len (v ∷ vs) rest s h k e =
      bind_Yields (read_int stream len s) v (write_ints len vs ++ rest) _ (v ∷ vs) rest
        (read_int-Yields v len (write_ints len vs ++ rest) s h k.0
          (e ∙ append_assoc (write_int v len) (write_ints len vs) rest))
        (λ t p.
          bind_Yields (read_ints stream len (length vs) t) vs rest _ (v ∷ vs) rest
            (read_ints-Yields len vs rest t h k.1 p) (λ u q. (u, refl, q)))

  four : is_width 4 ≡ true
  unfolding is_width
  four = refl

  read_vector-Yields :
      (len : ℕ) (vs rest : List ℕ) (s : State)
      → is_width len ≡ true
      → length vs ≤ max_list_length
      → All (λ v. v < limit_of len) vs
      → pending s ≡ write_vector len vs ++ rest
      → Yields stream (read_vector stream len s) vs rest
  unfolding read_vector read_vector_size write_vector
  read_vector-Yields len vs rest s h l k e =
      let n : length vs % 2 ^ 32 ≡ length vs = omega arith in
      let cut = append_assoc (write_int (length vs % 2 ^ 32) 4) (write_ints len vs) rest in
      let e' =
        subst (λ (m : ℕ). pending s ≡ write_int m 4 ++ (write_ints len vs ++ rest)) n (e ∙ cut) in
      bind_Yields (read_vector_size stream s) (length vs) (write_ints len vs ++ rest) _ vs rest
        (bind_Yields (read_int stream 4 s) (length vs) (write_ints len vs ++ rest) _ (length vs)
          (write_ints len vs ++ rest)
          (read_int-Yields (length vs) 4 (write_ints len vs ++ rest) s four (omega arith) e')
          (λ t p. rw (le→ltb max_list_length (length vs) l) (t, refl, p)))
        (λ t p. read_ints-Yields len vs rest t h k p)

  read_bytes-Yields :
      (bs rest : List ℕ) (s : State)
      → length bs < 2 ^ 32
      → pending s ≡ write_string bs ++ rest
      → Yields stream (read_bytes stream 0 s) bs rest
  unfolding read_bytes write_string
  read_bytes-Yields bs rest s h e =
      let n : length bs % 2 ^ 32 ≡ length bs = omega arith in
      let cut =
        append_assoc (write_int (length bs % 2 ^ 32) 4) (if length bs % 2 ^ 32 == 0 then [] else bs)
          rest in
      let e' =
        subst (λ (m : ℕ). pending s ≡ write_int m 4 ++ (bs ++ rest)) n
          (e
            ∙ cut
            ∙ ap (λ x. write_int (length bs % 2 ^ 32) 4 ++ (x ++ rest)) (copied_string bs h)) in
      bind_Yields (read_int stream 4 s) (length bs) (bs ++ rest) _ bs rest
        (read_int-Yields (length bs) 4 (bs ++ rest) s four (omega arith) e')
        (λ t p. read-Yields stream (length bs) bs rest t refl p)

  read_literal_lem :
      (c : ℕ) (rest : List ℕ) (s : State)
      → pending s ≡ c ∷ rest
      → (t : State) × (read_literal stream c s ≡ ok t) × (pending t ≡ rest)
  unfolding read_literal
  read_literal_lem c rest s e =
      let (t, same, p) = read-Yields stream 1 (c ∷ []) rest s refl e in
      (t, rw (same, eq→== c c refl), p)

  -- One conversion of a format, then the rest of it.
  conversion_Yields :
      (len c : ℕ) (ds : List Directive) (kind : Kind) (arg : Arg) (args : List Arg)
      (w rest end : List ℕ) (s : State)
      → kind_of c ≡ kind
      → ((r : List ℕ)
          → pending s ≡ w ++ r
          → Yields stream (read_conversion stream kind len s) (arg ∷ []) r)
      → pending s ≡ (w ++ rest) ++ end
      → ((t : State) → pending t ≡ rest ++ end → Yields stream (vreadf stream ds t) args end)
      → Yields stream (vreadf stream (conversion len c ∷ ds) s) (arg ∷ args) end
  unfolding vreadf
  conversion_Yields len c ds kind arg args w rest end s k first e next = rw k (
      bind_Yields (read_conversion stream kind len s) (arg ∷ []) (rest ++ end) _ (arg ∷ args) end
        (first (rest ++ end) (e ∙ append_assoc w rest end))
        (λ t p.
          bind_Yields (vreadf stream ds t) args end _ (arg ∷ args) end (next t p)
            (λ u q. (u, refl, q))))

  -- Any message that fits a format is scanned by that format as its arguments, over any stream that
  -- gives its bytes, and what follows it stays there.
  pub vreadf-message :
      {ds : List Directive} {args : List Arg} (f : Fits ds args) (end : List ℕ) (s : State)
      → pending s ≡ message f ++ end
      → Yields stream (vreadf stream ds s) args end
  unfolding vreadf message read_conversion
  vreadf-message empty_fits end s e = (s, refl, e)
  vreadf-message (literal_fits c f) end s e =
      let (t, same, p) = read_literal_lem c (message f ++ end) s e in
      rw same (vreadf-message f end t p)
  vreadf-message (int_fits len c v {ds} {args} k w h f) end s e =
      conversion_Yields len c ds int_kind (int_arg v) args (write_int v len) (message f) end s k
        (λ r p. rw w (
          bind_Yields (read_int stream len s) v r _ (int_arg v ∷ []) r
            (read_int-Yields v len r s w h p) (λ t q. (t, refl, q))))
        e (λ t p. vreadf-message f end t p)
  vreadf-message (vector_fits len c vs {ds} {args} k w h l f) end s e =
      conversion_Yields len c ds vector_kind (vector_arg vs) args (write_vector len vs) (message f)
        end s k
        (λ r p. rw w (
          bind_Yields (read_vector stream len s) vs r _ (vector_arg vs ∷ []) r
            (read_vector-Yields len vs r s w h l p) (λ t q. (t, refl, q))))
        e (λ t p. vreadf-message f end t p)
  vreadf-message (string_fits len c bs {ds} {args} k z h f) end s e =
      conversion_Yields len c ds string_kind (string_arg bs) args (write_string bs) (message f) end
        s k
        (λ r p. rw z (
          bind_Yields (read_bytes stream 0 s) bs r _ (string_arg bs ∷ []) r
            (read_bytes-Yields bs r s h p) (λ t q. (t, refl, q))))
        e (λ t p. vreadf-message f end t p)

-- A message that writef sends is read by readf with the same format, as the arguments that were
-- written, over any stream that gives its bytes; what follows it on the stream stays there. The
-- arguments fit the format, and the message is not empty and shorter than 2 ^ 32 bytes.
pub readf-writef :
    (stream : Stream) (fmt : List ℕ) (args : List Arg) (end : List ℕ) (s : stream.State)
    → (f : Fits (directives fmt) args) → 0 < length (message f)
    → length (message f) < 2 ^ 32
    → stream.pending s ≡ message f ++ end
    → (writef fmt args ≡ some (message f ∷ []))
      × ((t : stream.State) × (readf stream fmt s ≡ ok (some (args, t))) × (stream.pending t ≡ end))
unfolding readf
readf-writef stream fmt args end s f some_byte small e =
    let (t, same, p) = vreadf-message stream f end s e in
    ((writef-message fmt args f some_byte small).2, (t, rw (same, readf), p))
