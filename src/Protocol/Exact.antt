-- ===== src/Protocol/Exact.antt =====
-- The bytes that ProtocolUtil::read gets.
use zero_flow.Prelude.{
  ℕ, zero, suc, ◌-◌, ◌≤◌, ◌<◌, ◌≡◌, refl, ap, sym, ◌∙◌, inl, inr, List, [], ◌∷◌, ◌++◌, length,
  length-append, ◌==◌, arith, take, drop, take-append-drop, take_all, drop_all, take-append,
  drop-append, length-drop, Bool-cases, subst, ==→ne, ne→==,
}
use zero_flow.Protocol.Stream.{Stream, Outcome, ok, end_of_stream, read_loop, read}

take_self : (b r : List ℕ) → take (length b) (b ++ r) ≡ b
take_self b r = take-append (length b) b r (omega arith) ∙ take_all (length b) b (omega arith)

drop_self : (b r : List ℕ) → drop (length b) (b ++ r) ≡ r
drop_self b r =
    drop-append (length b) b r (omega arith)
    ∙ ap (λ x. x ++ r) (drop_all (length b) b (omega arith))

-- Of two ways to cut a text, the shorter first part begins the longer one.
prefix_split :
    (b r w rest : List ℕ)
    → b ++ r ≡ w ++ rest
    → length b ≤ length w
    → (b ++ drop (length b) w ≡ w) × (r ≡ drop (length b) w ++ rest)
prefix_split b r w rest e h = (
  ap (λ x. x ++ drop (length b) w)
        (sym (take_self b r) ∙ ap (take (length b)) e ∙ take-append (length b) w rest h)
      ∙ take-append-drop (length b) w,
  sym (drop_self b r) ∙ ap (drop (length b)) e ∙ drop-append (length b) w rest h,
)

module _ (stream : Stream) where
  open stream use {State, pending, get, get_prefix, get_short, get_some}

  -- The call returns `a` and leaves `rest` on the stream.
  abbrev pub Yields {ℓ} : {A : Type ℓ} → Outcome (A × State) → A → List ℕ → Type ℓ
  Yields m a rest = (s : State) × (m ≡ ok (a, s)) × (pending s ≡ rest)

  loop-Yields :
      (fuel : ℕ) (w rest : List ℕ) (s : State)
      → length w ≤ fuel
      → pending s ≡ w ++ rest
      → Yields (read_loop stream fuel (length w) s) w rest
  unfolding read_loop
  loop-Yields zero [] rest s h e = (s, refl, e)
  loop-Yields zero (b ∷ w) rest s h e = absurd (omega arith)
  loop-Yields (suc fuel) [] rest s h e = (s, refl, e)
  loop-Yields (suc fuel) (x ∷ w) rest s h e =
      let all = x ∷ w in
      let count : ℕ = suc (length w) in
      let b = (get count s).0 in
      let some_b =
        get_some count s (omega arith)
          (omega (arith, ap (λ (l : List ℕ). length l) e, length-append all rest)) in
      let q =
        prefix_split b (pending (get count s).1) all rest (get_prefix count s ∙ e)
          (get_short count s) in
      let left = length-drop (length b) all in
      let (s', same, end) =
        loop-Yields fuel (drop (length b) all) rest (get count s).1 (omega (arith, left)) q.1 in
      rw (ne→== count 0 (omega arith), ne→== (length b) 0 (omega arith), sym left)
        (s', rw same (ap (λ (l : List ℕ). ok (l, s')) q.0), end)

  loop_ends :
      (fuel count : ℕ) (s : State)
      → count ≤ fuel
      → length (pending s) < count
      → read_loop stream fuel count s ≡ end_of_stream
  unfolding read_loop
  loop_ends zero count s h k = absurd (omega arith)
  loop_ends (suc fuel) count s h k = elim (Bool-cases (length (get count s).0 == 0)) [
    | inl e ↦ rw (ne→== count 0 (omega arith), e)
    | inr e ↦ rw (
      ne→== count 0 (omega arith),
      e,
      loop_ends fuel (count - length (get count s).0) (get count s).1
          (omega (arith, ==→ne (length (get count s).0) 0 e))
          (omega (
            arith,
            ap (λ (l : List ℕ). length l) (get_prefix count s),
            length-append (get count s).0 (pending (get count s).1),
            get_short count s,
          )),
    )
  ]

  -- If the stream can give the bytes `w`, a read of so many returns them, however they come in, and
  -- leaves what follows them.
  pub read-Yields :
      (count : ℕ) (w rest : List ℕ) (s : State)
      → length w ≡ count
      → pending s ≡ w ++ rest
      → Yields (read stream count s) w rest
  unfolding read
  read-Yields count w rest s n e =
      subst (λ k. Yields (read_loop stream k k s) w rest) n
        (loop-Yields (length w) w rest s (omega arith) e)

  -- If the stream can give fewer bytes, a read ends with the stream.
  pub read_short :
      (count : ℕ) (s : State) → length (pending s) < count → read stream count s ≡ end_of_stream
  unfolding read
  read_short count s h = loop_ends count count s (omega arith) h
