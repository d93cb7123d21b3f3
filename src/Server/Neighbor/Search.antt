-- ===== src/Server/Neighbor/Search.antt =====
-- When the loop of getNeighbor ends.
use zero_flow.Prelude.{
  ℕ, zero, suc, ◌<◌, ◌≡◌, inl, inr, refl, ap, ◌∙◌, sym, List, Option, some, none, arith,
  Option-cases,
}
use zero_flow.Server.{Direction, Desk, find_client}
use zero_flow.Server.Neighbor.{visit, search}

-- The result of a round, by what it finds.
client_of {ℓ} : {F : Type ℓ} → Option (Option (ℕ × F)) → Option ℕ
client_of none = none
client_of (some none) = none
client_of (some (some (c, u))) = some c

module _ (desk : Desk) (clients : List (List ℕ × ℕ)) where
  open desk use {Fraction, link}

  visit_known :
      (m : List ℕ) (u : Fraction) (c : ℕ)
      (rest : List ℕ → Fraction → Option (Option (ℕ × Fraction)))
      → find_client m clients ≡ some c
      → visit desk (some (m, u)) clients rest ≡ some (some (c, u))
  unfolding visit
  visit_known m u c rest f = rw (f, visit) refl

  visit_skipped :
      (m : List ℕ) (u : Fraction) (rest : List ℕ → Fraction → Option (Option (ℕ × Fraction)))
      → find_client m clients ≡ none
      → visit desk (some (m, u)) clients rest ≡ rest m u
  unfolding visit
  visit_skipped m u rest f = rw (f, visit) refl

  round :
      (fuel : ℕ) (dir : Direction) (n : List ℕ) (t : Fraction) (l : Option (List ℕ × Fraction))
      → link n dir t ≡ l
      → search desk (suc fuel) clients dir n t ≡ visit desk l clients (search desk fuel clients dir)
  unfolding search
  round fuel dir n t l e = ap (λ x. visit desk x clients (search desk fuel clients dir)) e

  -- The links from unconnected screens lead nowhere for ever: `rank` falls at each that is skipped.
  pub record EndsBy (dir : Direction) (rank : List ℕ → ℕ) : Type 0 where
    pub falls :
        (n m : List ℕ) (t u : Fraction)
        → link n dir t ≡ some (m, u)
        → find_client m clients ≡ none
        → rank m < rank n

  -- The loop of getNeighbor ends, within as many rounds as the rank of the screen allows, if no
  -- screens that are not connected are linked in a circle.
  pub search_total :
      (dir : Direction) (rank : List ℕ → ℕ)
      → EndsBy dir rank
      → (fuel : ℕ) (n : List ℕ) (t : Fraction) → rank n < fuel
      → (r : Option (ℕ × Fraction)) × (search desk fuel clients dir n t ≡ some r)
  search_total dir rank ends zero n t h = absurd (omega arith)
  search_total dir rank ends (suc fuel) n t h = elim (Option-cases (link n dir t)) [
    | inl e ↦ (none, round fuel dir n t none e ∙ unfold visit in refl)
    | inr ((m, u), e) ↦ elim (Option-cases (find_client m clients)) [
      | inl f ↦
          let (r, same) =
            search_total dir rank ends fuel m u (omega (arith, ends.falls n m t u e f)) in
          (
            r,
            round fuel dir n t (some (m, u)) e
                ∙ visit_skipped m u (search desk fuel clients dir) f
                ∙ same,
          )
      | inr (c, f) ↦ (
        some (c, u),
        round fuel dir n t (some (m, u)) e ∙ visit_known m u c (search desk fuel clients dir) f,
      )
    ]
  ]

  -- A set of screens, none of which is connected, that link to one another.
  pub record LoopsIn (dir : Direction) (Skipped : List ℕ → Type 0) : Type 0 where
    pub leads :
        (n : List ℕ) (t : Fraction)
        → Skipped n
        → (m : List ℕ) × (u : Fraction) × (link n dir t ≡ some (m, u))
          × (find_client m clients ≡ none)
          × Skipped m

  -- The loop of getNeighbor never ends, in any number of rounds, once it has come to screens that are
  -- not connected and that are linked to one another all along the edge.
  pub search_endless :
      (dir : Direction) (Skipped : List ℕ → Type 0)
      → LoopsIn dir Skipped
      → (fuel : ℕ) (n : List ℕ) (t : Fraction) → Skipped n
      → search desk fuel clients dir n t ≡ none
  search_endless dir Skipped loops zero n t h = unfold search in refl
  search_endless dir Skipped loops (suc fuel) n t h =
      let (m, u, e, f, k) = loops.leads n t h in
      round fuel dir n t (some (m, u)) e
      ∙ visit_skipped m u (search desk fuel clients dir) f
      ∙ search_endless dir Skipped loops fuel m u k

  -- A screen that is found is one of the clients.
  pub search-find_client :
      (dir : Direction) (fuel : ℕ) (n : List ℕ) (t : Fraction) (c : ℕ) (u : Fraction)
      → search desk fuel clients dir n t ≡ some (some (c, u))
      → (m : List ℕ) × (find_client m clients ≡ some c)
  search-find_client dir zero n t c u e =
      let done : search desk zero clients dir n t ≡ none = unfold search in refl in
      absurd (cc (done, e))
  search-find_client dir (suc fuel) n t c u e = elim (Option-cases (link n dir t)) [
    | inl k ↦ absurd (cc (sym (round fuel dir n t none k) ∙ e, nothing fuel dir))
    | inr ((m, v), k) ↦ elim (Option-cases (find_client m clients)) [
      | inl f ↦ search-find_client dir fuel m v c u (
          sym (
            round fuel dir n t (some (m, v)) k ∙ visit_skipped m v (search desk fuel clients dir) f)
          ∙ e)
      | inr (d, f) ↦ (
        m,
        f
            ∙ unfold client_of in
              ap client_of (
                sym (
                  round fuel dir n t (some (m, v)) k
                  ∙ visit_known m v d (search desk fuel clients dir) f)
                ∙ e),
      )
    ]
  ]
    where
      nothing :
          (fuel : ℕ) (dir : Direction)
          → visit desk none clients (search desk fuel clients dir) ≡ some none
      nothing fuel dir = unfold visit in refl
