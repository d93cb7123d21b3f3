-- ===== src/Server/Neighbor/Land.antt =====
-- Where mapToNeighbor's loops end.
use zero_flow.Prelude.{
  ℕ, zero, suc, ◌<◌, ◌≡◌, ◌⊎◌, inl, inr, refl, ap, ◌∙◌, sym, List, Option, some, none, arith,
  Bool-cases,
}
use zero_flow.Prelude.Int.{
  ℤ, pos, pos_part, neg_part, ◌+ℤ◌, ◌-ℤ◌, ◌≤ℤ◌, ◌<ℤ◌, ltb_ℤ, ltb_ℤ→lt, ltb_ℤ→le, int_laws,
}
use zero_flow.Server.{Direction, no_direction, left, right, top, bottom, Point, Shape, Desk}
use zero_flow.Server.Neighbor.Search.{EndsBy, search_total}
use zero_flow.Server.Neighbor.{
  across, set_across, origin_of, size_of, map_to_pixel, search, map_to_fraction, place,
  get_neighbor, back_to_actual, go_on, land_low, land_high,
}

across-set_across : (dir : Direction) (z : ℤ) (p : Point) → across dir (set_across dir z p) ≡ z
unfolding across set_across
across-set_across no_direction z p = refl
across-set_across left z p = refl
across-set_across right z p = refl
across-set_across top z p = refl
across-set_across bottom z p = refl

less_below :
    (a : ℤ) (n rounds : ℕ)
    → 0 < n
    → a +ℤ pos n <ℤ pos 0
    → neg_part a < suc rounds
    → neg_part (a +ℤ pos n) < rounds
unfolding ◌+ℤ◌
less_below a n rounds k h few = ground arith

less_beyond :
    (a : ℤ) (n rounds : ℕ)
    → 0 < n
    → pos n ≤ℤ a
    → pos_part a < suc rounds
    → pos_part (a -ℤ pos n) < rounds
unfolding ◌-ℤ◌
less_beyond a n rounds k h few = ground arith

nearer_low :
    (a b : ℤ) (n rounds : ℕ)
    → b ≡ a +ℤ pos n
    → 0 < n
    → b <ℤ pos 0
    → neg_part a < suc rounds
    → neg_part b < rounds
nearer_low a b n rounds e k h few = rw e (less_below a n rounds k (rw (sym e) h) few)

reaches_low : (a b : ℤ) (n : ℕ) → b ≡ a +ℤ pos n → a <ℤ pos 0 → b <ℤ pos n
reaches_low a b n e h = rw e (omega int_laws)

nearer_high :
    (a b : ℤ) (n rounds : ℕ)
    → b ≡ a -ℤ pos n
    → 0 < n
    → pos n ≤ℤ a
    → pos_part a < suc rounds
    → pos_part b < rounds
nearer_high a b n rounds e k h few = rw e (less_beyond a n rounds k h few)

module _ (desk : Desk) (fuel : ℕ) (clients : List (List ℕ × ℕ)) (dir : Direction) where
  open desk use {Fraction, name, shape}

  across-map_to_pixel :
      (e : Direction) (s : Shape) (f : Fraction) (p : Point)
      → across e (map_to_pixel desk s e f p) ≡ across e p
  unfolding across map_to_pixel
  across-map_to_pixel no_direction s f p = refl
  across-map_to_pixel left s f p = refl
  across-map_to_pixel right s f p = refl
  across-map_to_pixel top s f p = refl
  across-map_to_pixel bottom s f p = refl

  point_of : Point → Option (Option (ℕ × Point)) → Point
  point_of p (some (some (c, q))) = q
  point_of p (some none) = p
  point_of p none = p

  across-place :
      (e : Direction) (p : Point) (f : Option (Option (ℕ × Fraction)))
      → across e (point_of p (place desk e p f)) ≡ across e p
  unfolding place point_of
  across-place e p none = refl
  across-place e p (some none) = refl
  across-place e p (some (some (c, u))) = across-map_to_pixel e (shape c) u p

  -- A neighbor is entered at the same place across the edge.
  pub across-get_neighbor :
      (c : ℕ) (p : Point) (d : ℕ) (q : Point)
      → get_neighbor desk fuel clients c dir p ≡ some (some (d, q))
      → across dir q ≡ across dir p
  unfolding get_neighbor point_of
  across-get_neighbor c p d q e = ap (λ x. across dir (point_of p x)) (sym e) ∙ across-place dir p _

  -- The point lies on screen `d`, across the edge; or the screen has no neighbor behind it.
  abbrev pub IsOn : ℕ → Point → Type 0
  IsOn d r =
      (origin_of dir (shape d) ≤ℤ across dir r)
      × (across dir r <ℤ origin_of dir (shape d) +ℤ pos (size_of dir (shape d)))

  abbrev pub IsLast : ℕ → Type 0
  IsLast d = (q : Point) × (get_neighbor desk fuel clients d dir q ≡ some none)

  abbrev pub IsLanded : Option (ℕ × Point) → Type 0
  IsLanded none = ⊥
  IsLanded (some (d, r)) = IsOn d r ⊎ IsLast d

  -- Every screen has a size, and the links over unconnected screens end within the fuel.
  pub record Ready : Type 0 where
    pub sized : (c : ℕ) → 0 < size_of dir (shape c)
    pub rank : List ℕ → ℕ
    pub ends : EndsBy desk clients dir rank
    pub fueled : (n : List ℕ) → rank n < fuel

  pub get_neighbor_total :
      (c : ℕ) (q : Point)
      → Ready
      → (r : Option (ℕ × Point)) × (get_neighbor desk fuel clients c dir q ≡ some r)
  unfolding get_neighbor
  get_neighbor_total c q ready =
      let (f, e) =
        search_total desk clients dir ready.rank ready.ends fuel (name c)
          (map_to_fraction desk (shape c) dir q) (ready.fueled (name c)) in
      found f e
    where
      found :
          (f : Option (ℕ × Fraction))
          → search desk fuel clients dir (name c) (map_to_fraction desk (shape c) dir q) ≡ some f
          → (r : Option (ℕ × Point)) × (get_neighbor desk fuel clients c dir q ≡ some r)
      found none e = (none, rw e (unfold place in refl))
      found (some (d, u)) e =
          (some (d, map_to_pixel desk (shape d) dir u q), rw e (unfold place in refl))

  go_on-IsLanded :
      (n : Option (ℕ × Point)) (c : ℕ) (q : Point) (here : Point)
      (next : ℕ → Point → Option (ℕ × Point))
      → get_neighbor desk fuel clients c dir q ≡ some n
      → ((d : ℕ) (r : Point) → across dir r ≡ across dir q → IsLanded (next d r))
      → IsLanded (go_on desk (get_neighbor desk fuel clients c dir q) (c, here) next)
  unfolding go_on
  go_on-IsLanded none c q here next e k = rw (e, go_on) (inr (q, e))
  go_on-IsLanded (some (d, r)) c q here next e k =
      rw (e, go_on) (k d r (across-get_neighbor c q d r e))

  back_to_actual-IsOn :
      (c : ℕ) (q : Point)
      → pos 0 ≤ℤ across dir q
      → across dir q <ℤ pos (size_of dir (shape c))
      → IsLanded (some (back_to_actual desk dir c q))
  unfolding back_to_actual
  back_to_actual-IsOn c q low high =
      let z = across dir q +ℤ origin_of dir (shape c) in
      let same = across-set_across dir z q in
      inl (rw same (omega (int_laws, low)), rw same (omega (int_laws, high)))

  pub low-IsLanded :
      (rounds c : ℕ) (p : Point)
      → Ready
      → across dir p <ℤ pos 0
      → neg_part (across dir p) < rounds
      → IsLanded (land_low desk rounds fuel clients dir c p)
  unfolding land_low back_to_actual
  low-IsLanded zero c p ready h few = omega arith
  low-IsLanded (suc rounds) c p ready h few =
      let z = across dir p +ℤ pos (size_of dir (shape c)) in
      let q = set_across dir z p in
      let same = across-set_across dir z p in
      elim (Bool-cases (ltb_ℤ (across dir q) (pos 0))) [
        | inl b ↦
            let (n, e) = get_neighbor_total c q ready in
            let short = ltb_ℤ→lt _ _ b in
            let near = nearer_low _ _ _ rounds same (ready.sized c) short few in
            rw b (
              go_on-IsLanded n c q _ (land_low desk rounds fuel clients dir) e
                (λ d r f. low-IsLanded rounds d r ready (rw f short) (rw f near)))
        | inr b ↦ rw b (back_to_actual-IsOn c q (ltb_ℤ→le _ _ b) (reaches_low _ _ _ same h))
      ]

  pub high-IsLanded :
      (rounds size c : ℕ) (p : Point)
      → Ready
      → 0 < size
      → pos size ≤ℤ across dir p
      → pos_part (across dir p) < rounds
      → IsLanded (land_high desk rounds fuel clients dir size c p)
  unfolding land_high back_to_actual
  high-IsLanded zero size c p ready k h few = omega arith
  high-IsLanded (suc rounds) size c p ready k h few =
      let z = across dir p -ℤ pos size in
      let q = set_across dir z p in
      let own = size_of dir (shape c) in
      let same = across-set_across dir z p in
      elim (Bool-cases (ltb_ℤ (across dir q) (pos own))) [
        | inl b ↦ rw b (back_to_actual-IsOn c q (rw same (omega int_laws)) (ltb_ℤ→lt _ _ b))
        | inr b ↦
            let (n, e) = get_neighbor_total c q ready in
            let far = ltb_ℤ→le _ _ b in
            let near = nearer_high _ _ _ rounds same k h few in
            rw b (
              go_on-IsLanded n c q _ (land_high desk rounds fuel clients dir own) e (λ d r f.
                high-IsLanded rounds own d r ready (ready.sized c) (rw f far) (rw f near)))
      ]
