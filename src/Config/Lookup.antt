-- ===== src/Config/Lookup.antt =====
-- getLink on links whose edges do not overlap.
use zero_flow.Prelude.{
  ℕ, ◌<◌, ◌≤◌, ◌≡◌, ◌⊎◌, refl, true, false, List, [], ◌∷◌, ◌++◌, All, Option, some, none, arith,
  eq→==,
}
use zero_flow.Config.{CellEdge, is_inside}
use zero_flow.Config.Links.{Links, edge_lt, link_before, link_from, get_link}
use zero_flow.Config.Overlaps.{is_inside-le}

-- `x` lies before `y`, with no position in common.
abbrev pub IsBelow : CellEdge → CellEdge → Type 0
IsBelow x y = (x.side < y.side) ⊎ ((x.side ≡ y.side) × (x.end ≤ y.start))

-- The edges have positions, and lie one before the other.
abbrev pub AreLinks : Links → Type 0
AreLinks [] = Unit
AreLinks (l ∷ ls) =
    (l.0.start < l.0.end) × (All (λ (m : CellEdge × CellEdge). IsBelow l.0 m.0) ls × AreLinks ls)

All-at {ℓ κ} :
    {A : Type ℓ} (P : A → Type κ) (xs : List A) (y : A) (ys : List A) → All P (xs ++ (y ∷ ys)) → P y
All-at P [] y ys h = h.0
All-at P (x ∷ xs) y ys h = All-at P xs y ys h.1

-- The position lies before an edge above one that it is inside of, and behind one that is below.
edge_lt-IsBelow :
    (x y : CellEdge) (position : ℕ)
    → is_inside position x ≡ true
    → IsBelow x y
    → edge_lt (record { name = []; side = x.side; start = position; end = position }) y ≡ true
unfolding edge_lt
edge_lt-IsBelow x y position h b = let i = is_inside-le position x h in ground (arith, i.0, i.1, b)

not_edge_lt-IsBelow :
    (x y : CellEdge) (position : ℕ)
    → x.start < x.end
    → is_inside position y ≡ true
    → IsBelow x y
    → edge_lt (record { name = []; side = y.side; start = position; end = position }) x ≡ false
unfolding edge_lt
not_edge_lt-IsBelow x y position e h b =
    let i = is_inside-le position y h in ground (arith, i.0, i.1, b)

not_edge_lt-inside :
    (y : CellEdge) (position : ℕ)
    → is_inside position y ≡ true
    → edge_lt (record { name = []; side = y.side; start = position; end = position }) y ≡ false
unfolding edge_lt
not_edge_lt-inside y position h = let i = is_inside-le position y h in ground (arith, i.0, i.1)

module _ (l : CellEdge × CellEdge) (position : ℕ) (inside : is_inside position l.0 ≡ true) where
  found : link_before l.0.side position (some l) ≡ some l
  unfolding link_before
  found = rw (eq→== l.0.side l.0.side refl, inside) refl

  found_before :
      (ys : Links)
      → All (λ (m : CellEdge × CellEdge). IsBelow l.0 m.0) ys
      → link_from l.0.side position (some l) ys ≡ some l
  unfolding link_from
  found_before [] b = found
  found_before (y ∷ ys) b = rw (edge_lt-IsBelow l.0 y.0 position inside b.0) found

  passed :
      (xs ys : Links) (before : Option (CellEdge × CellEdge))
      → AreLinks (xs ++ (l ∷ ys))
      → link_from l.0.side position before (xs ++ (l ∷ ys)) ≡ some l
  unfolding link_from
  passed [] ys before v = rw (not_edge_lt-inside l.0 position inside) (found_before ys v.1.0)
  passed (x ∷ xs) ys before v =
      rw
        (not_edge_lt-IsBelow x.0 l.0 position v.0 inside
          (All-at (λ (m : CellEdge × CellEdge). IsBelow x.0 m.0) xs l ys v.1.0))
        (passed xs ys (some x) v.1.1)

  -- getLink finds the link whose edge the position is inside of, wherever it stands among the links,
  -- if the links' edges have positions and lie one before the other.
  pub get_link_lem :
      (xs ys : Links)
      → AreLinks (xs ++ (l ∷ ys))
      → get_link l.0.side position (xs ++ (l ∷ ys)) ≡ some l
  unfolding get_link
  get_link_lem xs ys v = passed xs ys none v
