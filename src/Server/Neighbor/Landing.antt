-- ===== src/Server/Neighbor/Landing.antt =====
-- The screen and the point that mapToNeighbor gives.
use zero_flow.Prelude.{ℕ, ◌+◌, ◌<◌, ◌≡◌, ◌⊎◌, inl, inr, refl, List, Option, some, none, arith}
use zero_flow.Prelude.Int.{pos, pos_part, neg_part, ◌+ℤ◌, ◌-ℤ◌, ◌≤ℤ◌, ◌<ℤ◌, int_laws}
use zero_flow.Server.{Direction, no_direction, left, right, top, bottom, Point, Shape, Desk}
use zero_flow.Server.Neighbor.{
  across, origin_of, size_of, get_neighbor, land, avoid_jump_zone, settle, from_neighbor,
  map_to_neighbor,
}
use zero_flow.Server.Neighbor.Land.{
  IsOn, IsLast, IsLanded, Ready, across-get_neighbor, get_neighbor_total, low-IsLanded,
  high-IsLanded,
}

-- The point is beyond the edge of the screen that the cursor leaves.
abbrev pub IsBeyond : Direction → Shape → Point → Type 0
IsBeyond no_direction s p = ⊥
IsBeyond left s p = p.x <ℤ s.x
IsBeyond right s p = s.x +ℤ pos s.w ≤ℤ p.x
IsBeyond top s p = p.y <ℤ s.y
IsBeyond bottom s p = s.y +ℤ pos s.h ≤ℤ p.y

-- How many pixels the point is from the screen's origin, across the edge.
abbrev pub distance : Direction → Shape → Point → ℕ
distance dir s p =
    pos_part (across dir p -ℤ origin_of dir s) + neg_part (across dir p -ℤ origin_of dir s)

IsBeyond-across :
    (dir : Direction) (s : Shape) (p q : Point)
    → across dir q ≡ across dir p
    → IsBeyond dir s p
    → IsBeyond dir s q
unfolding across
IsBeyond-across no_direction s p q e h = h
IsBeyond-across left s p q e h = rw e h
IsBeyond-across right s p q e h = rw e h
IsBeyond-across top s p q e h = rw e h
IsBeyond-across bottom s p q e h = rw e h

module _ (desk : Desk) (fuel : ℕ) (clients : List (List ℕ × ℕ)) where
  open desk use {shape}

  land-IsLanded :
      (dir : Direction) (rounds src c : ℕ) (q : Point)
      → Ready desk fuel clients dir
      → IsBeyond dir (shape src) q
      → distance dir (shape src) q < rounds
      → IsLanded desk fuel clients dir (land desk rounds fuel clients src dir c q)
  unfolding across origin_of size_of land
  land-IsLanded no_direction rounds src c q ready h few = absurd h
  land-IsLanded left rounds src c q ready h few =
      low-IsLanded desk fuel clients left rounds c _ ready (omega (int_laws, h))
        (omega (arith, few))
  land-IsLanded right rounds src c q ready h few =
      high-IsLanded desk fuel clients right rounds (shape src).w c _ ready (ready.sized src)
        (omega (int_laws, h)) (omega (arith, few))
  land-IsLanded top rounds src c q ready h few =
      low-IsLanded desk fuel clients top rounds c _ ready (omega (int_laws, h)) (omega (arith, few))
  land-IsLanded bottom rounds src c q ready h few =
      high-IsLanded desk fuel clients bottom rounds (shape src).h c _ ready (ready.sized src)
        (omega (int_laws, h)) (omega (arith, few))

  settle-IsLanded :
      (dir : Direction) (l : Option (ℕ × Point))
      → IsLanded desk fuel clients dir l
      → (d : ℕ) × (r : Point) × (settle desk dir l ≡ some (some (d, avoid_jump_zone desk d dir r)))
        × (IsOn desk fuel clients dir d r ⊎ IsLast desk fuel clients dir d)
  unfolding settle
  settle-IsLanded dir none h = absurd h
  settle-IsLanded dir (some (d, r)) h = (d, r, refl, h)

  -- What mapToNeighbor gives: nothing if there is no neighbor, or else a screen where the point lies.
  abbrev pub Lands : Direction → ℕ → Point → Option (Option (ℕ × Point)) → Type 0
  Lands dir src p m =
      ((get_neighbor desk fuel clients src dir p ≡ some none) × (m ≡ some none))
      ⊎ ((d : ℕ) × (r : Point) × (m ≡ some (some (d, avoid_jump_zone desk d dir r)))
          × (IsOn desk fuel clients dir d r ⊎ IsLast desk fuel clients dir d))

  -- From a point beyond the edge of a screen, mapToNeighbor ends. It finds nothing if the screen has
  -- no neighbor there. Else the point that it gives, before avoidJumpZone moves it in, lies across the
  -- edge within the screen that it gives, or getNeighbor finds none behind that screen from a point.
  -- Every screen has a size, the links over unconnected screens end, and there are more rounds than
  -- pixels to go.
  pub map_to_neighbor-Lands :
      (dir : Direction) (rounds src : ℕ) (p : Point)
      → Ready desk fuel clients dir
      → IsBeyond dir (shape src) p
      → distance dir (shape src) p < rounds
      → Lands dir src p (map_to_neighbor desk rounds fuel clients src dir p)
  unfolding map_to_neighbor from_neighbor
  map_to_neighbor-Lands dir rounds src p ready h few =
      let (n, e) = get_neighbor_total desk fuel clients dir src p ready in entered n e
    where
      entered :
          (n : Option (ℕ × Point))
          → get_neighbor desk fuel clients src dir p ≡ some n
          → Lands dir src p (map_to_neighbor desk rounds fuel clients src dir p)
      entered none e = inl (e, rw e refl)
      entered (some (c, q)) e =
          let same = across-get_neighbor desk fuel clients dir src p c q e in
          let (d, r, f, k) = settle-IsLanded dir _ (
            land-IsLanded dir rounds src c q ready (IsBeyond-across dir (shape src) p q same h)
              (rw same few)) in
          inr (d, r, rw e f, k)
