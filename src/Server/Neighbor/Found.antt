-- ===== src/Server/Neighbor/Found.antt =====
-- The screens that getNeighbor and mapToNeighbor find among the clients.
use zero_flow.Prelude.{ℕ, zero, suc, ◌≡◌, inl, inr, refl, List, Option, some, none, Bool-cases}
use zero_flow.Prelude.Int.{pos, ◌+ℤ◌, ◌-ℤ◌, ltb_ℤ}
use zero_flow.Server.{Direction, no_direction, left, right, top, bottom, Point, Desk, find_client}
use zero_flow.Server.Neighbor.Search.{search-find_client}
use zero_flow.Server.Neighbor.{
  across, set_across, size_of, place, get_neighbor, back_to_actual, go_on, land_low, land_high,
  land, settle, from_neighbor, map_to_neighbor,
}

module _ (desk : Desk) (fuel : ℕ) (clients : List (List ℕ × ℕ)) where
  open desk use {Fraction, name, shape}

  abbrev pub IsFound : ℕ → Type 0
  IsFound d = (m : List ℕ) × (find_client m clients ≡ some d)

  abbrev pub AreFound : Option (Option (ℕ × Point)) → Type 0
  AreFound none = Unit
  AreFound (some none) = Unit
  AreFound (some (some (d, q))) = IsFound d

  place-AreFound :
      (dir : Direction) (p : Point) (f : Option (Option (ℕ × Fraction)))
      → ((c : ℕ) (u : Fraction) → f ≡ some (some (c, u)) → IsFound c)
      → AreFound (place desk dir p f)
  unfolding place
  place-AreFound dir p none k = tt
  place-AreFound dir p (some none) k = tt
  place-AreFound dir p (some (some (c, u))) k = k c u refl

  -- A neighbor is a connected screen.
  pub get_neighbor-AreFound :
      (src : ℕ) (dir : Direction) (p : Point) → AreFound (get_neighbor desk fuel clients src dir p)
  unfolding get_neighbor
  get_neighbor-AreFound src dir p =
      place-AreFound dir p _ (λ c u e. search-find_client desk clients dir fuel _ _ c u e)

  abbrev IsFoundAt : Option (ℕ × Point) → Type 0
  IsFoundAt none = Unit
  IsFoundAt (some (d, q)) = IsFound d

  go_on-IsFoundAt :
      (n : Option (Option (ℕ × Point))) (here : ℕ × Point) (next : ℕ → Point → Option (ℕ × Point))
      → AreFound n
      → IsFound here.0
      → ((d : ℕ) (q : Point) → IsFound d → IsFoundAt (next d q))
      → IsFoundAt (go_on desk n here next)
  unfolding go_on
  go_on-IsFoundAt none here next f h k = tt
  go_on-IsFoundAt (some none) here next f h k = h
  go_on-IsFoundAt (some (some (d, q))) here next f h k = k d q f

  low-IsFoundAt :
      (rounds : ℕ) (dir : Direction) (c : ℕ) (p : Point)
      → IsFound c
      → IsFoundAt (land_low desk rounds fuel clients dir c p)
  unfolding land_low back_to_actual
  low-IsFoundAt zero dir c p h = tt
  low-IsFoundAt (suc rounds) dir c p h =
      let q = set_across dir (across dir p +ℤ pos (size_of dir (shape c))) p in
      elim (Bool-cases (ltb_ℤ (across dir q) (pos 0))) [
        | inl b ↦ rw b (
            go_on-IsFoundAt _ _ _ (get_neighbor-AreFound c dir q) h
              (λ d r k. low-IsFoundAt rounds dir d r k))
        | inr b ↦ rw b h
      ]

  high-IsFoundAt :
      (rounds : ℕ) (dir : Direction) (size c : ℕ) (p : Point)
      → IsFound c
      → IsFoundAt (land_high desk rounds fuel clients dir size c p)
  unfolding land_high back_to_actual
  high-IsFoundAt zero dir size c p h = tt
  high-IsFoundAt (suc rounds) dir size c p h =
      let q = set_across dir (across dir p -ℤ pos size) p in
      let own = size_of dir (shape c) in
      elim (Bool-cases (ltb_ℤ (across dir q) (pos own))) [
        | inr b ↦ rw b (
            go_on-IsFoundAt _ _ _ (get_neighbor-AreFound c dir q) h
              (λ d r k. high-IsFoundAt rounds dir own d r k))
        | inl b ↦ rw b h
      ]

  land-IsFoundAt :
      (rounds src : ℕ) (dir : Direction) (c : ℕ) (p : Point)
      → IsFound c
      → IsFoundAt (land desk rounds fuel clients src dir c p)
  unfolding land
  land-IsFoundAt rounds src no_direction c p h = tt
  land-IsFoundAt rounds src left c p h = low-IsFoundAt rounds left c _ h
  land-IsFoundAt rounds src right c p h = high-IsFoundAt rounds right _ c _ h
  land-IsFoundAt rounds src top c p h = low-IsFoundAt rounds top c _ h
  land-IsFoundAt rounds src bottom c p h = high-IsFoundAt rounds bottom _ c _ h

  settle-AreFound :
      (dir : Direction) (l : Option (ℕ × Point)) → IsFoundAt l → AreFound (settle desk dir l)
  unfolding settle
  settle-AreFound dir none h = tt
  settle-AreFound dir (some (d, r)) h = h

  from_neighbor-AreFound :
      (rounds src : ℕ) (dir : Direction) (n : Option (Option (ℕ × Point)))
      → AreFound n
      → AreFound (from_neighbor desk rounds fuel clients src dir n)
  unfolding from_neighbor
  from_neighbor-AreFound rounds src dir none h = tt
  from_neighbor-AreFound rounds src dir (some none) h = tt
  from_neighbor-AreFound rounds src dir (some (some (c, q))) h =
      settle-AreFound dir _ (land-IsFoundAt rounds src dir c q h)

  -- The screen that mapToNeighbor gives is connected.
  pub map_to_neighbor-AreFound :
      (rounds src : ℕ) (dir : Direction) (p : Point)
      → AreFound (map_to_neighbor desk rounds fuel clients src dir p)
  unfolding map_to_neighbor
  map_to_neighbor-AreFound rounds src dir p =
      from_neighbor-AreFound rounds src dir _ (get_neighbor-AreFound src dir p)
