-- ===== src/Server/Neighbor.antt =====
-- getNeighbor, mapToNeighbor and avoidJumpZone. The loops take fuel; `none` is that it ran out.
use zero_flow.Prelude.{
  ℕ, zero, suc, ◌+◌, Bool, true, false, not, ◌&&◌, List, Option, some, none, ◌==◌, if◌then◌else◌,
}
use zero_flow.Prelude.Int.{ℤ, pos, ◌+ℤ◌, ◌-ℤ◌, ltb_ℤ}
use zero_flow.Server.{
  Direction, no_direction, left, right, top, bottom, Point, Shape, Desk, find_client,
}
use zero_flow.Server.Geometry.{last_x, last_y}
pub mod Search
pub mod Land
pub mod Landing
pub mod Found

-- The coordinate across the edge, and the one along it.
unfoldable pub across : Direction → Point → ℤ
across top p = p.y
across bottom p = p.y
across d p = p.x

unfoldable pub set_across : Direction → ℤ → Point → Point
set_across top z p = record p { y = z }
set_across bottom z p = record p { y = z }
set_across d z p = record p { x = z }

-- dx or dy, and dw or dh.
unfoldable pub origin_of : Direction → Shape → ℤ
origin_of top s = s.y
origin_of bottom s = s.y
origin_of d s = s.x

unfoldable pub size_of : Direction → Shape → ℕ
size_of top s = s.h
size_of bottom s = s.h
size_of d s = s.w

module _ (desk : Desk) where
  open desk use {Fraction, to_fraction, to_pixel, link, primary, name, shape, jump_zone}

  -- Server::mapToFraction
  unfoldable pub map_to_fraction : Shape → Direction → Point → Fraction
  map_to_fraction s top p = to_fraction (p.x -ℤ s.x) s.w
  map_to_fraction s bottom p = to_fraction (p.x -ℤ s.x) s.w
  map_to_fraction s d p = to_fraction (p.y -ℤ s.y) s.h

  -- Server::mapToPixel
  unfoldable pub map_to_pixel : Shape → Direction → Fraction → Point → Point
  map_to_pixel s top f p = record p { x = to_pixel f s.w +ℤ s.x }
  map_to_pixel s bottom f p = record p { x = to_pixel f s.w +ℤ s.x }
  map_to_pixel s d f p = record p { y = to_pixel f s.h +ℤ s.y }

  -- A round of getNeighbor's loop, by what the configuration and m_clients have; `rest` is the rounds
  -- behind it.
  unfoldable pub visit :
      Option (List ℕ × Fraction)
      → List (List ℕ × ℕ)
      → (List ℕ → Fraction → Option (Option (ℕ × Fraction)))
      → Option (Option (ℕ × Fraction))
  visit none clients rest = some none
  visit (some (m, u)) clients rest = elim (find_client m clients) [
    | some c ↦ some (some (c, u))
    | none ↦ rest m u
  ]

  -- The loop of getNeighbor, from the screen `n` and the place `t` at its edge.
  unfoldable pub search :
      ℕ → List (List ℕ × ℕ) → Direction → List ℕ → Fraction → Option (Option (ℕ × Fraction))
  search zero clients dir n t = none
  search (suc fuel) clients dir n t = visit (link n dir t) clients (search fuel clients dir)

  -- What getNeighbor returns: the screen that is found, and mapToPixel's point on it.
  unfoldable pub place :
      Direction → Point → Option (Option (ℕ × Fraction)) → Option (Option (ℕ × Point))
  place dir p none = none
  place dir p (some none) = some none
  place dir p (some (some (c, u))) = some (some (c, map_to_pixel (shape c) dir u p))

  -- Server::getNeighbor: the neighbor, if there is one, and the point on it.
  unfoldable pub get_neighbor :
      ℕ → List (List ℕ × ℕ) → ℕ → Direction → Point → Option (Option (ℕ × Point))
  get_neighbor fuel clients src dir p =
      place dir p (search fuel clients dir (name src) (map_to_fraction (shape src) dir p))

  -- What a loop of mapToNeighbor has found: the last good screen with the point on it, the latter
  -- still relative to that screen across the edge.
  unfoldable pub back_to_actual : Direction → ℕ → Point → ℕ × Point
  back_to_actual dir c p = (c, set_across dir (across dir p +ℤ origin_of dir (shape c)) p)

  -- The end of a round, when the point is not on the screen: `here` if there is no neighbor.
  unfoldable pub go_on :
      Option (Option (ℕ × Point))
      → ℕ × Point
      → (ℕ → Point → Option (ℕ × Point))
      → Option (ℕ × Point)
  go_on none here next = none
  go_on (some none) here next = some here
  go_on (some (some (d, r))) here next = next d r

  -- The loops for the left and the top edge, which enter screen `c` with the point `p`.
  unfoldable pub land_low : ℕ → ℕ → List (List ℕ × ℕ) → Direction → ℕ → Point → Option (ℕ × Point)
  land_low zero fuel clients dir c p = none
  land_low (suc rounds) fuel clients dir c p =
      let q = set_across dir (across dir p +ℤ pos (size_of dir (shape c))) p in
      let here = back_to_actual dir c q in
      let next =
        go_on (get_neighbor fuel clients c dir q) here (land_low rounds fuel clients dir) in
      if ltb_ℤ (across dir q) (pos 0) then next else some here

  -- Those for the right and the bottom edge, with the size of the screen that is left.
  unfoldable pub land_high :
      ℕ → ℕ → List (List ℕ × ℕ) → Direction → ℕ → ℕ → Point → Option (ℕ × Point)
  land_high zero fuel clients dir size c p = none
  land_high (suc rounds) fuel clients dir size c p =
      let q = set_across dir (across dir p -ℤ pos size) p in
      let own = size_of dir (shape c) in
      let here = back_to_actual dir c q in
      let next =
        go_on (get_neighbor fuel clients c dir q) here (land_high rounds fuel clients dir own) in
      if ltb_ℤ (across dir q) (pos own) then some here else next

  -- The `switch` of mapToNeighbor, for a source and its neighbor `c`.
  unfoldable pub land : ℕ → ℕ → List (List ℕ × ℕ) → ℕ → Direction → ℕ → Point → Option (ℕ × Point)
  land rounds fuel clients src left c p =
      land_low rounds fuel clients left c (record p { x = p.x -ℤ (shape src).x })
  land rounds fuel clients src right c p =
      land_high rounds fuel clients right (shape src).w c (record p { x = p.x -ℤ (shape src).x })
  land rounds fuel clients src top c p =
      land_low rounds fuel clients top c (record p { y = p.y -ℤ (shape src).y })
  land rounds fuel clients src bottom c p =
      land_high rounds fuel clients bottom (shape src).h c (record p { y = p.y -ℤ (shape src).y })
  land rounds fuel clients src no_direction c p = none

  -- Whether the primary screen has a neighbor at a point of one of its edges.
  unfoldable pub has_neighbor_at : Direction → Direction → Point → Bool
  has_neighbor_at side dir p =
      elim (link (name primary) side (map_to_fraction (shape primary) dir p)) [
        | none ↦ false
        | some l ↦ true
      ]

  -- The `switch` of avoidJumpZone.
  unfoldable pub move_in : Direction → Point → Point
  move_in left p =
      let most = last_x (shape primary) -ℤ pos jump_zone in
      if has_neighbor_at right left p && ltb_ℤ most p.x then record p { x = most } else p
  move_in right p =
      let least = (shape primary).x +ℤ pos jump_zone in
      if has_neighbor_at left right p && ltb_ℤ p.x least then record p { x = least } else p
  move_in top p =
      let most = last_y (shape primary) -ℤ pos jump_zone in
      if has_neighbor_at bottom top p && ltb_ℤ most p.y then record p { y = most } else p
  move_in bottom p =
      let least = (shape primary).y +ℤ pos jump_zone in
      if has_neighbor_at top bottom p && ltb_ℤ p.y least then record p { y = least } else p
  move_in no_direction p = p

  -- Server::avoidJumpZone
  unfoldable pub avoid_jump_zone : ℕ → Direction → Point → Point
  avoid_jump_zone dst dir p = if not (dst == primary) then p else move_in dir p

  -- The end of mapToNeighbor, with the screen that the loops have found.
  unfoldable pub settle : Direction → Option (ℕ × Point) → Option (Option (ℕ × Point))
  settle dir none = none
  settle dir (some (d, r)) = some (some (d, avoid_jump_zone d dir r))

  -- mapToNeighbor behind its call of getNeighbor
  unfoldable pub from_neighbor :
      ℕ
      → ℕ
      → List (List ℕ × ℕ)
      → ℕ
      → Direction
      → Option (Option (ℕ × Point))
      → Option (Option (ℕ × Point))
  from_neighbor rounds fuel clients src dir none = none
  from_neighbor rounds fuel clients src dir (some none) = some none
  from_neighbor rounds fuel clients src dir (some (some (c, q))) =
      settle dir (land rounds fuel clients src dir c q)

  -- Server::mapToNeighbor
  unfoldable pub map_to_neighbor :
      ℕ → ℕ → List (List ℕ × ℕ) → ℕ → Direction → Point → Option (Option (ℕ × Point))
  map_to_neighbor rounds fuel clients src dir p =
      from_neighbor rounds fuel clients src dir (get_neighbor fuel clients src dir p)
