-- ===== src/Server/Moves/Primary.antt =====
-- avoidJumpZone against the edge tests of onMouseMovePrimary.
use zero_flow.Prelude.{ℕ, ◌≡◌, ◌≢◌, ◌<◌, inl, inr, refl, true, eq→==, Bool-cases}
use zero_flow.Prelude.Int.{
  ℤ, pos, ◌+ℤ◌, ◌-ℤ◌, ◌≤ℤ◌, ◌<ℤ◌, ltb_ℤ, ltb_ℤ→le, lt→ltb_ℤ, le→ltb_ℤ, int_laws,
}
use zero_flow.Server.{Direction, no_direction, left, right, top, bottom, Point, Shape, Desk}
use zero_flow.Server.Geometry.{last_x, last_y}
use zero_flow.Server.Neighbor.{
  across, origin_of, size_of, has_neighbor_at, move_in, avoid_jump_zone,
}
use zero_flow.Server.Moves.{side_h, side_v}

abbrev pub opposite : Direction → Direction
opposite left = right
opposite right = left
opposite top = bottom
opposite bottom = top
opposite no_direction = no_direction

-- The edge that onMouseMovePrimary finds the cursor at, in the axis of a direction.
abbrev pub side_of : Direction → Shape → ℕ → Point → Direction
side_of top a zone p = side_v a zone p
side_of bottom a zone p = side_v a zone p
side_of d a zone p = side_h a zone p

-- The coordinate along the edge
abbrev pub along : Direction → Point → ℤ
along top p = p.x
along bottom p = p.x
along d p = p.y

-- The point is on the screen, across an edge.
abbrev pub IsOnAcross : Direction → Shape → Point → Type 0
IsOnAcross d a p =
    (origin_of d a ≤ℤ across d p) × (across d p <ℤ origin_of d a +ℤ pos (size_of d a))

not_right :
    (a : Shape) (zone : ℕ) (p : Point) → p.x <ℤ a.x +ℤ pos a.w -ℤ pos zone → side_h a zone p ≢ right
unfolding side_h
not_right a zone p h = rw (lt→ltb_ℤ _ _ h) (elim (Bool-cases (ltb_ℤ p.x (a.x +ℤ pos zone))) [
  | inl e ↦ rw e (λ k. cc k)
  | inr e ↦ rw e (λ k. cc k)
])

not_left : (a : Shape) (zone : ℕ) (p : Point) → a.x +ℤ pos zone ≤ℤ p.x → side_h a zone p ≢ left
unfolding side_h
not_left a zone p h =
    rw (le→ltb_ℤ _ _ h) (elim (Bool-cases (ltb_ℤ p.x (a.x +ℤ pos a.w -ℤ pos zone))) [
      | inl e ↦ rw e (λ k. cc k)
      | inr e ↦ rw e (λ k. cc k)
    ])

not_bottom :
    (a : Shape) (zone : ℕ) (p : Point)
    → p.y <ℤ a.y +ℤ pos a.h -ℤ pos zone
    → side_v a zone p ≢ bottom
unfolding side_v
not_bottom a zone p h = rw (lt→ltb_ℤ _ _ h) (elim (Bool-cases (ltb_ℤ p.y (a.y +ℤ pos zone))) [
  | inl e ↦ rw e (λ k. cc k)
  | inr e ↦ rw e (λ k. cc k)
])

not_top : (a : Shape) (zone : ℕ) (p : Point) → a.y +ℤ pos zone ≤ℤ p.y → side_v a zone p ≢ top
unfolding side_v
not_top a zone p h =
    rw (le→ltb_ℤ _ _ h) (elim (Bool-cases (ltb_ℤ p.y (a.y +ℤ pos a.h -ℤ pos zone))) [
      | inl e ↦ rw e (λ k. cc k)
      | inr e ↦ rw e (λ k. cc k)
    ])

module _ (desk : Desk) where
  open desk use {primary, shape, jump_zone}

  abbrev pub IsClear : Direction → Point → Point → Type 0
  IsClear dir p q =
      (side_of dir (shape primary) jump_zone q ≢ opposite dir)
      × IsOnAcross dir (shape primary) q
      × (along dir q ≡ along dir p)

  move_in-IsClear :
      (dir : Direction) (p : Point)
      → dir ≢ no_direction
      → has_neighbor_at desk (opposite dir) dir p ≡ true
      → jump_zone < size_of dir (shape primary)
      → IsOnAcross dir (shape primary) p
      → IsClear dir p (move_in desk dir p)
  unfolding move_in size_of across origin_of
  move_in-IsClear no_direction p k n small on = absurd (k refl)
  move_in-IsClear left p k n small (low, high) =
      rw n (elim (Bool-cases (ltb_ℤ (last_x (shape primary) -ℤ pos jump_zone) p.x)) [
        | inl e ↦ rw e (
          not_right (shape primary) jump_zone _ (omega int_laws),
          (omega int_laws, omega int_laws),
          refl,
        )
        | inr e ↦
            let k = ltb_ℤ→le _ _ e in
            rw e (not_right (shape primary) jump_zone p (omega (int_laws, k)), (low, high), refl)
      ])
  move_in-IsClear right p k n small (low, high) =
      rw n (elim (Bool-cases (ltb_ℤ p.x ((shape primary).x +ℤ pos jump_zone))) [
        | inl e ↦ rw e (
          not_left (shape primary) jump_zone _ (omega int_laws),
          (omega int_laws, omega int_laws),
          refl,
        )
        | inr e ↦
            let k = ltb_ℤ→le _ _ e in
            rw e (not_left (shape primary) jump_zone p (omega (int_laws, k)), (low, high), refl)
      ])
  move_in-IsClear top p k n small (low, high) =
      rw n (elim (Bool-cases (ltb_ℤ (last_y (shape primary) -ℤ pos jump_zone) p.y)) [
        | inl e ↦ rw e (
          not_bottom (shape primary) jump_zone _ (omega int_laws),
          (omega int_laws, omega int_laws),
          refl,
        )
        | inr e ↦
            let k = ltb_ℤ→le _ _ e in
            rw e (not_bottom (shape primary) jump_zone p (omega (int_laws, k)), (low, high), refl)
      ])
  move_in-IsClear bottom p k n small (low, high) =
      rw n (elim (Bool-cases (ltb_ℤ p.y ((shape primary).y +ℤ pos jump_zone))) [
        | inl e ↦ rw e (
          not_top (shape primary) jump_zone _ (omega int_laws),
          (omega int_laws, omega int_laws),
          refl,
        )
        | inr e ↦
            let k = ltb_ℤ→le _ _ e in
            rw e (not_top (shape primary) jump_zone p (omega (int_laws, k)), (low, high), refl)
      ])

  -- A cursor that comes to the primary screen over an edge behind which the screen has a neighbor, at
  -- a point within the screen across that edge, is put at a point within it at which onMouseMovePrimary
  -- does not find it at that edge; and it is not moved along the edge. The jump zone is smaller than
  -- the screen.
  pub avoid_jump_zone-IsClear :
      (dir : Direction) (p : Point)
      → dir ≢ no_direction
      → has_neighbor_at desk (opposite dir) dir p ≡ true
      → jump_zone < size_of dir (shape primary)
      → IsOnAcross dir (shape primary) p
      → IsClear dir p (avoid_jump_zone desk primary dir p)
  unfolding avoid_jump_zone
  avoid_jump_zone-IsClear dir p k n small on =
      rw (eq→== primary primary refl) (move_in-IsClear dir p k n small on)
