-- ===== src/Server/Moves.antt =====
-- Where the cursor goes when the mouse moves: onMouseMovePrimary and onMouseMoveSecondary. `none` is
-- that the fuel of mapToNeighbor ran out.
use zero_flow.Prelude.{
  ℕ, Bool, true, false, not, ◌&&◌, ◌||◌, List, [], ◌∷◌, ◌++◌, Option, some, none, ◌==◌,
  if◌then◌else◌,
}
use zero_flow.Prelude.Int.{ℤ, pos, ◌+ℤ◌, ◌-ℤ◌, ltb_ℤ}
use zero_flow.Server.{
  Direction, no_direction, left, right, top, bottom, Point, origin, Shape, Desk, Server, Effect,
  mouse_move, relative_move, has_client,
}
use zero_flow.Server.Geometry.{last_x, last_y}
use zero_flow.Server.Neighbor.{map_to_neighbor}
use zero_flow.Server.Switch.{is_some, no_switch, is_switch_okay}
use zero_flow.Server.Screens.{switch_screen}
pub mod Clamp
pub mod Primary
pub mod Waits
pub mod Connected

-- A coordinate within `zone` of an edge goes to the edge, for a screen's origin and size.
unfoldable pub snap : ℤ → ℕ → ℕ → ℤ → ℤ
snap at size zone z =
    if ltb_ℤ z (at +ℤ pos zone)
    then at
    else if not (ltb_ℤ z (at +ℤ pos size -ℤ pos zone))
    then at +ℤ pos size -ℤ pos 1
    else z

unfoldable pub snap_to : Shape → ℕ → Point → Point
snap_to a zone p = record { x = snap a.x a.w zone p.x; y = snap a.y a.h zone p.y }

-- The edges within `zone` of which a point is: left or right, and top or bottom.
unfoldable pub side_h : Shape → ℕ → Point → Direction
side_h a zone p =
    if ltb_ℤ p.x (a.x +ℤ pos zone)
    then left
    else if not (ltb_ℤ p.x (a.x +ℤ pos a.w -ℤ pos zone))
    then right
    else no_direction

unfoldable pub side_v : Shape → ℕ → Point → Direction
side_v a zone p =
    if ltb_ℤ p.y (a.y +ℤ pos zone)
    then top
    else if not (ltb_ℤ p.y (a.y +ℤ pos a.h -ℤ pos zone))
    then bottom
    else no_direction

-- The point that onMouseMovePrimary maps: `zone` beyond the place of the cursor.
unfoldable pub reach : Direction → ℕ → Point → Point
reach left zone p = record p { x = p.x -ℤ pos zone }
reach right zone p = record p { x = p.x +ℤ pos zone }
reach top zone p = record p { y = p.y -ℤ pos zone }
reach bottom zone p = record p { y = p.y +ℤ pos zone }
reach no_direction zone p = p

-- The edge of a secondary screen that a point is beyond.
unfoldable pub exit_side : Shape → Point → Direction
exit_side a p =
    if ltb_ℤ p.x a.x
    then left
    else if ltb_ℤ (last_x a) p.x
    then right
    else if ltb_ℤ p.y a.y
    then top
    else if ltb_ℤ (last_y a) p.y
    then bottom
    else no_direction

-- The clamp at the end of onMouseMoveSecondary, for one coordinate and its bounds.
unfoldable pub clamp : ℤ → ℤ → ℤ → ℤ
clamp low high z = if ltb_ℤ z low then low else if ltb_ℤ high z then high else z

unfoldable pub clamp_to : Shape → Point → Point
clamp_to a p = record { x = clamp a.x (last_x a) p.x; y = clamp a.y (last_y a) p.y }

-- Whether a wait at an edge is over, for a cursor within the screen.
unfoldable pub clears_wait : Direction → Shape → ℕ → Point → Bool
clears_wait left a zone p = not (ltb_ℤ p.x (a.x +ℤ pos zone))
clears_wait right a zone p = not (ltb_ℤ (last_x a -ℤ pos zone) p.x)
clears_wait top a zone p = not (ltb_ℤ p.y (a.y +ℤ pos zone))
clears_wait bottom a zone p = not (ltb_ℤ (last_y a +ℤ pos zone) p.y)
clears_wait no_direction a zone p = false

unfoldable pub same_point : Point → Point → Bool
same_point p q = not (ltb_ℤ p.x q.x || ltb_ℤ q.x p.x) && not (ltb_ℤ p.y q.y || ltb_ℤ q.y p.y)

unfoldable pub plus : Point → Point → Point
plus p d = record { x = p.x +ℤ d.x; y = p.y +ℤ d.y }

unfoldable pub minus : Point → Point → Point
minus p d = record { x = p.x -ℤ d.x; y = p.y -ℤ d.y }

-- The deltas and the position that a move records.
unfoldable pub record_move : Point → Point → Server → Server
record_move d p s = record s { delta2 = s.delta; delta = d; position = p }

module _ (desk : Desk) (rounds fuel : ℕ) where
  open desk use {primary, shape, jump_zone, cursor_pos}

  -- A screen to switch to, if the switch is okay: the state behind isSwitchOkay, and the switch.
  unfoldable pub switch_if : Option (ℕ × Point) → Server × Bool → Server × Option (ℕ × Point)
  switch_if new (s, false) = (s, none)
  switch_if new (s, true) = (s, new)

  -- mapToNeighbor and isSwitchOkay, for the point `p` beyond an edge and the clamped point `at`.
  unfoldable pub judge :
      Option (Option (ℕ × Point))
      → Direction
      → Point
      → Point
      → Server
      → Option (Server × Option (ℕ × Point))
  judge none dir p at s = none
  judge (some none) dir p at s = some (switch_if none (is_switch_okay desk none dir p at s))
  judge (some (some (c, q))) dir p at s =
      some (switch_if (some (c, q)) (is_switch_okay desk (some c) dir q at s))

  unfoldable pub try_edge :
      Direction → Point → Point → Server → Option (Server × Option (ℕ × Point))
  try_edge no_direction p at s = some (s, none)
  try_edge dir p at s = judge (map_to_neighbor desk rounds fuel s.clients s.active dir p) dir p at s

  -- The loop of onMouseMovePrimary over the two directions: the second, if the first is no switch.
  unfoldable pub try_next :
      Option (Server × Option (ℕ × Point))
      → Direction
      → Point
      → Point
      → Option (Server × Option (ℕ × Point))
  try_next none dir p at = none
  try_next (some (s, some to)) dir p at = some (s, some to)
  try_next (some (s, none)) dir p at = try_edge dir p at s

  unfoldable pub follow : Option (Server × Option (ℕ × Point)) → Option (Server × List Effect)
  follow none = none
  follow (some (s, none)) = some (s, [])
  follow (some (s, some (c, p))) = some (switch_screen desk c p false s)

  -- onMouseMovePrimary, by the edges that the cursor is at
  unfoldable pub move_by :
      Direction
      → Direction
      → Server
      → Option (Server × Option (ℕ × Point))
      → Option (Server × List Effect)
  move_by no_direction no_direction stays tried = some (stays, [])
  move_by h v stays tried = follow tried

  -- onMouseMovePrimary behind its first return
  unfoldable pub move_primary : Point → Server → Option (Server × List Effect)
  move_primary p s =
      let a = shape s.active in
      let t = record_move (minus p s.position) p s in
      let at = snap_to a jump_zone p in
      let h = side_h a jump_zone p in
      let v = side_v a jump_zone p in
      move_by h v (no_switch desk p t)
        (try_next (try_edge h (reach h jump_zone p) at t) v (reach v jump_zone p) at)

  -- Server::onMouseMovePrimary
  unfoldable pub on_mouse_move_primary : Point → Server → Option (Server × List Effect)
  on_mouse_move_primary p s = if not (s.active == primary) then some (s, []) else move_primary p s

  -- The cursor stays on the screen: `old` is where it was.
  unfoldable pub stay : Point → Point → Server → Server × List Effect
  stay old p s =
      let q = clamp_to (shape s.active) p in
      (record s { position = q }, if same_point q old then [] else mouse_move s.active q ∷ [])

  unfoldable pub stay_or_follow :
      Point → Point → Option (Server × Option (ℕ × Point)) → Option (Server × List Effect)
  stay_or_follow old p none = none
  stay_or_follow old p (some (s, none)) = some (stay old p s)
  stay_or_follow old p (some (s, some (c, q))) = some (switch_screen desk c q false s)

  -- onMouseMoveSecondary for a cursor that has not left the screen
  unfoldable pub rest : Point → Server → Server
  rest p s =
      if is_some s.switching.screen && clears_wait s.switching.dir (shape s.active) jump_zone p
      then no_switch desk p s
      else s

  unfoldable pub leave_by : Direction → Point → Server → Option (Server × Option (ℕ × Point))
  leave_by no_direction p s = some (rest p s, none)
  leave_by dir p s = try_edge dir p (snap_to (shape s.active) 0 p) s

  -- onMouseMoveSecondary behind its returns
  unfoldable pub move_secondary : Point → Server → Option (Server × List Effect)
  move_secondary d s =
      let p = plus s.position d in
      let t = record_move d p s in
      stay_or_follow s.position p (leave_by (exit_side (shape s.active) p) p t)

  -- Server::onMouseMoveSecondary, with no multiplier in the environment
  unfoldable pub on_mouse_move_secondary : Point → Server → Option (Server × List Effect)
  on_mouse_move_secondary d s =
      if s.active == primary
      then some (s, [])
      else if s.settings.relative_moves && s.locked
      then some (s, relative_move s.active d ∷ [])
      else move_secondary d s

  -- handleShapeChanged behind its guard, for the position of the cursor on the screen
  unfoldable pub shape_changed : ℕ → Point → Server → Option (Server × List Effect)
  shape_changed c p s =
      let kept = record s { jump_pos = λ d. if d == c then p else s.jump_pos d } in
      let t = if c == s.active then record kept { position = p } else kept in
      if not (c == primary)
      then some (t, [])
      else if c == s.active
      then on_mouse_move_primary t.position t
      else on_mouse_move_secondary origin t

  -- Server::handleShapeChanged
  unfoldable pub handle_shape_changed : ℕ → Server → Option (Server × List Effect)
  handle_shape_changed c s =
      if not (has_client c s.client_set) then some (s, []) else shape_changed c (cursor_pos c) s
