-- ===== src/Server/Moves/Clamp.antt =====
-- onMouseMoveSecondary: where a move on a secondary screen leads.
use zero_flow.Prelude.{
  ℕ, ◌≡◌, ◌≢◌, ◌⊎◌, ◌<◌, inl, inr, refl, sym, ap, ◌∙◌, true, false, not, ◌&&◌, List, Option, some,
  none, ne→==, Bool-cases, arith,
}
use zero_flow.Prelude.Int.{ℤ, ◌≤ℤ◌, ltb_ℤ, ltb_ℤ→lt, ltb_ℤ→le, int_laws}
use zero_flow.Server.{
  Direction, no_direction, left, right, top, bottom, Point, Shape, Desk, Server, Effect,
}
use zero_flow.Server.Geometry.{last_x, last_y}
use zero_flow.Server.Switch.{
  stop_switch, no_switch, in_locked_corner, is_locked, prevents, is_switch_okay,
}
use zero_flow.Server.Switch.Okay.{may_leave, is_switch_okay-may_leave}
use zero_flow.Server.Neighbor.{size_of, map_to_neighbor}
use zero_flow.Server.Neighbor.Land.{Ready}
use zero_flow.Server.Neighbor.Landing.{IsBeyond, distance, Lands, map_to_neighbor-Lands}
use zero_flow.Server.Screens.{switch_screen}
use zero_flow.Server.Moves.{
  snap_to, exit_side, clamp, clamp_to, plus, switch_if, judge, try_edge, record_move, stay,
  stay_or_follow, rest, leave_by, move_secondary, on_mouse_move_secondary,
}

-- The point is on the screen.
abbrev pub IsWithin : Shape → Point → Type 0
IsWithin a p = (a.x ≤ℤ p.x) × (p.x ≤ℤ last_x a) × (a.y ≤ℤ p.y) × (p.y ≤ℤ last_y a)

clamp_bounds :
    (low high z : ℤ) → low ≤ℤ high → (low ≤ℤ clamp low high z) × (clamp low high z ≤ℤ high)
unfolding clamp
clamp_bounds low high z h = elim (Bool-cases (ltb_ℤ z low)) [
  | inl e ↦ rw e (omega arith, h)
  | inr e ↦ elim (Bool-cases (ltb_ℤ high z)) [
    | inl f ↦ rw (e, f) (h, omega arith)
    | inr f ↦ rw (e, f) (ltb_ℤ→le _ _ e, ltb_ℤ→le _ _ f)
  ]
]

pub clamp_to-IsWithin : (a : Shape) (p : Point) → 0 < a.w → 0 < a.h → IsWithin a (clamp_to a p)
unfolding clamp_to
clamp_to-IsWithin a p w h =
    let (low, high) = clamp_bounds a.x (last_x a) p.x (omega int_laws) in
    let (upper, lower) = clamp_bounds a.y (last_y a) p.y (omega int_laws) in
    (low, high, upper, lower)

-- A point that is beyond no edge but for those that exit_side names.
exit_side-IsBeyond :
    (a : Shape) (p : Point) → (exit_side a p ≡ no_direction) ⊎ IsBeyond (exit_side a p) a p
unfolding exit_side
exit_side-IsBeyond a p = elim (Bool-cases (ltb_ℤ p.x a.x)) [
  | inl e ↦ rw e (inr (ltb_ℤ→lt _ _ e))
  | inr e ↦ elim (Bool-cases (ltb_ℤ (last_x a) p.x)) [
    | inl f ↦ let k = ltb_ℤ→lt _ _ f in rw (e, f) (inr (omega (int_laws, k)))
    | inr f ↦ elim (Bool-cases (ltb_ℤ p.y a.y)) [
      | inl g ↦ rw (e, f, g) (inr (ltb_ℤ→lt _ _ g))
      | inr g ↦ elim (Bool-cases (ltb_ℤ (last_y a) p.y)) [
        | inl h ↦ let k = ltb_ℤ→lt _ _ h in rw (e, f, g, h) (inr (omega (int_laws, k)))
        | inr h ↦ rw (e, f, g, h) (inl refl)
      ]
    ]
  ]
]

module _ (desk : Desk) (rounds fuel : ℕ) where
  open desk use {primary, shape}

  -- How the edge is judged: the cursor stays on the active screen of `s`, or may leave it for the screen
  -- and the point that mapToNeighbor gives for `p`.
  abbrev IsJudged :
      Server → Direction → Point → Point → Option (Server × Option (ℕ × Point)) → Type 0
  IsJudged s dir p at none = ⊥
  IsJudged s dir p at (some (u, none)) = u.active ≡ s.active
  IsJudged s dir p at (some (u, some (c, q))) =
      (u.active ≡ s.active)
      × (map_to_neighbor desk rounds fuel s.clients s.active dir p ≡ some (some (c, q)))
      × (may_leave desk (some c) dir at s ≡ true)

  -- mapToNeighbor ends
  abbrev Ends : Server → Direction → Point → Type 0
  Ends s dir p = map_to_neighbor desk rounds fuel s.clients s.active dir p ≢ none

  judge-IsJudged :
      (n : Option (Option (ℕ × Point))) (dir : Direction) (p at : Point) (s : Server)
      → n ≢ none
      → map_to_neighbor desk rounds fuel s.clients s.active dir p ≡ n
      → IsJudged s dir p at (judge desk rounds fuel n dir p at s)
  unfolding judge switch_if is_switch_okay
  judge-IsJudged none dir p at s k e = absurd (k refl)
  judge-IsJudged (some none) dir p at s k e = unfold stop_switch in refl
  judge-IsJudged (some (some (c, q))) dir p at s k e =
      let okay = is_switch_okay-may_leave desk (some c) dir q at s in
      elim (Bool-cases
        (prevents desk c dir q (in_locked_corner desk s at) (is_locked desk s) s.settings
          s.switching).1) [ inl b ↦ rw b refl | inr b ↦ rw b (refl, e, sym okay ∙ ap not b) ]

  try_edge-IsJudged :
      (dir : Direction) (p at : Point) (s : Server)
      → (dir ≡ no_direction) ⊎ Ends s dir p
      → IsJudged s dir p at (try_edge desk rounds fuel dir p at s)
  unfolding try_edge
  try_edge-IsJudged no_direction p at s k = refl
  try_edge-IsJudged left p at s (inl e) = absurd (cc e)
  try_edge-IsJudged left p at s (inr k) = judge-IsJudged _ left p at s k refl
  try_edge-IsJudged right p at s (inl e) = absurd (cc e)
  try_edge-IsJudged right p at s (inr k) = judge-IsJudged _ right p at s k refl
  try_edge-IsJudged top p at s (inl e) = absurd (cc e)
  try_edge-IsJudged top p at s (inr k) = judge-IsJudged _ top p at s k refl
  try_edge-IsJudged bottom p at s (inl e) = absurd (cc e)
  try_edge-IsJudged bottom p at s (inr k) = judge-IsJudged _ bottom p at s k refl

  leave_by-IsJudged :
      (dir : Direction) (p : Point) (s : Server)
      → (dir ≡ no_direction) ⊎ Ends s dir p
      → IsJudged s dir p (snap_to (shape s.active) 0 p) (leave_by desk rounds fuel dir p s)
  unfolding leave_by rest no_switch
  leave_by-IsJudged no_direction p s k = ground arith
  leave_by-IsJudged left p s k = try_edge-IsJudged left p _ s k
  leave_by-IsJudged right p s k = try_edge-IsJudged right p _ s k
  leave_by-IsJudged top p s k = try_edge-IsJudged top p _ s k
  leave_by-IsJudged bottom p s k = try_edge-IsJudged bottom p _ s k

  -- The cursor stays on the screen, as near to the point as it can; or it leaves, allowed to, for what
  -- mapToNeighbor gives behind the edge.
  abbrev pub Moves : Server → Point → Server × List Effect → Type 0
  Moves s p r =
      ((r.0.active ≡ s.active)
        × (r.0.position ≡ clamp_to (shape s.active) p)
        × IsWithin (shape s.active) r.0.position)
      ⊎ ((c : ℕ) × (q : Point) × (u : Server) × (map_to_neighbor desk rounds fuel s.clients s.active
              (exit_side (shape s.active) p) p
            ≡ some (some (c, q)))
          × (may_leave desk (some c) (exit_side (shape s.active) p) (snap_to (shape s.active) 0 p) s
              ≡ true)
          × (u.active ≡ s.active)
          × (r ≡ switch_screen desk c q false u))

  abbrev AllMoves : Server → Point → Option (Server × List Effect) → Type 0
  AllMoves s p none = ⊥
  AllMoves s p (some r) = Moves s p r

  stay_or_follow-AllMoves :
      (s : Server) (old p : Point) (o : Option (Server × Option (ℕ × Point)))
      → 0 < (shape s.active).w
      → 0 < (shape s.active).h
      → IsJudged s (exit_side (shape s.active) p) p (snap_to (shape s.active) 0 p) o
      → AllMoves s p (stay_or_follow desk rounds fuel old p o)
  unfolding stay_or_follow stay
  stay_or_follow-AllMoves s old p none w h k = k
  stay_or_follow-AllMoves s old p (some (u, none)) w h k =
      let same = ap (λ a. clamp_to (shape a) p) k in
      inl (k, same, rw k (clamp_to-IsWithin (shape s.active) p w h))
  stay_or_follow-AllMoves s old p (some (u, some (c, q))) w h (same, found, okay) =
      inr (c, q, u, found, okay, same, refl)

  Lands-Ends :
      (s : Server) (dir : Direction) (p : Point)
      → Lands desk fuel s.clients dir s.active p
          (map_to_neighbor desk rounds fuel s.clients s.active dir p)
      → Ends s dir p
  Lands-Ends s dir p (inl (k, e)) f = cc (e, f)
  Lands-Ends s dir p (inr (d, r, e, k)) f = cc (e, f)

  moves_lem :
      (d : Point) (s : Server)
      → 0 < (shape s.active).w
      → 0 < (shape s.active).h
      → (exit_side (shape s.active) (plus s.position d) ≡ no_direction)
        ⊎ Ends s (exit_side (shape s.active) (plus s.position d)) (plus s.position d)
      → AllMoves s (plus s.position d) (move_secondary desk rounds fuel d s)
  unfolding move_secondary record_move in_locked_corner is_locked
  moves_lem d s w h k =
      let p = plus s.position d in
      let t = record_move d p s in
      stay_or_follow-AllMoves s s.position p _ w h
        (leave_by-IsJudged (exit_side (shape s.active) p) p t k)

  some_lem :
      (s : Server) (p : Point) (o : Option (Server × List Effect))
      → AllMoves s p o
      → (r : Server × List Effect) × (o ≡ some r) × Moves s p r
  some_lem s p none k = absurd k
  some_lem s p (some r) k = (r, refl, k)

  -- A move on a secondary screen, where moves are not sent as relative ones, ends in one of two ways.
  -- The cursor stays: on that screen, within its bounds, at the clamped sum of the position and the
  -- move. Or the screen is switched to what mapToNeighbor gives for that sum and the edge that it is
  -- beyond, and the cursor may leave by that edge. The screens have sizes, the links over unconnected
  -- screens end, and there are more rounds than pixels to go.
  pub on_mouse_move_secondary-Moves :
      (d : Point) (s : Server)
      → s.active ≢ primary
      → (s.settings.relative_moves && s.locked) ≡ false
      → ((dir : Direction) → Ready desk fuel s.clients dir)
      → ((dir : Direction) → distance dir (shape s.active) (plus s.position d) < rounds)
      → (r : Server × List Effect) × (on_mouse_move_secondary desk rounds fuel d s ≡ some r)
        × Moves s (plus s.position d) r
  unfolding on_mouse_move_secondary size_of
  on_mouse_move_secondary-Moves d s away absolute ready few =
      let p = plus s.position d in
      let dir = exit_side (shape s.active) p in
      let ends : (dir ≡ no_direction) ⊎ Ends s dir p =
        elim (exit_side-IsBeyond (shape s.active) p) [
          | inl e ↦ inl e
          | inr k ↦ inr (
              Lands-Ends s dir p (
                map_to_neighbor-Lands desk fuel s.clients dir rounds s.active p (ready dir) k
                  (few dir)))
        ] in
      let (r, e, k) =
        some_lem s p _
          (moves_lem d s ((ready left).sized s.active) ((ready top).sized s.active) ends) in
      (r, rw (ne→== s.active primary away, absolute) e, k)
