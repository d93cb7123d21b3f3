-- ===== src/Server/Moves/Connected.antt =====
-- Moves of the mouse, and the invariant of the screens.
use zero_flow.Prelude.{
  ℕ, ◌≡◌, inl, inr, sym, ◌∙◌, subst, true, ◌&&◌, Option, some, none, ◌==◌, Bool-cases, arith,
}
use zero_flow.Server.{
  Direction, no_direction, left, right, top, bottom, Point, origin, Desk, Switching, Server,
  has_client,
}
use zero_flow.Server.Core.{core, IsConnected}
use zero_flow.Server.Switch.{
  is_some, stop_switch, stop_wait, arm_two_tap, no_switch, in_locked_corner, is_locked, prevents,
  is_switch_okay,
}
use zero_flow.Server.Switch.Pending.{
  IsPending, IsFrom, stop_wait-IsPending, arm_two_tap-IsPending, arm_two_tap-screen,
  prevents-IsPending,
}
use zero_flow.Server.Neighbor.Found.{AreFound, map_to_neighbor-AreFound}
use zero_flow.Server.Screens.Cut.{stopped-IsConnected, switch_screen-free}
use zero_flow.Server.Screens.Jump.{Keeps}
use zero_flow.Server.Moves.{
  snap_to, side_h, reach, clears_wait, minus, plus, switch_if, judge, try_edge, try_next, follow,
  record_move, move_by, move_primary, on_mouse_move_primary, stay, stay_or_follow, rest, leave_by,
  move_secondary, on_mouse_move_secondary, shape_changed, handle_shape_changed,
}

module _ (desk : Desk) (rounds fuel : ℕ) where
  open desk use {primary, name, shape, jump_zone}

  -- The screens are connected, and the screen saver does not run.
  abbrev pub IsFree : Server → Type 0
  IsFree s = IsConnected primary name (core s) × (s.active_saver ≡ none)

  -- The same behind the tests, and for a screen that they let the cursor go to.
  abbrev AreFree : Option (Server × Option (ℕ × Point)) → Type 0
  AreFree none = Unit
  AreFree (some (s, none)) = IsFree s
  AreFree (some (s, some (c, p))) = IsFree s × (has_client c s.client_set ≡ true)

  noted_lem :
      (s : Server) (w : Switching) (new : Option ℕ)
      → IsFree s
      → IsPending w
      → IsFrom new s.switching w
      → ((c : ℕ) → new ≡ some c → has_client c s.client_set ≡ true)
      → IsFree (record s { switching = w })
  noted_lem s w new (h, e) pending from at = (
    record {
      home = h.home;
      shown = h.shown;
      noted = λ c f. elim from [
        | inl x ↦ absurd (cc (x, f))
        | inr (inl x) ↦ h.noted c (sym x ∙ f)
        | inr (inr x) ↦ at c (sym x ∙ f)
      ];
      saved = h.saved;
      pending = pending;
      listed = h.listed;
    },
    e,
  )

  stop_switch-IsFree : (s : Server) → IsFree s → IsFree (stop_switch s)
  unfolding stop_switch
  stop_switch-IsFree s (h, e) = (stopped-IsConnected desk (core s) h, e)

  judge-AreFree :
      (n : Option (Option (ℕ × Point))) (dir : Direction) (p at : Point) (s : Server)
      → AreFound desk fuel s.clients n
      → IsFree s
      → AreFree (judge desk rounds fuel n dir p at s)
  unfolding judge switch_if is_switch_okay
  judge-AreFree none dir p at s f h = tt
  judge-AreFree (some none) dir p at s f h = stop_switch-IsFree s h
  judge-AreFree (some (some (c, q))) dir p at s (m, f) h =
      let corner = in_locked_corner desk s at in
      let lock = is_locked desk s in
      let (w, b) = prevents desk c dir q corner lock s.settings s.switching in
      let (pending, from) = prevents-IsPending desk c dir q corner lock s.settings s.switching in
      let at = (h.0.listed m c f).1 in
      let k =
        noted_lem s (prevents desk c dir q corner lock s.settings s.switching).0 (some c) h pending
          from
          (λ d e.
            let same : c ≡ d = ground arith in
            subst (λ x. has_client x s.client_set ≡ true) same at) in
      elim (Bool-cases (prevents desk c dir q corner lock s.settings s.switching).1) [
        | inl e ↦ rw e k
        | inr e ↦ rw e (k, at)
      ]

  try_edge-AreFree :
      (dir : Direction) (p at : Point) (s : Server)
      → IsFree s
      → AreFree (try_edge desk rounds fuel dir p at s)
  unfolding try_edge
  try_edge-AreFree no_direction p at s h = h
  try_edge-AreFree left p at s h =
      judge-AreFree _ left p at s
        (map_to_neighbor-AreFound desk fuel s.clients rounds s.active left p) h
  try_edge-AreFree right p at s h =
      judge-AreFree _ right p at s
        (map_to_neighbor-AreFound desk fuel s.clients rounds s.active right p) h
  try_edge-AreFree top p at s h =
      judge-AreFree _ top p at s
        (map_to_neighbor-AreFound desk fuel s.clients rounds s.active top p) h
  try_edge-AreFree bottom p at s h =
      judge-AreFree _ bottom p at s
        (map_to_neighbor-AreFound desk fuel s.clients rounds s.active bottom p) h

  try_next-AreFree :
      (o : Option (Server × Option (ℕ × Point))) (dir : Direction) (p at : Point)
      → AreFree o
      → AreFree (try_next desk rounds fuel o dir p at)
  unfolding try_next
  try_next-AreFree none dir p at h = tt
  try_next-AreFree (some (s, none)) dir p at h = try_edge-AreFree dir p at s h
  try_next-AreFree (some (s, some (c, q))) dir p at h = h

  follow-Keeps :
      (o : Option (Server × Option (ℕ × Point)))
      → AreFree o
      → Keeps desk (follow desk rounds fuel o)
  unfolding follow
  follow-Keeps none h = tt
  follow-Keeps (some (s, none)) h = h.0
  follow-Keeps (some (s, some (c, q))) ((h, e), at) = switch_screen-free desk c q s at e h

  no_switch-IsFree : (p : Point) (s : Server) → IsFree s → IsFree (no_switch desk p s)
  unfolding no_switch stop_wait
  no_switch-IsFree p s h =
      noted_lem s (stop_wait (arm_two_tap desk p s)) none h
        (stop_wait-IsPending (arm_two_tap desk p s) (arm_two_tap-IsPending desk p s h.0.pending))
        (inr (inl (arm_two_tap-screen desk p s).0)) (λ c e. absurd (cc e))

  move_by-Keeps :
      (h v : Direction) (s : Server) (o : Option (Server × Option (ℕ × Point)))
      → IsFree s
      → AreFree o
      → Keeps desk (move_by desk rounds fuel h v s o)
  unfolding move_by
  move_by-Keeps no_direction no_direction s o f k = f.0
  move_by-Keeps no_direction left s o f k = follow-Keeps o k
  move_by-Keeps no_direction right s o f k = follow-Keeps o k
  move_by-Keeps no_direction top s o f k = follow-Keeps o k
  move_by-Keeps no_direction bottom s o f k = follow-Keeps o k
  move_by-Keeps left v s o f k = follow-Keeps o k
  move_by-Keeps right v s o f k = follow-Keeps o k
  move_by-Keeps top v s o f k = follow-Keeps o k
  move_by-Keeps bottom v s o f k = follow-Keeps o k

  move_primary-Keeps :
      (p : Point) (s : Server) → IsFree s → Keeps desk (move_primary desk rounds fuel p s)
  unfolding move_primary record_move
  move_primary-Keeps p s h =
      let t = record_move (minus p s.position) p s in
      let tried =
        try_edge-AreFree (side_h (shape s.active) jump_zone p)
          (reach (side_h (shape s.active) jump_zone p) jump_zone p)
          (snap_to (shape s.active) jump_zone p) t h in
      move_by-Keeps _ _ _ _ (no_switch-IsFree p t h) (try_next-AreFree _ _ _ _ tried)

  pub on_mouse_move_primary-Keeps :
      (p : Point) (s : Server) → IsFree s → Keeps desk (on_mouse_move_primary desk rounds fuel p s)
  unfolding on_mouse_move_primary
  on_mouse_move_primary-Keeps p s h = elim (Bool-cases (s.active == primary)) [
    | inl e ↦ rw e (move_primary-Keeps p s h)
    | inr e ↦ rw e h.0
  ]

  stay_or_follow-Keeps :
      (old p : Point) (o : Option (Server × Option (ℕ × Point)))
      → AreFree o
      → Keeps desk (stay_or_follow desk rounds fuel old p o)
  unfolding stay_or_follow stay
  stay_or_follow-Keeps old p none h = tt
  stay_or_follow-Keeps old p (some (s, none)) h = h.0
  stay_or_follow-Keeps old p (some (s, some (c, q))) ((h, e), at) =
      switch_screen-free desk c q s at e h

  rest-IsFree : (p : Point) (s : Server) → IsFree s → IsFree (rest desk rounds fuel p s)
  unfolding rest
  rest-IsFree p s h =
      elim (Bool-cases
        (is_some s.switching.screen && clears_wait s.switching.dir (shape s.active) jump_zone p)) [
          | inl e ↦ rw e (no_switch-IsFree p s h)
          | inr e ↦ rw e h
        ]

  leave_by-AreFree :
      (dir : Direction) (p : Point) (s : Server)
      → IsFree s
      → AreFree (leave_by desk rounds fuel dir p s)
  unfolding leave_by
  leave_by-AreFree no_direction p s h = rest-IsFree p s h
  leave_by-AreFree left p s h = try_edge-AreFree left p _ s h
  leave_by-AreFree right p s h = try_edge-AreFree right p _ s h
  leave_by-AreFree top p s h = try_edge-AreFree top p _ s h
  leave_by-AreFree bottom p s h = try_edge-AreFree bottom p _ s h

  pub on_mouse_move_secondary-Keeps :
      (d : Point) (s : Server)
      → IsFree s
      → Keeps desk (on_mouse_move_secondary desk rounds fuel d s)
  unfolding on_mouse_move_secondary move_secondary record_move
  on_mouse_move_secondary-Keeps d s h = elim (Bool-cases (s.active == primary)) [
    | inl e ↦ rw e h.0
    | inr e ↦ elim (Bool-cases (s.settings.relative_moves && s.locked)) [
      | inl f ↦ rw (e, f) h.0
      | inr f ↦
          rw (e, f)
            (stay_or_follow-Keeps s.position (plus s.position d) _
              (leave_by-AreFree _ (plus s.position d) (record_move d (plus s.position d) s) h))
    ]
  ]

  shape_changed-Keeps :
      (c : ℕ) (p : Point) (s : Server)
      → IsFree s
      → Keeps desk (shape_changed desk rounds fuel c p s)
  unfolding shape_changed
  shape_changed-Keeps c p s h = elim (Bool-cases (c == primary)) [
    | inr e ↦ elim (Bool-cases (c == s.active)) [ inl f ↦ rw (e, f) h.0 | inr f ↦ rw (e, f) h.0 ]
    | inl e ↦ elim (Bool-cases (c == s.active)) [
      | inl f ↦ rw (e, f) (on_mouse_move_primary-Keeps p _ h)
      | inr f ↦ rw (e, f) (on_mouse_move_secondary-Keeps origin _ h)
    ]
  ]

  pub handle_shape_changed-Keeps :
      (c : ℕ) (s : Server) → IsFree s → Keeps desk (handle_shape_changed desk rounds fuel c s)
  unfolding handle_shape_changed
  handle_shape_changed-Keeps c s h = elim (Bool-cases (has_client c s.client_set)) [
    | inl e ↦ rw e (shape_changed-Keeps c (desk.cursor_pos c) s h)
    | inr e ↦ rw e h.0
  ]
