-- ===== src/Server/Screens/Stale.antt =====
-- A wait before a switch that is broken off, and one at another neighbor in the same direction.
use zero_flow.Prelude.{ℕ, ◌<◌, ◌≡◌, refl, ◌∙◌, true, false, some, none}
use zero_flow.Server.{Direction, no_direction, left, right, top, bottom, Point, Desk, Server}
use zero_flow.Server.Switch.{
  same_direction, stop_wait, no_switch, in_locked_corner, is_locked, is_switch_okay,
}
use zero_flow.Server.Switch.Pending.{
  arm_two_tap-screen, arm_two_tap-dir, is_switch_okay-noted, is_switch_okay-stale,
}
use zero_flow.Server.Screens.{switch_screen, switch_pending, handle_switch_wait_timeout}

same_direction_refl : (d : Direction) → same_direction d d ≡ true
unfolding same_direction
same_direction_refl no_direction = refl
same_direction_refl left = refl
same_direction_refl right = refl
same_direction_refl top = refl
same_direction_refl bottom = refl

module _ (desk : Desk) where
  -- What a broken off wait leaves behind: the screen and the direction.
  no_switch-noted :
      (s : Server) (a : ℕ) (dir : Direction) (p : Point)
      → s.switching.screen ≡ some a
      → s.switching.dir ≡ dir
      → let w = (no_switch desk p s).switching in
        (w.screen ≡ some a) × (w.dir ≡ dir) × (w.wait ≡ none)
  unfolding no_switch stop_wait
  no_switch-noted s a dir p h d =
      ((arm_two_tap-screen desk p s).0 ∙ h, arm_two_tap-dir desk p s ∙ d, refl)

  -- The handler of the timer, in a state that is not locked.
  timeout-pending :
      (s : Server) (a : ℕ) (p : Point)
      → is_locked desk s ≡ false
      → s.switching.screen ≡ some a
      → s.switching.wait ≡ some p
      → handle_switch_wait_timeout desk s ≡ some (switch_screen desk a p false s)
  unfolding handle_switch_wait_timeout
  timeout-pending s a p l e f = rw (l, e, f) (unfold switch_pending in refl)

  -- Three events on a server that is not locked to its screen, has noted no screen, and whose options
  -- ask for a wait but not for a double tap: isSwitchOkay for a neighbor `a` starts a wait, noSwitch
  -- breaks it off, and isSwitchOkay for a neighbor `c` in the same direction starts one for the
  -- point `p` on `c`. When this wait ends, the cursor goes to the point `p` of `a`, whichever screen
  -- `c` is. The cursor is in no locked corner at either call.
  pub handle_switch_wait_timeout-stale :
      (s : Server) (a c : ℕ) (dir : Direction) (q p before back at : Point)
      → s.switching.screen ≡ none
      → 0 < s.settings.wait_delay
      → s.settings.two_tap_delay ≡ 0
      → is_locked desk s ≡ false
      → in_locked_corner desk s before ≡ false
      → in_locked_corner desk s at ≡ false
      → let t = no_switch desk back (is_switch_okay desk (some a) dir q before s).0 in
        let u = (is_switch_okay desk (some c) dir p at t).0 in
        handle_switch_wait_timeout desk u ≡ some (switch_screen desk a p false u)
  unfolding is_switch_okay no_switch is_locked in_locked_corner
  handle_switch_wait_timeout-stale s a c dir q p before back at h k tap l first second =
      let noted = is_switch_okay-noted desk s a dir q before h k tap first in
      let r = (is_switch_okay desk (some a) dir q before s).0 in
      let left_over = no_switch-noted r a dir back noted.0 noted.1 in
      let t = no_switch desk back r in
      let same : same_direction dir t.switching.dir ≡ true =
        rw left_over.1 (same_direction_refl dir) in
      let stale =
        is_switch_okay-stale desk t a c dir p at left_over.0 same left_over.2 k tap second in
      let u = (is_switch_okay desk (some c) dir p at t).0 in timeout-pending u a p l stale.0 stale.1
