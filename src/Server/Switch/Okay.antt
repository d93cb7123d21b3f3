-- ===== src/Server/Switch/Okay.antt =====
-- When isSwitchOkay lets the cursor leave, and which screen it then goes to.
use zero_flow.Prelude.{ℕ, ◌≡◌, refl, Bool, not, ◌&&◌, ◌||◌, Option, some, none, ltb, arith}
use zero_flow.Server.{Direction, Point, Desk, Switching, Settings, Server}
use zero_flow.Server.Switch.{
  same_direction, is_some, is_locked, should_two_tap, in_locked_corner, note_screen, tap_test,
  wait_test, corner_test, lock_test, prevents, is_switch_okay,
}

module _ (desk : Desk) where
  -- The second tap, in time and at the same edge, where a double tap is asked for.
  abbrev pub is_second_tap : Direction → Server → Bool
  is_second_tap dir s =
      let w = s.switching in
      ltb 0 s.settings.two_tap_delay
      && same_direction dir w.dir
      && w.engaged
      && should_two_tap desk s.settings.two_tap_delay w

  -- Nothing to wait for
  abbrev pub is_immediate : Server → Bool
  is_immediate s = not (ltb 0 s.settings.two_tap_delay) && not (ltb 0 s.settings.wait_delay)

  abbrev pub may_leave : Option ℕ → Direction → Point → Server → Bool
  may_leave new dir at s =
      is_some new
      && (is_second_tap dir s || is_immediate s)
      && not (in_locked_corner desk s at)
      && not (is_locked desk s)

  note_screen-kept :
      (c : ℕ) (dir : Direction) (new : Bool) (w : Switching)
      → ((note_screen desk c dir new w).engaged ≡ w.engaged)
        × ((note_screen desk c dir new w).armed ≡ w.armed)
        × ((note_screen desk c dir new w).wait ≡ w.wait)
  unfolding note_screen
  note_screen-kept c dir new w = ground arith

  tap_test_lem :
      (new : Bool) (delay : ℕ) (w : Switching)
      → let again = not new && w.engaged && should_two_tap desk delay w in
        ((tap_test desk new delay w).1 ≡ (ltb 0 delay && not again))
        × ((tap_test desk new delay w).2 ≡ (ltb 0 delay && again))
  unfolding tap_test
  tap_test_lem new delay w = ground arith

  wait_test_lem :
      (new : Bool) (delay : ℕ) (p : Point) (w : Switching) (prevent allow : Bool)
      → (wait_test desk new delay p (w, prevent, allow)).1 ≡ (prevent || (not allow && ltb 0 delay))
  unfolding wait_test
  wait_test_lem new delay p w prevent allow = ground arith

  table :
      (tap wait same engaged soon corner lock : Bool)
      → let again = not (not same) && engaged && soon in
        not (((tap && not again) || (not (tap && again) && wait)) || corner || lock)
        ≡ ((tap && same && engaged && soon) || (not tap && not wait)) && not corner && not lock
  table tap wait same engaged soon corner lock = ground arith

  tests_lem :
      (corner lock : Bool) (x : Switching × Bool)
      → (lock_test desk lock (corner_test desk corner x)).1 ≡ (x.1 || corner || lock)
  unfolding lock_test corner_test
  tests_lem corner lock (w, prevent) = ground arith

  prevents-second :
      (c : ℕ) (dir : Direction) (p : Point) (corner lock : Bool) (o : Settings) (w : Switching)
      → not (prevents desk c dir p corner lock o w).1
        ≡ ((ltb 0 o.two_tap_delay
              && same_direction dir w.dir
              && w.engaged
              && should_two_tap desk o.two_tap_delay w)
            || (not (ltb 0 o.two_tap_delay) && not (ltb 0 o.wait_delay)))
          && not corner
          && not lock
  unfolding prevents should_two_tap
  prevents-second c dir p corner lock o w =
      let new = not (same_direction dir w.dir) in
      let v = note_screen desk c dir new w in
      let (kept, armed, still) = note_screen-kept c dir new w in
      let t = tap_test desk new o.two_tap_delay v in
      let (tap, again) = tap_test_lem new o.two_tap_delay v in
      rw
        (
          tests_lem corner lock (wait_test desk new o.wait_delay p t),
          wait_test_lem new o.wait_delay p t.0 t.1 t.2,
          tap,
          again,
          kept,
          armed,
        )
        (table (ltb 0 o.two_tap_delay) (ltb 0 o.wait_delay) (same_direction dir w.dir) w.engaged
          (should_two_tap desk o.two_tap_delay w) corner lock)

  -- isSwitchOkay lets the cursor leave exactly if there is a neighbor, the cursor is in no locked
  -- corner and not locked to the screen, and either this is the second tap at the same edge, in time
  -- and after the cursor moved back, or neither a double tap nor a wait is asked for.
  pub is_switch_okay-may_leave :
      (new : Option ℕ) (dir : Direction) (p at : Point) (s : Server)
      → (is_switch_okay desk new dir p at s).1 ≡ may_leave new dir at s
  unfolding is_switch_okay is_some
  is_switch_okay-may_leave none dir p at s = refl
  is_switch_okay-may_leave (some c) dir p at s =
      prevents-second c dir p (in_locked_corner desk s at) (is_locked desk s) s.settings s.switching
