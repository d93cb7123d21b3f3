-- ===== src/Server/Switch.antt =====
-- Whether the cursor may leave a screen: isSwitchOkay, the double tap and the wait before a switch.
use zero_flow.Prelude.{
  ℕ, ◌/◌, ◌%◌, ◌*◌, zero, suc, Bool, true, false, not, ◌&&◌, ◌||◌, List, Option, some, none, ◌==◌,
  ltb, leb, if◌then◌else◌,
}
use zero_flow.Prelude.Int.{ℤ, pos, ◌+ℤ◌, ◌-ℤ◌, ltb_ℤ}
use zero_flow.Server.{
  Direction, no_direction, left, right, top, bottom, Point, Shape, Desk, Switching, Settings,
  Server,
}
use zero_flow.Server.Geometry.{get_corner}
pub mod Okay
pub mod Pending

unfoldable pub same_direction : Direction → Direction → Bool
same_direction no_direction no_direction = true
same_direction left left = true
same_direction right right = true
same_direction top top = true
same_direction bottom bottom = true
same_direction _ _ = false

unfoldable pub is_some {ℓ} : {A : Type ℓ} → Option A → Bool
is_some none = false
is_some (some a) = true

-- Server::startSwitchTwoTap; the timer's reset is in tap_time
unfoldable pub start_two_tap : Switching → Switching
start_two_tap w = record w { engaged = true; armed = false }

-- Server::stopSwitchTwoTap
unfoldable pub stop_two_tap : Switching → Switching
stop_two_tap w = record w { engaged = false; armed = false }

-- Server::startSwitchWait
unfoldable pub start_wait : Point → Switching → Switching
start_wait p w = record w { wait = some p }

-- Server::stopSwitchWait
unfoldable pub stop_wait : Switching → Switching
stop_wait w = record w { wait = none }

-- Server::stopSwitch
unfoldable pub stop_switching : Switching → Switching
stop_switching w =
    if is_some w.screen
    then stop_wait (stop_two_tap (record w { screen = none; dir = no_direction }))
    else w

unfoldable pub stop_switch : Server → Server
stop_switch s = record s { switching = stop_switching s.switching }

-- The direction in which the last two moves must go for a second tap.
unfoldable pub moves_back : Direction → Point → Point → Bool
moves_back left d d2 = ltb_ℤ (pos 0) d.x && ltb_ℤ (pos 0) d2.x
moves_back right d d2 = ltb_ℤ d.x (pos 0) && ltb_ℤ d2.x (pos 0)
moves_back top d d2 = ltb_ℤ (pos 0) d.y && ltb_ℤ (pos 0) d2.y
moves_back bottom d d2 = ltb_ℤ d.y (pos 0) && ltb_ℤ d2.y (pos 0)
moves_back no_direction d d2 = false

-- A point at least `zone` pixels from each edge of the screen.
unfoldable pub is_inside : Shape → ℕ → Point → Bool
is_inside a zone p =
    not (ltb_ℤ p.x (a.x +ℤ pos zone))
    && ltb_ℤ p.x (a.x +ℤ pos a.w -ℤ pos zone)
    && (not (ltb_ℤ p.y (a.y +ℤ pos zone)) && ltb_ℤ p.y (a.y +ℤ pos a.h -ℤ pos zone))

module _ (desk : Desk) where
  open desk use {primary, primary_locked, name, shape, jump_zone, corner_lock, tap_time}

  -- Server::isLockedToScreen
  unfoldable pub is_locked : Server → Bool
  is_locked s = if s.settings.disable_lock then false else s.locked || primary_locked

  -- Server::armSwitchTwoTap
  unfoldable pub arm_two_tap : Point → Server → Switching
  arm_two_tap p s =
      let w = s.switching in
      let zone =
        if ltb jump_zone s.settings.two_tap_zone then s.settings.two_tap_zone else jump_zone in
      let armed =
        if same_direction w.dir no_direction then w.armed else moves_back w.dir s.delta s.delta2 in
      if not w.engaged
      then w
      else if ltb s.settings.two_tap_delay tap_time
      then stop_two_tap w
      else if not w.armed && is_inside (shape s.active) zone p
      then record w { armed = armed }
      else w

  -- Server::noSwitch
  unfoldable pub no_switch : Point → Server → Server
  no_switch p s = record s { switching = stop_wait (arm_two_tap p s) }

  -- Server::shouldSwitchTwoTap
  unfoldable pub should_two_tap : ℕ → Switching → Bool
  should_two_tap delay w = w.armed && leb tap_time delay

  -- The corner test of isSwitchOkay, for the corners and the size of the options. A corner is one bit
  -- of the mask.
  unfoldable pub is_locked_corner : Shape → Point → Option (ℕ × ℤ) → Bool
  is_locked_corner a p none = false
  is_locked_corner a p (some (mask, size)) =
      let corner = get_corner a p size in not (corner == 0) && ((mask / corner) % 2 == 1)

  unfoldable pub in_locked_corner : Server → Point → Bool
  in_locked_corner s p = is_locked_corner (shape s.active) p (corner_lock (name s.active))

  -- Where isSwitchOkay notes the screen to which it may switch.
  unfoldable pub note_screen : ℕ → Direction → Bool → Switching → Switching
  note_screen c dir new w =
      if new || not (is_some w.screen) then record w { dir = dir; screen = some c } else w

  -- Its test of the double tap: whether this prevents the switch, and whether it allows it.
  unfoldable pub tap_test : Bool → ℕ → Switching → Switching × Bool × Bool
  tap_test new delay w =
      if ltb 0 delay
      then if new || not w.engaged || not (should_two_tap delay w)
        then (start_two_tap w, true, false)
        else (w, false, true)
      else (w, false, false)

  -- Its wait, by the results of the first test.
  unfoldable pub wait_test : Bool → ℕ → Point → Switching × Bool × Bool → Switching × Bool
  wait_test new delay p (w, prevent, allow) =
      if not allow && ltb 0 delay
      then (if new || not (is_some w.wait) then start_wait p w else w, true)
      else (w, prevent)

  -- Its last two tests, by what they find.
  unfoldable pub corner_test : Bool → Switching × Bool → Switching × Bool
  corner_test found (w, prevent) = if found then (stop_switching w, true) else (w, prevent)

  unfoldable pub lock_test : Bool → Switching × Bool → Switching × Bool
  lock_test found (w, prevent) =
      if not prevent && found then (stop_switching w, true) else (w, prevent)

  -- The part of isSwitchOkay for a neighbor `c`, with what is known of the corner and the lock. The
  -- Boolean is `preventSwitch`.
  unfoldable pub prevents :
      ℕ → Direction → Point → Bool → Bool → Settings → Switching → Switching × Bool
  prevents c dir p corner lock o w =
      let new = not (same_direction dir w.dir) in
      lock_test lock (
        corner_test corner
          (wait_test new o.wait_delay p (tap_test new o.two_tap_delay (note_screen c dir new w))))

  -- Server::isSwitchOkay, for the point `p` on the new screen and the point `at` on the active one
  unfoldable pub is_switch_okay : Option ℕ → Direction → Point → Point → Server → Server × Bool
  is_switch_okay none dir p at s = (stop_switch s, false)
  is_switch_okay (some c) dir p at s =
      let (w, prevent) =
        prevents c dir p (in_locked_corner s at) (is_locked s) s.settings s.switching in
      (record s { switching = w }, not prevent)
