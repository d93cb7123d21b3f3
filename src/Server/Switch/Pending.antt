-- ===== src/Server/Switch/Pending.antt =====
-- The screen of a pending switch: the one that a wait or a double tap leads to.
use zero_flow.Prelude.{
  ℕ, ◌≡◌, ◌⊎◌, inl, inr, ◌<◌, refl, Bool, true, false, not, Option, some, none, ltb, lt→ltb, sym,
  ap, ◌∙◌, arith,
}
use zero_flow.Server.{Direction, Point, Desk, Switching, Settings, Server}
use zero_flow.Server.Switch.{
  same_direction, is_some, stop_switching, start_wait, stop_wait, start_two_tap, stop_two_tap,
  arm_two_tap, note_screen, tap_test, wait_test, corner_test, lock_test, prevents, in_locked_corner,
  is_locked, is_switch_okay,
}

-- A wait or a double tap has a screen.
pub record IsPending (w : Switching) : Type 0 where
  pub waits : is_some w.wait ≡ true → is_some w.screen ≡ true
  pub taps : w.engaged ≡ true → is_some w.screen ≡ true

-- The screen of one state is that of another, a new one or none.
abbrev pub IsFrom : Option ℕ → Switching → Switching → Type 0
IsFrom new w v = (v.screen ≡ none) ⊎ (v.screen ≡ w.screen) ⊎ (v.screen ≡ new)

pub stop_switching-IsPending : (w : Switching) → IsPending w → IsPending (stop_switching w)
unfolding stop_switching stop_wait stop_two_tap is_some
stop_switching-IsPending w h = record { waits = ground arith; taps = ground arith }

pub stop_wait-IsPending : (w : Switching) → IsPending w → IsPending (stop_wait w)
unfolding stop_wait is_some
stop_wait-IsPending w h = record { waits = λ e. absurd (cc e); taps = h.taps }

pub stop_switching-none : (w : Switching) → (stop_switching w).screen ≡ none
unfolding stop_switching stop_wait stop_two_tap is_some
stop_switching-none w = ground arith

module _ (desk : Desk) where
  pub arm_two_tap-screen :
      (p : Point) (s : Server)
      → ((arm_two_tap desk p s).screen ≡ s.switching.screen)
        × ((arm_two_tap desk p s).wait ≡ s.switching.wait)
  unfolding arm_two_tap stop_two_tap
  arm_two_tap-screen p s = ground arith

  arm_two_tap-engaged :
      (p : Point) (s : Server) → (arm_two_tap desk p s).engaged ≡ true → s.switching.engaged ≡ true
  unfolding arm_two_tap stop_two_tap
  arm_two_tap-engaged p s h = ground arith

  pub arm_two_tap-IsPending :
      (p : Point) (s : Server) → IsPending s.switching → IsPending (arm_two_tap desk p s)
  arm_two_tap-IsPending p s h =
      let (screen, wait) = arm_two_tap-screen p s in
      record {
        waits = λ e. rw screen (h.waits (ap is_some (sym wait) ∙ e));
        taps = λ e. rw screen (h.taps (arm_two_tap-engaged p s e));
      }

  -- Once isSwitchOkay has noted a screen there is one, and none of its tests changes that.
  note_screen-some :
      (c : ℕ) (dir : Direction) (new : Bool) (w : Switching)
      → is_some (note_screen desk c dir new w).screen ≡ true
  unfolding note_screen is_some
  note_screen-some c dir new w = ground arith

  note_screen-IsFrom :
      (c : ℕ) (dir : Direction) (new : Bool) (w : Switching)
      → IsFrom (some c) w (note_screen desk c dir new w)
  unfolding note_screen
  note_screen-IsFrom c dir new w = ground arith

  tap_test-screen :
      (new : Bool) (delay : ℕ) (w : Switching) → (tap_test desk new delay w).0.screen ≡ w.screen
  unfolding tap_test start_two_tap
  tap_test-screen new delay w = ground arith

  wait_test-screen :
      (new : Bool) (delay : ℕ) (p : Point) (x : Switching × Bool × Bool)
      → (wait_test desk new delay p x).0.screen ≡ x.0.screen
  unfolding wait_test start_wait
  wait_test-screen new delay p (w, prevent, allow) = ground arith

  corner_test-IsFrom :
      (found : Bool) (x : Switching × Bool)
      → IsPending x.0
      → IsPending (corner_test desk found x).0
        × (((corner_test desk found x).0.screen ≡ none)
            ⊎ ((corner_test desk found x).0.screen ≡ x.0.screen))
  unfolding corner_test
  corner_test-IsFrom true (w, prevent) h =
      (stop_switching-IsPending w h, inl (stop_switching-none w))
  corner_test-IsFrom false (w, prevent) h = (h, inr refl)

  lock_test-IsFrom :
      (found : Bool) (x : Switching × Bool)
      → IsPending x.0
      → IsPending (lock_test desk found x).0
        × (((lock_test desk found x).0.screen ≡ none)
            ⊎ ((lock_test desk found x).0.screen ≡ x.0.screen))
  unfolding lock_test
  lock_test-IsFrom true (w, true) h = (h, inr refl)
  lock_test-IsFrom true (w, false) h = (stop_switching-IsPending w h, inl (stop_switching-none w))
  lock_test-IsFrom false (w, true) h = (h, inr refl)
  lock_test-IsFrom false (w, false) h = (h, inr refl)

  pub prevents-IsPending :
      (c : ℕ) (dir : Direction) (p : Point) (corner lock : Bool) (o : Settings) (w : Switching)
      → IsPending (prevents desk c dir p corner lock o w).0
        × IsFrom (some c) w (prevents desk c dir p corner lock o w).0
  unfolding prevents
  prevents-IsPending c dir p corner lock o w =
      let new = not (same_direction dir w.dir) in
      let v = note_screen desk c dir new w in
      let t = tap_test desk new o.two_tap_delay v in
      let x = wait_test desk new o.wait_delay p t in
      let same = wait_test-screen new o.wait_delay p t ∙ tap_test-screen new o.two_tap_delay v in
      let noted = ap is_some same ∙ note_screen-some c dir new w in
      let (h, k) = corner_test-IsFrom corner x (record { waits = λ e. noted; taps = λ e. noted }) in
      let (i, j) = lock_test-IsFrom lock (corner_test desk corner x) h in
      (i, origin k j (note_screen-IsFrom c dir new w) same)
    where
      origin :
          {a b d e f : Option ℕ}
          → (a ≡ none) ⊎ (a ≡ b)
          → (d ≡ none) ⊎ (d ≡ a)
          → (e ≡ none) ⊎ (e ≡ f) ⊎ (e ≡ some c)
          → b ≡ e
          → (d ≡ none) ⊎ (d ≡ f) ⊎ (d ≡ some c)
      origin h (inl n) l m = inl n
      origin (inl n) (inr e) l m = inl (e ∙ n)
      origin (inr x) (inr e) (inl n) m = inl (e ∙ x ∙ m ∙ n)
      origin (inr x) (inr e) (inr (inl f)) m = inr (inl (e ∙ x ∙ m ∙ f))
      origin (inr x) (inr e) (inr (inr f)) m = inr (inr (e ∙ x ∙ m ∙ f))

  prevents-stale :
      (c a : ℕ) (dir : Direction) (p : Point) (lock : Bool) (o : Settings) (w : Switching)
      → w.screen ≡ some a
      → same_direction dir w.dir ≡ true
      → w.wait ≡ none
      → ltb 0 o.wait_delay ≡ true
      → ltb 0 o.two_tap_delay ≡ false
      → ((prevents desk c dir p false lock o w).0.screen ≡ some a)
        × ((prevents desk c dir p false lock o w).0.wait ≡ some p)
  unfolding prevents note_screen tap_test wait_test corner_test lock_test start_wait is_some
  prevents-stale c a dir p lock o w h d n k tap = rw (d, h, n, k, tap) (refl, refl)

  -- The call that keeps the screen noted before, whatever the lock.
  pub is_switch_okay-stale :
      (s : Server) (a c : ℕ) (dir : Direction) (p at : Point)
      → s.switching.screen ≡ some a
      → same_direction dir s.switching.dir ≡ true
      → s.switching.wait ≡ none
      → 0 < s.settings.wait_delay
      → s.settings.two_tap_delay ≡ 0
      → in_locked_corner desk s at ≡ false
      → let t = (is_switch_okay desk (some c) dir p at s).0 in
        (t.switching.screen ≡ some a) × (t.switching.wait ≡ some p)
  unfolding is_switch_okay
  is_switch_okay-stale s a c dir p at h d w k tap corner = rw corner (
      prevents-stale c a dir p (is_locked desk s) s.settings s.switching h d w (lt→ltb _ _ k)
        (rw tap refl))

  pub arm_two_tap-dir : (p : Point) (s : Server) → (arm_two_tap desk p s).dir ≡ s.switching.dir
  unfolding arm_two_tap stop_two_tap
  arm_two_tap-dir p s = ground arith

  prevents-noted :
      (a : ℕ) (dir : Direction) (p : Point) (lock : Bool) (o : Settings) (w : Switching)
      → w.screen ≡ none
      → ltb 0 o.wait_delay ≡ true
      → ltb 0 o.two_tap_delay ≡ false
      → let v = (prevents desk a dir p false lock o w).0 in (v.screen ≡ some a) × (v.dir ≡ dir)
  unfolding prevents note_screen tap_test wait_test corner_test lock_test start_wait is_some
  prevents-noted a dir p lock o w h k tap = ground (arith, h, k, tap)

  -- The call that notes the screen and the direction, where none is noted.
  pub is_switch_okay-noted :
      (s : Server) (a : ℕ) (dir : Direction) (p at : Point)
      → s.switching.screen ≡ none
      → 0 < s.settings.wait_delay
      → s.settings.two_tap_delay ≡ 0
      → in_locked_corner desk s at ≡ false
      → let t = (is_switch_okay desk (some a) dir p at s).0 in
        (t.switching.screen ≡ some a) × (t.switching.dir ≡ dir)
  unfolding is_switch_okay
  is_switch_okay-noted s a dir p at h k tap corner = rw corner (
      prevents-noted a dir p (is_locked desk s) s.settings s.switching h (lt→ltb _ _ k)
        (rw tap refl))
