-- ===== src/Server/Screens/Jump.antt =====
-- The timer, the hotkey in a direction and the screen saver, and the invariant of the screens.
use zero_flow.Prelude.{
  ℕ, ◌≡◌, ◌⊎◌, inl, inr, refl, sym, ap, ◌∙◌, subst, Bool, true, false, List, [], Option, some, none,
  ◌==◌, Bool-cases, Option-cases, arith,
}
use zero_flow.Server.{Direction, Point, origin, Desk, Server, Effect, has_client}
use zero_flow.Server.Core.{Core, core, IsConnected}
use zero_flow.Server.Switch.{is_some, is_locked, stop_switch}
use zero_flow.Server.Switch.Pending.{IsPending}
use zero_flow.Server.Neighbor.Found.{AreFound, get_neighbor-AreFound}
use zero_flow.Server.Screens.{
  switch_screen, switch_pending, handle_switch_wait_timeout, jump_to_neighbor,
  handle_switch_in_direction, saver_on, saver_off, saver_point, on_screensaver,
}
use zero_flow.Server.Screens.Cut.{
  stopped-IsConnected, switch_screen-IsConnected, switch_screen-free, jump_to_screen-IsConnected,
}

module _ (desk : Desk) where
  open desk use {primary, name}

  -- A handler that ends leaves the screens connected.
  abbrev pub Keeps : Option (Server × List Effect) → Type 0
  Keeps none = Unit
  Keeps (some (t, sent)) = IsConnected primary name (core t)

  -- While a wait runs, its handler has a screen to go to: it goes there, or the cursor is locked and
  -- nothing is pending any more.
  pub handle_switch_wait_timeout_total :
      (s : Server)
      → IsPending s.switching
      → is_some s.switching.wait ≡ true
      → (handle_switch_wait_timeout desk s ≡ some (stop_switch s, []))
        ⊎ ((c : ℕ) × (p : Point) × (s.switching.screen ≡ some c)
            × (s.switching.wait ≡ some p)
            × (handle_switch_wait_timeout desk s ≡ some (switch_screen desk c p false s)))
  unfolding handle_switch_wait_timeout
  handle_switch_wait_timeout_total s h running = elim (Bool-cases (is_locked desk s)) [
    | inl l ↦ inl (rw l refl)
    | inr l ↦ elim (Option-cases s.switching.screen) [
      | inl e ↦
          let k = h.waits running in
          absurd (let z : is_some none ≡ true = ap is_some (sym e) ∙ k in unfold is_some in cc z)
      | inr (c, e) ↦ elim (Option-cases s.switching.wait) [
        | inl f ↦
            absurd
              (let z : is_some none ≡ true = ap is_some (sym f) ∙ running in unfold is_some in cc z)
        | inr (p, f) ↦ inr (c, p, e, f, rw (l, e, f) (unfold switch_pending in refl))
      ]
    ]
  ]

  switch_pending-Keeps :
      (o : Option ℕ) (p : Option Point) (s : Server)
      → ((c : ℕ) → o ≡ some c → has_client c s.client_set ≡ true)
      → s.active_saver ≡ none
      → IsConnected primary name (core s)
      → Keeps (switch_pending desk o p s)
  unfolding switch_pending
  switch_pending-Keeps none p s at e h = tt
  switch_pending-Keeps (some c) none s at e h = tt
  switch_pending-Keeps (some c) (some p) s at e h = switch_screen-free desk c p s (at c refl) e h

  pub handle_switch_wait_timeout-Keeps :
      (s : Server)
      → s.active_saver ≡ none
      → IsConnected primary name (core s)
      → Keeps (handle_switch_wait_timeout desk s)
  unfolding handle_switch_wait_timeout
  handle_switch_wait_timeout-Keeps s e h = elim (Bool-cases (is_locked desk s)) [
    | inl l ↦ rw l (let k = stopped-IsConnected desk (core s) h in unfold stop_switch in k)
    | inr l ↦ rw l (switch_pending-Keeps s.switching.screen s.switching.wait s h.noted e h)
  ]

  jump_to_neighbor-Keeps :
      (n : Option (Option (ℕ × Point))) (s : Server)
      → AreFound desk 0 s.clients n
      → s.active_saver ≡ none
      → IsConnected primary name (core s)
      → Keeps (jump_to_neighbor desk n s)
  unfolding jump_to_neighbor
  jump_to_neighbor-Keeps none s f e h = tt
  jump_to_neighbor-Keeps (some none) s f e h = h
  jump_to_neighbor-Keeps (some (some (c, p))) s (m, f) e h =
      jump_to_screen-IsConnected desk c s (h.listed m c f).1 e h

  pub handle_switch_in_direction-Keeps :
      (fuel : ℕ) (dir : Direction) (s : Server)
      → s.active_saver ≡ none
      → IsConnected primary name (core s)
      → Keeps (handle_switch_in_direction desk fuel dir s)
  unfolding handle_switch_in_direction
  handle_switch_in_direction-Keeps fuel dir s e h =
      jump_to_neighbor-Keeps _ s (get_neighbor-AreFound desk fuel s.clients s.active dir s.position)
        e h

  saver_on-IsConnected :
      (s : Server)
      → IsConnected primary name (core s)
      → IsConnected primary name (core (saver_on desk s).0)
  unfolding saver_on
  saver_on-IsConnected s h =
      let t = record s { active_saver = some s.active; saver_position = s.position } in
      let k : IsConnected primary name (core t) = record {
        home = h.home;
        shown = h.shown;
        noted = h.noted;
        saved = λ c e.
            let same : s.active ≡ c = ground arith in
            (subst (λ x. has_client x s.client_set ≡ true) same h.shown, inl same);
        pending = h.pending;
        listed = h.listed;
      } in
      elim (Bool-cases (s.active == primary)) [
        | inl e ↦ rw e k
        | inr e ↦
            rw e (switch_screen-IsConnected desk primary origin true t h.home (λ c f. inr refl) k)
      ]

  unsaved-IsConnected :
      (k : Core) → IsConnected primary name k → IsConnected primary name (record k { saver = none })
  unsaved-IsConnected k h = record {
    home = h.home;
    shown = h.shown;
    noted = h.noted;
    saved = λ c e. absurd (cc e);
    pending = h.pending;
    listed = h.listed;
  }

  saver_off-IsConnected :
      (o : Option ℕ) (s : Server)
      → s.active_saver ≡ o
      → IsConnected primary name (core s)
      → IsConnected primary name (core (saver_off desk o s).0)
  unfolding saver_off
  saver_off-IsConnected none s e h = h
  saver_off-IsConnected (some c) s e h = elim (Bool-cases (c == primary)) [
    | inl f ↦ rw f (unsaved-IsConnected (core s) h)
    | inr f ↦
        let jumped =
          switch_screen-IsConnected desk c (saver_point desk c s.saver_position) false
            (record s { saver_position = saver_point desk c s.saver_position }) (h.saved c e).0
            (λ d g. inl (let z : some c ≡ some d = sym e ∙ g in ground arith)) h in
        rw f (unsaved-IsConnected _ jumped)
  ]

  pub on_screensaver-IsConnected :
      (on : Bool) (s : Server)
      → IsConnected primary name (core s)
      → IsConnected primary name (core (on_screensaver desk on s).0)
  unfolding on_screensaver
  on_screensaver-IsConnected true s h = saver_on-IsConnected s h
  on_screensaver-IsConnected false s h = saver_off-IsConnected s.active_saver s refl h
