-- ===== src/Server/Steps/Reachable.antt =====
-- The states that sequences of events lead to.
use zero_flow.Prelude.{
  ℕ, ◌≡◌, ◌⊎◌, refl, sym, ap, ◌∙◌, subst, true, false, List, [], ◌∷◌, Option, some, none, inl, inr,
  eq→==,
}
use zero_flow.Server.{Point, Desk, Server, Effect, find_client, has_client}
use zero_flow.Server.Core.{core, IsConnected}
use zero_flow.Server.Switch.{is_some, stop_switch}
use zero_flow.Server.Screens.{switch_screen, handle_switch_wait_timeout}
use zero_flow.Server.Screens.Jump.{Keeps, handle_switch_wait_timeout_total}
use zero_flow.Server.Clients.Connected.{find_client-cons}
use zero_flow.Server.Steps.{handle, Allowed, IsStarted, Reach, start, event, handle-Keeps}

module _ (primary : ℕ) (name : ℕ → List ℕ) where
  alone : has_client primary (primary ∷ []) ≡ true
  unfolding has_client
  alone = rw (eq→== primary primary refl) refl

  start-IsConnected : (s : Server) → IsStarted primary name s → IsConnected primary name (core s)
  unfolding is_some
  start-IsConnected s h = record {
    home = rw h.set alone;
    shown = rw (h.shown, h.set) alone;
    noted = λ c e. absurd (cc (e, h.unnoted));
    saved = λ c e. absurd (cc (e, h.unsaved));
    pending = record {
      waits = λ e. absurd (
          let z : is_some {A = Point} none ≡ true = ap is_some (sym h.unwaited) ∙ e in
          unfold is_some in cc z);
      taps = λ e. absurd (cc (e, h.untapped));
    };
    listed = λ n c e.
        let f : find_client n ((name primary, primary) ∷ []) ≡ some c =
          ap (find_client n) (sym h.listed) ∙ e in
        elim (find_client-cons n (name primary) primary c [] f) [
          | inl (same, at) ↦ (ap name (sym at) ∙ same, rw (sym at, h.set) alone)
          | inr g ↦
              let z : find_client n [] ≡ none = unfold find_client in refl in absurd (cc (z, g))
        ];
  }

  keep_lem :
      (desk : Desk) (o : Option (Server × List Effect)) (t : Server) (sent : List Effect)
      → o ≡ some (t, sent)
      → Keeps desk o
      → IsConnected desk.primary desk.name (core t)
  keep_lem desk o t sent e h = subst (Keeps desk) e h

  -- Behind every sequence of events whose handlers end, each screen that the server refers to is
  -- connected: the active one, the one of a pending switch, the one that the screen saver interrupted
  -- and those in m_clients. No event that moves the cursor, but for the emergency return, comes while
  -- the screen saver runs, the primary screen stays, and the clients keep their names.
  pub Reach-IsConnected : (s : Server) → Reach primary name s → IsConnected primary name (core s)
  Reach-IsConnected _ (start s h) = start-IsConnected s h
  Reach-IsConnected _ (event s t desk rounds fuel e sent r same_p same_n ok step) =
      let h = Reach-IsConnected s r in
      let k =
        handle-Keeps desk rounds fuel e s (subst (λ p. Allowed p e s) (sym same_p) ok)
          (rw (same_p, same_n) h) in
      let result = keep_lem desk (handle desk rounds fuel e s) t sent step k in
      subst (λ p. IsConnected p name (core t)) same_p
        (subst (λ n. IsConnected desk.primary n (core t)) same_n result)

  -- Whenever a wait runs behind a sequence of events, its timer finds a screen to switch to, which is
  -- connected: it switches to that screen, or stops the switch if the cursor is locked.
  pub Reach-wait :
      (s : Server) (desk : Desk)
      → Reach primary name s
      → is_some s.switching.wait ≡ true
      → (handle_switch_wait_timeout desk s ≡ some (stop_switch s, []))
        ⊎ ((c : ℕ) × (p : Point) × (has_client c s.client_set ≡ true)
            × (handle_switch_wait_timeout desk s ≡ some (switch_screen desk c p false s)))
  Reach-wait s desk r running =
      let h = Reach-IsConnected s r in
      elim (handle_switch_wait_timeout_total desk s h.pending running) [
        | inl e ↦ inl e
        | inr (c, p, e, f, g) ↦ inr (c, p, h.noted c e, g)
      ]
