-- ===== src/Server/Screens/Cut.antt =====
-- The handlers that switch screens, and the invariant of the screens.
use zero_flow.Prelude.{
  ℕ, ◌≡◌, ◌⊎◌, inl, inr, refl, ap, Bool, true, false, not, ◌&&◌, List, Option, some, none, ◌==◌,
  Bool-cases, Option-cases, arith,
}
use zero_flow.Server.{Point, Desk, Server, find_client, has_client}
use zero_flow.Server.Core.{Core, core, IsConnected}
use zero_flow.Server.Switch.{stop_switch, stop_switching}
use zero_flow.Server.Switch.Pending.{stop_switching-IsPending, stop_switching-none}
use zero_flow.Server.Clipboards.{
  set_info, store_clipboard, on_clipboard_changed, handle_clipboard_changed, take_clipboard,
  handle_clipboard_grabbed,
}
use zero_flow.Server.Screens.{
  place_at, update_own, update_clipboards, cut_over, switch_screen, jump_to_screen, jump_if,
  handle_switch_to_screen, handle_toggle_screen, next_screen, toggle, stop_relative_moves,
  handle_lock_cursor, emergency_return,
}

-- Nothing is pending any more.
abbrev pub stopped : Core → Core
stopped k = record k { switching = stop_switching k.switching }

module _ (desk : Desk) where
  open desk use {primary, name}

  store_clipboard-core :
      (sender id : ℕ) (text : List ℕ) (s : Server)
      → core (store_clipboard desk sender id text s).0 ≡ core s
  unfolding store_clipboard set_info
  store_clipboard-core sender id text s = ground arith

  pub on_clipboard_changed-core :
      (sender id seq : ℕ) (s : Server) → core (on_clipboard_changed desk sender id seq s).0 ≡ core s
  unfolding on_clipboard_changed
  on_clipboard_changed-core sender id seq s =
      ground (arith, store_clipboard-core sender id (desk.clipboard sender id) s)

  pub handle_clipboard_changed-core :
      (client id seq : ℕ) (s : Server)
      → core (handle_clipboard_changed desk client id seq s).0 ≡ core s
  unfolding handle_clipboard_changed
  handle_clipboard_changed-core client id seq s =
      ground (arith, on_clipboard_changed-core client id seq s)

  take_clipboard-core :
      (grabber id seq : ℕ) (s : Server) → core (take_clipboard desk grabber id seq s).0 ≡ core s
  unfolding take_clipboard set_info
  take_clipboard-core grabber id seq s =
      elim (Bool-cases ((grabber == primary) && not (s.active == primary))) [
        | inl e ↦ rw e (on_clipboard_changed-core primary id seq _)
        | inr e ↦ rw e refl
      ]

  pub handle_clipboard_grabbed-core :
      (grabber id seq : ℕ) (s : Server)
      → core (handle_clipboard_grabbed desk grabber id seq s).0 ≡ core s
  unfolding handle_clipboard_grabbed
  handle_clipboard_grabbed-core grabber id seq s =
      ground (arith, take_clipboard-core grabber id seq s)

  update_own-core : (id : ℕ) (s : Server) → core (update_own desk id s).0 ≡ core s
  unfolding update_own
  update_own-core id s =
      ground (arith, on_clipboard_changed-core primary id (s.clipboards id).seq_num s)

  update_clipboards-core : (s : Server) → core (update_clipboards desk s).0 ≡ core s
  unfolding update_clipboards
  update_clipboards-core s =
      ground (arith, update_own-core 0 s, update_own-core 1 (update_own desk 0 s).0)

  switch_screen-core :
      (dst : ℕ) (p : Point) (saver : Bool) (s : Server)
      → (core (switch_screen desk dst p saver s).0 ≡ stopped (core s))
        ⊎ (core (switch_screen desk dst p saver s).0 ≡ record (stopped (core s)) { active = dst })
  unfolding switch_screen place_at stop_switch cut_over
  switch_screen-core dst p saver s = elim (Bool-cases (s.active == dst)) [
    | inl e ↦ rw e (inl refl)
    | inr e ↦ elim (Bool-cases (desk.can_leave s.active)) [
      | inr l ↦ rw (e, l) (inl refl)
      | inl l ↦
          rw (e, l)
            (inr (
              ap (λ (k : Core). record k { active = dst })
                (update_clipboards-core (place_at p (stop_switch s)))))
    ]
  ]

  pub stopped-IsConnected :
      (k : Core) → IsConnected primary name k → IsConnected primary name (stopped k)
  stopped-IsConnected k h = record {
    home = h.home;
    shown = h.shown;
    noted = λ c e. absurd (cc (e, stop_switching-none k.switching));
    saved = h.saved;
    pending = stop_switching-IsPending k.switching h.pending;
    listed = h.listed;
  }

  -- switchScreen to a connected screen, while the screen saver does not run.
  pub switch_screen-IsConnected :
      (dst : ℕ) (p : Point) (saver : Bool) (s : Server)
      → has_client dst s.client_set ≡ true
      → ((c : ℕ) → s.active_saver ≡ some c → (dst ≡ c) ⊎ (dst ≡ primary))
      → IsConnected primary name (core s)
      → IsConnected primary name (core (switch_screen desk dst p saver s).0)
  switch_screen-IsConnected dst p saver s at free h =
      let k = stopped-IsConnected (core s) h in
      elim (switch_screen-core dst p saver s) [
        | inl e ↦ rw e k
        | inr e ↦ rw e (record {
          home = k.home;
          shown = at;
          noted = k.noted;
          saved = λ c f. ((h.saved c f).0, free c f);
          pending = k.pending;
          listed = k.listed;
        })
      ]

  free_lem :
      (dst : ℕ) (o : Option ℕ) → o ≡ none → (c : ℕ) → o ≡ some c → (dst ≡ c) ⊎ (dst ≡ primary)
  free_lem dst o e c f = absurd (cc (e, f))

  -- The same for a switch while the screen saver does not run.
  pub switch_screen-free :
      (dst : ℕ) (p : Point) (s : Server)
      → has_client dst s.client_set ≡ true
      → s.active_saver ≡ none
      → IsConnected primary name (core s)
      → IsConnected primary name (core (switch_screen desk dst p false s).0)
  switch_screen-free dst p s at e h =
      switch_screen-IsConnected dst p false s at (free_lem dst s.active_saver e) h

  pub jump_to_screen-IsConnected :
      (dst : ℕ) (s : Server)
      → has_client dst s.client_set ≡ true
      → s.active_saver ≡ none
      → IsConnected primary name (core s)
      → IsConnected primary name (core (jump_to_screen desk dst s).0)
  unfolding jump_to_screen
  jump_to_screen-IsConnected dst s at e h = switch_screen-free dst _ _ at e h

  jump_if-IsConnected :
      (o : Option ℕ) (s : Server)
      → ((c : ℕ) → o ≡ some c → has_client c s.client_set ≡ true)
      → s.active_saver ≡ none
      → IsConnected primary name (core s)
      → IsConnected primary name (core (jump_if desk o s).0)
  unfolding jump_if
  jump_if-IsConnected none s at e h = h
  jump_if-IsConnected (some c) s at e h = jump_to_screen-IsConnected c s (at c refl) e h

  pub handle_switch_to_screen-IsConnected :
      (n : List ℕ) (s : Server)
      → s.active_saver ≡ none
      → IsConnected primary name (core s)
      → IsConnected primary name (core (handle_switch_to_screen desk n s).0)
  unfolding handle_switch_to_screen
  handle_switch_to_screen-IsConnected n s e h =
      jump_if-IsConnected (find_client n s.clients) s (λ c f. (h.listed n c f).1) e h

  pub handle_toggle_screen-IsConnected :
      (screens : List (List ℕ)) (s : Server)
      → s.active_saver ≡ none
      → IsConnected primary name (core s)
      → IsConnected primary name (core (handle_toggle_screen desk screens s).0)
  unfolding handle_toggle_screen
  handle_toggle_screen-IsConnected screens s e h =
      elim (Option-cases (next_screen (name s.active) screens)) [
        | inl f ↦ rw f h
        | inr (n, f) ↦
            rw f (jump_if-IsConnected (find_client n s.clients) s (λ c g. (h.listed n c g).1) e h)
      ]

  pub stop_relative_moves-core : (s : Server) → core (stop_relative_moves desk s).0 ≡ core s
  unfolding stop_relative_moves place_at
  stop_relative_moves-core s = ground arith

  pub handle_lock_cursor-core :
      (state : Option Bool) (s : Server) → core (handle_lock_cursor desk state s).0 ≡ core s
  unfolding handle_lock_cursor
  handle_lock_cursor-core state s =
      ground (arith, stop_relative_moves-core (record s { locked = toggle state s.locked }))

  pub emergency_return-IsConnected :
      (s : Server)
      → IsConnected primary name (core s)
      → IsConnected primary name (core (emergency_return desk s).0)
  unfolding emergency_return stop_switch
  emergency_return-IsConnected s h =
      let t =
        (stop_relative_moves desk
          (stop_switch (record s { locked = false; broadcasting = false }))).0 in
      let same =
        stop_relative_moves-core
          (stop_switch (record s { locked = false; broadcasting = false })) in
      let k : IsConnected primary name (core t) = rw same (stopped-IsConnected (core s) h) in
      switch_screen-IsConnected primary _ false t k.home (λ c f. inr refl) k
