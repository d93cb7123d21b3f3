-- ===== src/Server/Reload/Kept.antt =====
-- A new configuration, and the invariant of the screens.
use zero_flow.Prelude.{
  ℕ, ◌≡◌, ◌≢◌, refl, sym, ◌∙◌, Bool, not, ◌&&◌, List, [], ◌∷◌, ◌==◌, ==→ne, Bool-cases, inl, inr,
}
use zero_flow.Prelude.Int.{ℤ}
use zero_flow.Server.{Desk, Switching, Server}
use zero_flow.Server.Core.{Core, core, IsConnected}
use zero_flow.Server.Switch.{stop_two_tap, stop_wait}
use zero_flow.Server.Switch.Pending.{IsPending, stop_wait-IsPending}
use zero_flow.Server.Screens.Cut.{stop_relative_moves-core}
use zero_flow.Server.Clients.{erase_from, close_client}
use zero_flow.Server.Clients.Leaving.{close_client-IsConnected}
use zero_flow.Server.Reload.{
  OptionId, screen_switch_delay, screen_switch_two_tap, relative_mouse_moves,
  disable_lock_to_screen, clipboard_sharing, clipboard_sharing_size, other_option, process_option,
  process_each, process_options, close_each, dropped, close_clients,
}

module _ (desk : Desk) where
  open desk use {primary, name}

  waiting_lem :
      (k : Core) (w : Switching)
      → w.screen ≡ k.switching.screen
      → IsPending w
      → IsConnected primary name k
      → IsConnected primary name (record k { switching = w })
  waiting_lem k w same pending h = record {
    home = h.home;
    shown = h.shown;
    noted = λ c e. h.noted c (sym same ∙ e);
    saved = h.saved;
    pending = pending;
    listed = h.listed;
  }

  process_option-IsConnected :
      (o : OptionId) (v : ℤ) (r : Server × Bool)
      → IsConnected primary name (core r.0)
      → IsConnected primary name (core (process_option o v r).0)
  unfolding process_option stop_wait stop_two_tap
  process_option-IsConnected screen_switch_delay v (s, moves) h =
      waiting_lem (core s) (stop_wait s.switching) refl (stop_wait-IsPending s.switching h.pending)
        h
  process_option-IsConnected screen_switch_two_tap v (s, moves) h =
      waiting_lem (core s) (stop_two_tap s.switching) refl
        (record { waits = h.pending.waits; taps = λ e. absurd (cc e) }) h
  process_option-IsConnected relative_mouse_moves v (s, moves) h = h
  process_option-IsConnected disable_lock_to_screen v (s, moves) h = h
  process_option-IsConnected clipboard_sharing v (s, moves) h = h
  process_option-IsConnected clipboard_sharing_size v (s, moves) h = h
  process_option-IsConnected other_option v (s, moves) h = h

  process_each-IsConnected :
      (os : List (OptionId × ℤ)) (r : Server × Bool)
      → IsConnected primary name (core r.0)
      → IsConnected primary name (core (process_each os r).0)
  unfolding process_each
  process_each-IsConnected [] r h = h
  process_each-IsConnected ((o, v) ∷ os) r h =
      process_each-IsConnected os (process_option o v r) (process_option-IsConnected o v r h)

  pub process_options-IsConnected :
      (os : List (OptionId × ℤ)) (s : Server)
      → IsConnected primary name (core s)
      → IsConnected primary name (core (process_options desk os s).0)
  unfolding process_options
  process_options-IsConnected os s h =
      let r = process_each os (s, s.settings.relative_moves) in
      let k = process_each-IsConnected os (s, s.settings.relative_moves) h in
      elim (Bool-cases (r.0.settings.relative_moves && not r.1)) [
        | inl e ↦ rw (e, stop_relative_moves-core desk r.0) k
        | inr e ↦ rw e k
      ]

  -- None of the clients is the primary one.
  abbrev AreAway : List ℕ → Type 0
  AreAway [] = Unit
  AreAway (c ∷ cs) = (primary ≢ c) × AreAway cs

  erase_from-AreAway : (cs : List ℕ) → AreAway (erase_from primary cs)
  unfolding erase_from
  erase_from-AreAway [] = tt
  erase_from-AreAway (c ∷ cs) = elim (Bool-cases (c == primary)) [
    | inl e ↦ rw e (erase_from-AreAway cs)
    | inr e ↦ rw e ((λ x. ==→ne c primary e (sym x)), erase_from-AreAway cs)
  ]

  close_each-IsConnected :
      (cs : List ℕ) (s : Server)
      → AreAway cs
      → IsConnected primary name (core s)
      → IsConnected primary name (core (close_each desk cs s).0)
  unfolding close_each
  close_each-IsConnected [] s away h = h
  close_each-IsConnected (c ∷ cs) s (far, away) h =
      close_each-IsConnected cs (close_client desk c s).0 away
        (close_client-IsConnected desk c s far h)

  pub close_clients-IsConnected :
      (is_canonical : List ℕ → Bool) (s : Server)
      → IsConnected primary name (core s)
      → IsConnected primary name (core (close_clients desk is_canonical s).0)
  unfolding close_clients
  close_clients-IsConnected is_canonical s h =
      close_each-IsConnected _ s (erase_from-AreAway (dropped is_canonical s.clients)) h
