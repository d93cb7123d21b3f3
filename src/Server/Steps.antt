-- ===== src/Server/Steps.antt =====
-- The server's events, one after another, and the screens that it refers to meanwhile.
use zero_flow.Prelude.{
  ℕ, ◌≡◌, ◌≢◌, refl, sym, ap, ◌∙◌, subst, Bool, true, false, List, [], ◌∷◌, Option, some, none,
  Option-cases, inl, inr, arith,
}
use zero_flow.Server.{Direction, Point, Desk, Server, Effect, find_client, has_client, same_text}
use zero_flow.Server.Core.{Core, core, IsConnected, same_text-eq}
use zero_flow.Server.Switch.{is_some}
use zero_flow.Server.Clipboards.{handle_clipboard_changed, handle_clipboard_grabbed}
use zero_flow.Server.Screens.{
  handle_switch_wait_timeout, handle_switch_to_screen, handle_switch_in_direction,
  handle_toggle_screen, handle_lock_cursor, emergency_return, on_screensaver,
}
use zero_flow.Server.Screens.Cut.{
  handle_clipboard_changed-core, handle_clipboard_grabbed-core, handle_switch_to_screen-IsConnected,
  handle_toggle_screen-IsConnected, handle_lock_cursor-core, emergency_return-IsConnected,
}
use zero_flow.Server.Screens.Jump.{
  Keeps, handle_switch_wait_timeout-Keeps, handle_switch_in_direction-Keeps,
  on_screensaver-IsConnected,
}
use zero_flow.Server.Moves.{on_mouse_move_primary, on_mouse_move_secondary, handle_shape_changed}
use zero_flow.Server.Moves.Connected.{
  on_mouse_move_primary-Keeps, on_mouse_move_secondary-Keeps, handle_shape_changed-Keeps,
}
use zero_flow.Server.Keys.{handle_keyboard_broadcast, on_key_down, on_key_up}
use zero_flow.Server.Keys.Lost.{handle_keyboard_broadcast-core}
use zero_flow.Prelude.Int.{ℤ}
use zero_flow.Server.Reload.{OptionId, process_options, close_clients}
use zero_flow.Server.Reload.Kept.{process_options-IsConnected, close_clients-IsConnected}
use zero_flow.Server.Clients.{
  add_client, close_client, remove_old_client, handle_client_disconnected,
}
use zero_flow.Server.Clients.Leaving.{
  add_client-IsConnected, close_client-IsConnected, remove_old_client-core,
  handle_client_disconnected-IsConnected,
}
pub mod Reachable

pub data Event : Type 0 where
  shape_change : ℕ → Event
  clipboard_grab clipboard_change : ℕ → ℕ → ℕ → Event
  motion_primary motion_secondary : Point → Event
  screensaver_change : Bool → Event
  switch_wait_timeout : Event
  switch_to_screen : List ℕ → Event
  switch_in_direction : Direction → Event
  toggle_screen : List (List ℕ) → Event
  lock_cursor : Option Bool → Event
  emergency : Event
  new_options : List (OptionId × ℤ) → Event
  new_names : (List ℕ → Bool) → Event
  keyboard_broadcast : Option Bool → List ℕ → Event
  key_press key_release : ℕ → ℕ → ℕ → List ℕ → Event
  client_join client_close client_disconnect close_timeout : ℕ → Event

-- The handler of an event
unfoldable pub handle : Desk → ℕ → ℕ → Event → Server → Option (Server × List Effect)
handle desk rounds fuel (shape_change c) s = handle_shape_changed desk rounds fuel c s
handle desk rounds fuel (clipboard_grab c id seq) s =
    some (handle_clipboard_grabbed desk c id seq s)
handle desk rounds fuel (clipboard_change c id seq) s =
    some (handle_clipboard_changed desk c id seq s)
handle desk rounds fuel (motion_primary p) s = on_mouse_move_primary desk rounds fuel p s
handle desk rounds fuel (motion_secondary d) s = on_mouse_move_secondary desk rounds fuel d s
handle desk rounds fuel (screensaver_change on) s = some (on_screensaver desk on s)
handle desk rounds fuel switch_wait_timeout s = handle_switch_wait_timeout desk s
handle desk rounds fuel (switch_to_screen n) s = some (handle_switch_to_screen desk n s)
handle desk rounds fuel (switch_in_direction d) s = handle_switch_in_direction desk fuel d s
handle desk rounds fuel (toggle_screen screens) s = some (handle_toggle_screen desk screens s)
handle desk rounds fuel (lock_cursor state) s = some (handle_lock_cursor desk state s)
handle desk rounds fuel emergency s = some (emergency_return desk s)
handle desk rounds fuel (keyboard_broadcast state screens) s =
    some (handle_keyboard_broadcast state screens s, [])
handle desk rounds fuel (key_press id mask button screens) s =
    some (s, on_key_down id mask button (some screens) s)
handle desk rounds fuel (key_release id mask button screens) s =
    some (s, on_key_up id mask button (some screens) s)
handle desk rounds fuel (new_options options) s = some (process_options desk options s)
handle desk rounds fuel (new_names is_canonical) s = some (close_clients desk is_canonical s)
handle desk rounds fuel (client_join c) s =
    let (t, sent, joined) = add_client desk c s in some (t, sent)
handle desk rounds fuel (client_close c) s = some (close_client desk c s)
handle desk rounds fuel (client_disconnect c) s = some (handle_client_disconnected desk c s)
handle desk rounds fuel (close_timeout c) s = some (remove_old_client desk c s)

-- The primary screen never goes away, and nothing but the emergency return and the screen saver itself
-- switches screens while the screen saver runs.
abbrev pub Allowed : ℕ → Event → Server → Type 0
Allowed primary (shape_change c) s = s.active_saver ≡ none
Allowed primary (motion_primary p) s = s.active_saver ≡ none
Allowed primary (motion_secondary d) s = s.active_saver ≡ none
Allowed primary switch_wait_timeout s = s.active_saver ≡ none
Allowed primary (switch_to_screen n) s = s.active_saver ≡ none
Allowed primary (switch_in_direction d) s = s.active_saver ≡ none
Allowed primary (toggle_screen screens) s = s.active_saver ≡ none
Allowed primary (client_close c) s = primary ≢ c
Allowed primary (client_disconnect c) s = primary ≢ c
Allowed primary _ s = Unit

-- The server as its constructor leaves it, with the primary client alone.
pub record IsStarted (primary : ℕ) (name : ℕ → List ℕ) (s : Server) : Type 0 where
  pub shown : s.active ≡ primary
  pub set : s.client_set ≡ primary ∷ []
  pub listed : s.clients ≡ (name primary, primary) ∷ []
  pub unsaved : s.active_saver ≡ none
  pub unnoted : s.switching.screen ≡ none
  pub unwaited : s.switching.wait ≡ none
  pub untapped : s.switching.engaged ≡ false

-- The states that a sequence of events leads to. What holds outside may change at each of them, but for
-- which client is the primary one and for the names of the clients.
pub data Reach (primary : ℕ) (name : ℕ → List ℕ) : Server → Type 1 where
  start : (s : Server) → IsStarted primary name s → Reach primary name s
  event :
      (s t : Server) (desk : Desk) (rounds fuel : ℕ) (e : Event) (sent : List Effect)
      → Reach primary name s
      → desk.primary ≡ primary
      → desk.name ≡ name
      → Allowed primary e s
      → handle desk rounds fuel e s ≡ some (t, sent)
      → Reach primary name t

module _ (desk : Desk) (rounds fuel : ℕ) where
  open desk use {primary, name}

  keeps_lem : (c k : Core) → c ≡ k → IsConnected primary name k → IsConnected primary name c
  keeps_lem c k e h = rw e h

  pub handle-Keeps :
      (e : Event) (s : Server)
      → Allowed primary e s
      → IsConnected primary name (core s)
      → Keeps desk (handle desk rounds fuel e s)
  unfolding handle
  handle-Keeps (shape_change c) s k h = handle_shape_changed-Keeps desk rounds fuel c s (h, k)
  handle-Keeps (clipboard_grab c id seq) s k h =
      keeps_lem _ _ (handle_clipboard_grabbed-core desk c id seq s) h
  handle-Keeps (clipboard_change c id seq) s k h =
      keeps_lem _ _ (handle_clipboard_changed-core desk c id seq s) h
  handle-Keeps (motion_primary p) s k h = on_mouse_move_primary-Keeps desk rounds fuel p s (h, k)
  handle-Keeps (motion_secondary d) s k h =
      on_mouse_move_secondary-Keeps desk rounds fuel d s (h, k)
  handle-Keeps (screensaver_change on) s k h = on_screensaver-IsConnected desk on s h
  handle-Keeps switch_wait_timeout s k h = handle_switch_wait_timeout-Keeps desk s k h
  handle-Keeps (switch_to_screen n) s k h = handle_switch_to_screen-IsConnected desk n s k h
  handle-Keeps (switch_in_direction d) s k h = handle_switch_in_direction-Keeps desk fuel d s k h
  handle-Keeps (toggle_screen screens) s k h = handle_toggle_screen-IsConnected desk screens s k h
  handle-Keeps (lock_cursor state) s k h = keeps_lem _ _ (handle_lock_cursor-core desk state s) h
  handle-Keeps emergency s k h = emergency_return-IsConnected desk s h
  handle-Keeps (keyboard_broadcast state screens) s k h =
      keeps_lem _ _ (handle_keyboard_broadcast-core state screens s) h
  handle-Keeps (key_press id mask button screens) s k h = h
  handle-Keeps (key_release id mask button screens) s k h = h
  handle-Keeps (new_options options) s k h = process_options-IsConnected desk options s h
  handle-Keeps (new_names is_canonical) s k h = close_clients-IsConnected desk is_canonical s h
  handle-Keeps (client_join c) s k h = add_client-IsConnected desk c s h
  handle-Keeps (client_close c) s k h = close_client-IsConnected desk c s k h
  handle-Keeps (client_disconnect c) s k h = handle_client_disconnected-IsConnected desk c s k h
  handle-Keeps (close_timeout c) s k h = keeps_lem _ _ (remove_old_client-core desk c s) h
