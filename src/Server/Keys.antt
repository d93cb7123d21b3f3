-- ===== src/Server/Keys.antt =====
-- Where keys go: onKeyDown, onKeyUp and handleKeyboardBroadcastEvent. A key has an id, a mask of
-- modifiers and a button; the language goes with it unchanged.
use zero_flow.Prelude.{
  ℕ, Bool, true, false, not, ◌&&◌, ◌||◌, List, [], ◌∷◌, Option, some, none, if◌then◌else◌,
}
use zero_flow.KeyInfo.{star, is_default, contains}
use zero_flow.Server.{Server, Effect, key_down, key_up, same_text}
use zero_flow.Server.Switch.{is_some}
use zero_flow.Server.Screens.{toggle}
pub mod Lost

-- The screens of a key, or those of the broadcast if it has a null pointer for them.
unfoldable pub key_screens : Option (List ℕ) → Server → Option (List ℕ)
key_screens screens s =
    if not (is_some screens) && s.broadcasting
    then if is_default (some s.broadcasting_screens)
      then some (star ∷ [])
      else some s.broadcasting_screens
    else screens

-- The loop over m_clients
unfoldable pub send_each : (ℕ → Effect) → Option (List ℕ) → List (List ℕ × ℕ) → List Effect
send_each send screens [] = []
send_each send screens ((n, c) ∷ cs) =
    let rest = send_each send screens cs in if contains screens n then send c ∷ rest else rest

-- What onKeyDown and onKeyUp share, by the call of a client.
unfoldable pub relay : (ℕ → Effect) → Option (List ℕ) → Server → List Effect
relay send screens s =
    if not s.broadcasting && is_default screens
    then send s.active ∷ []
    else send_each send (key_screens screens s) s.clients

-- Server::onKeyDown
unfoldable pub on_key_down : ℕ → ℕ → ℕ → Option (List ℕ) → Server → List Effect
on_key_down id mask button screens s = relay (λ c. key_down c id mask button) screens s

-- Server::onKeyUp
unfoldable pub on_key_up : ℕ → ℕ → ℕ → Option (List ℕ) → Server → List Effect
on_key_up id mask button screens s = relay (λ c. key_up c id mask button) screens s

-- Server::handleKeyboardBroadcastEvent: to a state, or toggled
unfoldable pub handle_keyboard_broadcast : Option Bool → List ℕ → Server → Server
handle_keyboard_broadcast state screens s =
    let new = toggle state s.broadcasting in
    let same = if new then s.broadcasting else not s.broadcasting in
    if not same || not (same_text screens s.broadcasting_screens)
    then record s { broadcasting = new; broadcasting_screens = screens }
    else s
