-- ===== src/Server/Keys/Lost.antt =====
-- Which screens get a key that names none.
use zero_flow.Prelude.{ℕ, ◌≡◌, refl, Bool, true, List, [], ◌∷◌, Option, some, arith}
use zero_flow.KeyInfo.{is_default, contains, contains_text}
use zero_flow.Server.{Server, Effect, key_down, key_up}
use zero_flow.Server.Core.{core}
use zero_flow.Server.Switch.{is_some}
use zero_flow.Server.Keys.{
  key_screens, send_each, relay, on_key_down, on_key_up, handle_keyboard_broadcast,
}

pub handle_keyboard_broadcast-core :
    (state : Option Bool) (screens : List ℕ) (s : Server)
    → core (handle_keyboard_broadcast state screens s) ≡ core s
unfolding handle_keyboard_broadcast
handle_keyboard_broadcast-core state screens s = ground arith

send_each-none : (send : ℕ → Effect) (cs : List (List ℕ × ℕ)) → send_each send (some []) cs ≡ []
unfolding send_each contains contains_text
send_each-none send [] = refl
send_each-none send ((n, c) ∷ cs) = send_each-none send cs

-- While keys are broadcast, a key whose event names no screens, which handleKeyDownEvent and
-- handleKeyUpEvent pass as an empty text and never as a null pointer, is sent to no screen at all,
-- neither when it is pressed nor when it is released, whatever screens the broadcast is for.
pub on_key-lost :
    (id mask button : ℕ) (s : Server)
    → s.broadcasting ≡ true
    → (on_key_down id mask button (some []) s ≡ []) × (on_key_up id mask button (some []) s ≡ [])
unfolding on_key_down on_key_up relay key_screens is_some is_default
on_key-lost id mask button s h =
    let down = send_each-none (λ c. key_down c id mask button) s.clients in
    let up = send_each-none (λ c. key_up c id mask button) s.clients in (rw h down, rw h up)
