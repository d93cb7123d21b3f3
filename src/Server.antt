-- ===== src/Server.antt =====
-- src/lib/server/Server.cpp: which screen has the cursor, and when it moves to another. A client is a
-- number for its pointer. Coordinates are integers; an int32_t that overflows is not modelled. What
-- the server asks of its clients, of the configuration and of the clock at an event is the record
-- Desk; what it tells them is a list of effects, in order.
use zero_flow.Prelude.{
  ℕ, zero, suc, Bool, true, false, List, [], ◌∷◌, Option, some, none, ◌==◌, if◌then◌else◌,
}
use zero_flow.Prelude.Int.{ℤ, pos, ◌+ℤ◌, ◌-ℤ◌}
pub mod Geometry
pub mod Neighbor
pub mod Switch
pub mod Clipboards
pub mod Screens
pub mod Moves
pub mod Core
pub mod Clients
pub mod Keys
pub mod Reload
pub mod Steps

-- Direction of src/lib/base/DirectionTypes.h
pub data Direction : Type 0 where
  no_direction left right top bottom : Direction

pub record Point : Type 0 where
  pub x : ℤ
  pub y : ℤ

abbrev pub origin : Point
origin = record { x = pos 0; y = pos 0 }

-- What getShape stores.
pub record Shape : Type 0 where
  pub x : ℤ
  pub y : ℤ
  pub w : ℕ
  pub h : ℕ

-- What holds outside of the server at an event. A fraction is a float: to_fraction is the division of
-- mapToFraction, by an offset and a size, and to_pixel the multiplication and the cast of mapToPixel.
-- `link` is Config::getNeighbor; the name is not empty.
-- `name` is Server::getName, the canonical name, and `own_name` BaseClientProxy::getName. `corner_lock` is the corners and the size of
-- the options for a screen, or else the global ones.
pub record Desk : Type 1 where
  pub Fraction : Type 0
  pub to_fraction : ℤ → ℕ → Fraction
  pub to_pixel : Fraction → ℕ → ℤ
  pub link : List ℕ → Direction → Fraction → Option (List ℕ × Fraction)
  pub has_link : List ℕ → Direction → Bool
  pub primary : ℕ
  pub name : ℕ → List ℕ
  pub own_name : ℕ → List ℕ
  pub shape : ℕ → Shape
  pub jump_zone : ℕ
  pub corner_lock : List ℕ → Option (ℕ × ℤ)
  pub can_leave : ℕ → Bool
  pub primary_locked : Bool
  pub toggle_mask : ℕ
  pub clipboard : ℕ → ℕ → List ℕ
  pub cursor_center : Point
  pub cursor_pos : ℕ → Point
  pub tap_time : ℕ

-- m_switchScreen, m_switchDir, the flags of the double tap, and m_switchWaitTimer with its position.
pub record Switching : Type 0 where
  pub screen : Option ℕ
  pub dir : Direction
  pub engaged : Bool
  pub armed : Bool
  pub wait : Option Point

-- m_clipboards. A clipboard is what marshall makes of it.
pub record ClipboardInfo : Type 0 where
  pub clipboard : List ℕ
  pub content : List ℕ
  pub owner : List ℕ
  pub seq_num : ℕ

-- The options that processOptions stores.
pub record Settings : Type 0 where
  pub wait_delay : ℕ
  pub two_tap_delay : ℕ
  pub two_tap_zone : ℕ
  pub relative_moves : Bool
  pub disable_lock : Bool
  pub enable_clipboard : Bool
  pub maximum_clipboard_size : ℕ

-- The members of Server. `clients` is m_clients, `client_set` m_clientSet, `old_clients` the
-- keys of m_oldClients, and `jump_pos` what
-- setJumpCursorPos keeps in each client.
pub record Server : Type 0 where
  pub active : ℕ
  pub position : Point
  pub delta : Point
  pub delta2 : Point
  pub switching : Switching
  pub settings : Settings
  pub locked : Bool
  pub broadcasting : Bool
  pub broadcasting_screens : List ℕ
  pub active_saver : Option ℕ
  pub saver_position : Point
  pub seq_num : ℕ
  pub clients : List (List ℕ × ℕ)
  pub client_set : List ℕ
  pub old_clients : List ℕ
  pub clipboards : ℕ → ClipboardInfo
  pub jump_pos : ℕ → Point

-- Calls of the clients, in the order of the source, and the events that the server adds. Where
-- assertions are on, the program ends at `assertion_failed`; where they are off, it goes on.
pub data Effect : Type 0 where
  leave : ℕ → Effect
  enter : ℕ → Point → ℕ → ℕ → Bool → Effect
  mouse_move relative_move : ℕ → Point → Effect
  mouse_up : ℕ → ℕ → Effect
  set_clipboard : ℕ → ℕ → List ℕ → Effect
  set_dirty : ℕ → ℕ → Bool → Effect
  grab_clipboard : ℕ → ℕ → Effect
  screensaver : ℕ → Bool → Effect
  screen_switched : List ℕ → Effect
  assertion_failed : Effect
  key_down key_up : ℕ → ℕ → ℕ → ℕ → Effect
  release_buttons : Effect
  reconfigure : ℕ → Effect
  server_disconnected : Effect

-- std::string's ==
unfoldable pub same_text : List ℕ → List ℕ → Bool
same_text [] [] = true
same_text [] (b ∷ bs) = false
same_text (a ∷ more) [] = false
same_text (a ∷ bs) (b ∷ cs) = let more = same_text bs cs in if a == b then more else false

-- m_clients.find
unfoldable pub find_client : List ℕ → List (List ℕ × ℕ) → Option ℕ
find_client n [] = none
find_client n ((m, c) ∷ cs) = let more = find_client n cs in if same_text m n then some c else more

-- m_clientSet.contains, also for m_oldClients
unfoldable pub has_client : ℕ → List ℕ → Bool
has_client c [] = false
has_client c (d ∷ ds) = let more = has_client c ds in if d == c then true else more
