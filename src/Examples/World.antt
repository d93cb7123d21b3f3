-- ===== src/Examples/World.antt =====
-- A server and a laptop to the left of it, for runs of src/lib/server/Server.cpp. A fraction is the
-- offset in pixels, since the screens are equally large.
use zero_flow.Prelude.{
  ℕ, zero, suc, ◌*◌, ◌<◌, ◌≡◌, refl, Bool, true, false, List, [], ◌∷◌, Option, some, none, arith,
}
use zero_flow.Prelude.Int.{ℤ, pos, negsuc}
use zero_flow.Server.{
  Direction, no_direction, left, right, top, bottom, Point, origin, Desk, Switching, ClipboardInfo,
  Settings, Server, same_text, find_client,
}
use zero_flow.Server.Neighbor.{size_of}
use zero_flow.Server.Neighbor.Search.{EndsBy}
use zero_flow.Server.Neighbor.Land.{Ready}

abbrev pub server_name : List ℕ
server_name = b's' ∷ []

abbrev pub laptop_name : List ℕ
laptop_name = b'l' ∷ []

abbrev pub name_of : ℕ → List ℕ
name_of zero = server_name
name_of (suc c) = laptop_name

abbrev pub link_if : Bool → List ℕ → ℤ → Option (List ℕ × ℤ)
link_if true to f = some (to, f)
link_if false to f = none

unfoldable pub links : List ℕ → Direction → ℤ → Option (List ℕ × ℤ)
links n left f = link_if (same_text n server_name) laptop_name f
links n right f = link_if (same_text n laptop_name) server_name f
links n _ f = none

abbrev pub some_desk : Desk
some_desk = record {
  Fraction = ℤ;
  to_fraction = λ z n. z;
  to_pixel = λ f n. f;
  link = links;
  has_link = λ n d. true;
  primary = 0;
  name = name_of;
  own_name = name_of;
  shape = λ c. record { x = pos (200 * c); y = pos 0; w = 100; h = 50 };
  jump_zone = 1;
  corner_lock = λ n. some (1, pos 5);
  can_leave = λ c. true;
  primary_locked = false;
  toggle_mask = 0;
  clipboard = λ c id. b'n' ∷ b'e' ∷ b'w' ∷ [];
  cursor_center = record { x = pos 50; y = pos 25 };
  cursor_pos = λ c. origin;
  tap_time = 100;
}

abbrev pub both : List (List ℕ × ℕ)
both = (laptop_name, 1) ∷ (server_name, 0) ∷ []

pub both-EndsBy : (dir : Direction) → EndsBy some_desk both dir (λ n. 0)
unfolding find_client same_text links
both-EndsBy dir = record { falls = λ n m t u e f. absurd (known dir n m t u e f) }
  where
    known_of :
        (b : Bool) (to m : List ℕ) (c : ℕ) (t u : ℤ)
        → find_client to both ≡ some c
        → link_if b to t ≡ some (m, u)
        → find_client m both ≡ none
        → ⊥
    known_of false to m c t u k e f = cc e
    known_of true to m c t u k e f = cc (k, e, f)

    known :
        (dir : Direction) (n m : List ℕ) (t u : ℤ)
        → links n dir t ≡ some (m, u)
        → find_client m both ≡ none
        → ⊥
    known left n m t u e f = known_of _ laptop_name m 1 t u refl e f
    known right n m t u e f = known_of _ server_name m 0 t u refl e f
    known no_direction n m t u e f = cc e
    known top n m t u e f = cc e
    known bottom n m t u e f = cc e

pub some_size : (dir : Direction) (c : ℕ) → 0 < size_of dir (some_desk.shape c)
unfolding size_of
some_size no_direction c = omega arith
some_size left c = omega arith
some_size right c = omega arith
some_size top c = omega arith
some_size bottom c = omega arith

pub some_ready : (dir : Direction) → Ready some_desk 5 both dir
some_ready dir = record {
  sized = some_size dir;
  rank = λ n. 0;
  ends = both-EndsBy dir;
  fueled = λ n. omega arith;
}

-- Off the left edge of the server's screen.
abbrev pub off_left : Point
off_left = record { x = negsuc 2; y = pos 10 }

-- Where every link leads to the laptop, which is not connected.
abbrev pub lonely_desk : Desk
lonely_desk = record some_desk { link = λ n d f. some (laptop_name, f) }

abbrev pub alone : List (List ℕ × ℕ)
alone = (server_name, 0) ∷ []

abbrev pub idle : Switching
idle = record { screen = none; dir = no_direction; engaged = false; armed = false; wait = none }

abbrev pub some_settings : Settings
some_settings = record {
  wait_delay = 0;
  two_tap_delay = 0;
  two_tap_zone = 3;
  relative_moves = false;
  disable_lock = false;
  enable_clipboard = true;
  maximum_clipboard_size = 1000;
}

abbrev pub no_info : ClipboardInfo
no_info = record { clipboard = []; content = []; owner = server_name; seq_num = 0 }

-- The server as it starts.
abbrev pub started_server : Server
started_server = record {
  active = 0;
  position = origin;
  delta = origin;
  delta2 = origin;
  switching = idle;
  settings = some_settings;
  locked = false;
  broadcasting = false;
  broadcasting_screens = [];
  active_saver = none;
  saver_position = origin;
  seq_num = 0;
  clients = alone;
  client_set = 0 ∷ [];
  old_clients = [];
  clipboards = λ id. no_info;
  jump_pos = λ c. origin;
}

-- Both screens are connected, and the cursor is in the middle of the laptop's.
abbrev pub on_laptop : Server
on_laptop = record started_server {
  active = 1;
  position = record { x = pos 250; y = pos 25 };
  clients = both;
  client_set = 1 ∷ 0 ∷ [];
}
