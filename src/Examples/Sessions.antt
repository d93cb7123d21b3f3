-- ===== src/Examples/Sessions.antt =====
-- Runs of src/lib/server/Server.cpp: clients, clipboards and events.
use zero_flow.Prelude.{
  ◌↔◌, ℕ, ◌≡◌, ◌⊎◌, refl, true, false, [], ◌∷◌, some, arith, ◌==◌, if◌then◌else◌,
}
use zero_flow.Prelude.Int.{pos, ◌+ℤ◌, ◌-ℤ◌, ltb_ℤ}
use zero_flow.Server.{left, Point, origin, Server, same_text, find_client, has_client}
use zero_flow.Server.Geometry.{get_corner, corner_y}
use zero_flow.Server.Core.{core, IsConnected}
use zero_flow.Server.Neighbor.{
  across, set_across, origin_of, size_of, map_to_fraction, map_to_pixel, visit, search, place,
  get_neighbor, back_to_actual, go_on, land_low, land, avoid_jump_zone, settle, from_neighbor,
  map_to_neighbor,
}
use zero_flow.Server.Switch.{
  same_direction, is_some, start_wait, stop_switch, stop_switching, is_locked, in_locked_corner,
  is_locked_corner, note_screen, tap_test, wait_test, corner_test, lock_test, prevents,
  is_switch_okay, no_switch,
}
use zero_flow.Server.Screens.{active_sides, switch_screen, handle_switch_wait_timeout}
use zero_flow.Server.Moves.{
  snap, snap_to, side_h, side_v, reach, minus, record_move, switch_if, judge, try_edge, try_next,
  follow, move_by, move_primary, on_mouse_move_primary,
}
use zero_flow.Server.Clients.{less_text, insert_client, add_client, remove_active_client}
use zero_flow.Server.Steps.{client_join, motion_primary, handle, Reach, start, event}
use zero_flow.Server.Steps.Reachable.{Reach-IsConnected, Reach-wait}
use zero_flow.Server.Screens.Stale.{handle_switch_wait_timeout-stale}
use zero_flow.Server.Clients.Stale.{remove_active_client-stale}
use zero_flow.Server.Clipboards.{on_clipboard_changed, handle_clipboard_grabbed}
use zero_flow.Server.Clipboards.Sizes.{IsMild}
use zero_flow.Server.Clipboards.Sequence.{handle_clipboard_grabbed-late}
use zero_flow.Server.Screens.Sizes.{switch_screen-IsMild}
use zero_flow.KeyInfo.{is_only_star, join, split, contains}
use zero_flow.KeyInfo.RoundTrip.{split-join}
use zero_flow.KeyInfo.Search.{IsOneOf, contains-join}
use zero_flow.Server.Keys.{on_key_down, on_key_up}
use zero_flow.Server.Keys.Lost.{on_key-lost}
use zero_flow.Examples.World.{
  server_name, laptop_name, some_desk, name_of, both, links, started_server, some_settings,
}

-- The server that waits before a switch.
abbrev patient : Server
patient = record started_server { settings = record some_settings { wait_delay = 250 } }

abbrev joined : Server
joined = record patient {
  clients = both;
  client_set = 1 ∷ 0 ∷ [];
  jump_pos = λ d. if d == 1 then origin else origin;
}

at_start : Reach 0 name_of patient
at_start = start patient (record {
  shown = refl;
  set = refl;
  listed = refl;
  unsaved = refl;
  unnoted = refl;
  unwaited = refl;
  untapped = refl;
})

at_join : Reach 0 name_of joined
unfolding handle add_client insert_client find_client same_text is_some less_text active_sides
at_join = event patient joined some_desk 9 9 (client_join 1) _ at_start refl refl tt refl

Reach-IsConnected_example : IsConnected 0 name_of (core joined)
Reach-IsConnected_example = Reach-IsConnected 0 name_of joined at_join

-- The cursor comes to the left edge, and the switch to the laptop waits.
abbrev waiting : Server
waiting = record joined {
  position = record { x = pos 0; y = pos 30 };
  delta = record { x = pos 0; y = pos 30 };
  switching = record {
    screen = some 1;
    dir = left;
    engaged = false;
    armed = false;
    wait = some (record { x = pos 299; y = pos 30 });
  };
}

first_move :
    handle some_desk 9 9 (motion_primary (record { x = pos 0; y = pos 30 })) joined
    ≡ some (waiting, [])
unfolding handle on_mouse_move_primary move_primary move_by snap snap_to side_h side_v reach minus
    record_move switch_if judge try_edge try_next follow map_to_neighbor from_neighbor get_neighbor
    place search visit links same_text find_client settle land land_low set_across back_to_actual
    go_on across origin_of size_of map_to_fraction map_to_pixel avoid_jump_zone is_switch_okay
    prevents note_screen tap_test wait_test corner_test lock_test is_some start_wait stop_switching
    in_locked_corner is_locked_corner get_corner corner_y is_locked same_direction ltb_ℤ ◌+ℤ◌ ◌-ℤ◌
first_move = refl

at_wait : Reach 0 name_of waiting
at_wait =
    event joined waiting some_desk 9 9 (motion_primary (record { x = pos 0; y = pos 30 })) []
      at_join refl refl refl first_move

Reach-wait_example :
    (handle_switch_wait_timeout some_desk waiting ≡ some (stop_switch waiting, []))
    ⊎ ((c : ℕ) × (p : Point) × (has_client c (1 ∷ 0 ∷ []) ≡ true)
        × (handle_switch_wait_timeout some_desk waiting
            ≡ some (switch_screen some_desk c p false waiting)))
unfolding is_some
Reach-wait_example = Reach-wait 0 name_of waiting some_desk at_wait refl

handle_switch_wait_timeout-stale_example :
    let t =
      no_switch some_desk origin
        (is_switch_okay some_desk
          (some 1)
          left
          (record { x = pos 299; y = pos 20 })
          (record { x = pos 0; y = pos 20 })
          joined).0 in
    let u =
      (is_switch_okay some_desk
        (some 2)
        left
        (record { x = pos 499; y = pos 30 })
        (record { x = pos 0; y = pos 30 })
        t).0 in
    handle_switch_wait_timeout some_desk u
    ≡ some (switch_screen some_desk 1 (record { x = pos 499; y = pos 30 }) false u)
unfolding is_locked in_locked_corner is_locked_corner get_corner corner_y ltb_ℤ ◌+ℤ◌ ◌-ℤ◌
handle_switch_wait_timeout-stale_example =
    handle_switch_wait_timeout-stale some_desk joined 1 2 left (record { x = pos 299; y = pos 20 })
      (record { x = pos 499; y = pos 30 }) (record { x = pos 0; y = pos 20 }) origin
      (record { x = pos 0; y = pos 30 }) refl (omega arith) refl refl refl refl

-- The screen saver interrupted screen 2, and the laptop has the cursor since.
abbrev asleep : Server
asleep = record joined { active = 1; active_saver = some 2 }

remove_active_client-stale_example :
    let t = (remove_active_client some_desk 1 asleep).0 in
    (t.active ≡ 1) × (has_client t.active t.client_set ≡ false)
unfolding has_client
remove_active_client-stale_example =
    remove_active_client-stale some_desk asleep 1 2 refl refl refl (λ e. omega (arith, e))

handle_clipboard_grabbed-late_example :
    let t = (handle_clipboard_grabbed some_desk 1 0 7 joined).0 in
    on_clipboard_changed some_desk 0 0 6 t ≡ (t, [])
unfolding has_client
handle_clipboard_grabbed-late_example =
    handle_clipboard_grabbed-late some_desk 1 0 7 joined 0 6 (λ e. omega (arith, e)) refl refl
      (omega arith) (omega arith) (omega arith)

switch_screen-IsMild_example : IsMild joined (switch_screen some_desk 1 origin false joined)
switch_screen-IsMild_example = switch_screen-IsMild some_desk 1 origin false joined

split-join_example :
    split (some (join (server_name ∷ laptop_name ∷ []))) ≡ some (server_name ∷ laptop_name ∷ [])
unfolding is_only_star
split-join_example = split-join (server_name ∷ laptop_name ∷ []) (
  ((λ e. omega (arith, e)), (λ e. omega (arith, e)), tt),
  refl,
  (((λ e. omega (arith, e)), (λ e. omega (arith, e)), tt), refl, tt),
)

contains-join_example :
    (contains (some (join (server_name ∷ laptop_name ∷ []))) laptop_name ≡ true)
    ↔ IsOneOf laptop_name (server_name ∷ laptop_name ∷ [])
unfolding is_only_star
contains-join_example =
    contains-join laptop_name (server_name ∷ laptop_name ∷ [])
      ((λ e. omega (arith, e)), (λ e. omega (arith, e)), tt)
      (
        ((λ e. omega (arith, e)), (λ e. omega (arith, e)), tt),
        refl,
        (((λ e. omega (arith, e)), (λ e. omega (arith, e)), tt), refl, tt),
      )

-- Keys go to the laptop.
abbrev spreading : Server
spreading = record joined { broadcasting = true; broadcasting_screens = b':' ∷ b'l' ∷ b':' ∷ [] }

on_key-lost_example :
    (on_key_down 97 0 38 (some []) spreading ≡ []) × (on_key_up 97 0 38 (some []) spreading ≡ [])
on_key-lost_example = on_key-lost 97 0 38 spreading refl
