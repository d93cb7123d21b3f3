-- ===== src/Examples/Cursors.antt =====
-- Runs of src/lib/server/Server.cpp: where the cursor goes.
use zero_flow.Prelude.{◌<◌, ◌≡◌, refl, true, false, List, some, none, arith}
use zero_flow.Prelude.Int.{pos, ◌+ℤ◌, ◌-ℤ◌}
use zero_flow.Server.{
  Direction, no_direction, left, right, top, bottom, Server, Effect, same_text, find_client,
}
use zero_flow.Server.Geometry.{last_x}
use zero_flow.Server.Switch.{is_switch_okay}
use zero_flow.Server.Switch.Okay.{may_leave, is_switch_okay-may_leave}
use zero_flow.Server.Moves.{plus, clears_wait, on_mouse_move_secondary}
use zero_flow.Server.Moves.Clamp.{Moves, on_mouse_move_secondary-Moves}
use zero_flow.Server.Moves.Primary.{IsClear, avoid_jump_zone-IsClear}
use zero_flow.Server.Moves.Waits.{clears_wait-bottom}
use zero_flow.Server.Neighbor.{
  across, origin_of, size_of, search, map_to_fraction, map_to_neighbor, has_neighbor_at,
  avoid_jump_zone,
}
use zero_flow.Server.Neighbor.Search.{search_endless}
use zero_flow.Server.Neighbor.Landing.{Lands, distance, map_to_neighbor-Lands}
use zero_flow.Examples.World.{
  server_name, laptop_name, links, some_desk, both, some_ready, off_left, lonely_desk, alone,
  on_laptop,
}

map_to_neighbor-Lands_example :
    Lands some_desk 5 both left 0 off_left (map_to_neighbor some_desk 9 5 both 0 left off_left)
unfolding across origin_of ◌-ℤ◌
map_to_neighbor-Lands_example =
    map_to_neighbor-Lands some_desk 5 both left 9 0 off_left (some_ready left) (omega arith)
      (omega arith)

search_endless_example : search lonely_desk 1000 alone left server_name (pos 10) ≡ none
unfolding find_client same_text
search_endless_example =
    search_endless lonely_desk alone left (λ n. Unit)
      (record { leads = λ n t h. (laptop_name, t, refl, refl, tt) }) 1000 server_name (pos 10) tt

off_distance :
    (dir : Direction)
    → distance dir (some_desk.shape 1) (plus on_laptop.position (record { x = pos 70; y = pos 0 }))
      < 200
unfolding plus ◌+ℤ◌ ◌-ℤ◌ across origin_of
off_distance no_direction = omega arith
off_distance left = omega arith
off_distance right = omega arith
off_distance top = omega arith
off_distance bottom = omega arith

-- A move off the right edge
on_mouse_move_secondary-Moves_example :
    (r : Server × List Effect) × (on_mouse_move_secondary some_desk 200 5
        (record { x = pos 70; y = pos 0 })
        on_laptop
      ≡ some r)
    × Moves some_desk 200 5 on_laptop (plus on_laptop.position (record { x = pos 70; y = pos 0 })) r
on_mouse_move_secondary-Moves_example =
    on_mouse_move_secondary-Moves some_desk 200 5 (record { x = pos 70; y = pos 0 }) on_laptop
      (λ e. omega (arith, e)) refl some_ready off_distance

is_switch_okay-may_leave_example :
    (is_switch_okay some_desk
      (some 0)
      right
      (record { x = pos 1; y = pos 10 })
      (record { x = pos 299; y = pos 10 })
      on_laptop).1
    ≡ may_leave some_desk (some 0) right (record { x = pos 299; y = pos 10 }) on_laptop
is_switch_okay-may_leave_example =
    is_switch_okay-may_leave some_desk (some 0) right (record { x = pos 1; y = pos 10 })
      (record { x = pos 299; y = pos 10 }) on_laptop

-- The primary screen is entered over its left edge, so to the right.
avoid_jump_zone-IsClear_example :
    IsClear some_desk right
      (record { x = pos 0; y = pos 10 })
      (avoid_jump_zone some_desk 0 right (record { x = pos 0; y = pos 10 }))
unfolding has_neighbor_at links same_text map_to_fraction across origin_of size_of ◌+ℤ◌
avoid_jump_zone-IsClear_example =
    avoid_jump_zone-IsClear some_desk right (record { x = pos 0; y = pos 10 }) (λ e. cc e) refl
      (omega arith) (omega arith, omega arith)

clears_wait-bottom_example :
    (clears_wait left (some_desk.shape 1) 1 (record { x = pos 200; y = pos 49 }) ≡ false)
    × (clears_wait right
          (some_desk.shape 1)
          1
          (record { x = last_x (some_desk.shape 1); y = pos 49 })
        ≡ false)
    × (clears_wait top (some_desk.shape 1) 1 (record { x = pos 250; y = pos 0 }) ≡ false)
    × (clears_wait bottom (some_desk.shape 1) 1 (record { x = pos 250; y = pos 49 }) ≡ true)
unfolding ◌+ℤ◌ ◌-ℤ◌
clears_wait-bottom_example =
    clears_wait-bottom (some_desk.shape 1) 1 (record { x = pos 250; y = pos 49 })
      (omega arith, omega arith, omega arith, omega arith) (omega arith)
