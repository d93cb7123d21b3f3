-- ===== src/Server/Reload.antt =====
-- A new configuration: processOptions and closeClients. A delay is in milliseconds.
use zero_flow.Prelude.{
  ℕ, zero, suc, Bool, true, false, not, ◌&&◌, ◌||◌, List, [], ◌∷◌, ◌++◌, Option, some, none, ◌==◌,
  ltb, if◌then◌else◌,
}
use zero_flow.Prelude.Int.{ℤ, pos, negsuc}
use zero_flow.Server.{Desk, Settings, Server, Effect}
use zero_flow.Server.Switch.{stop_two_tap, stop_wait}
use zero_flow.Server.Screens.{stop_relative_moves}
use zero_flow.Server.Clients.{erase_from, close_client}
pub mod Kept

-- The option IDs that processOptions tells apart; the default of the lock is only used for a log.
pub data OptionId : Type 0 where
  screen_switch_delay screen_switch_two_tap relative_mouse_moves disable_lock_to_screen : OptionId
  clipboard_sharing clipboard_sharing_size other_option : OptionId

-- A value, or 0 for a negative one.
unfoldable pub at_least_zero : ℤ → ℕ
at_least_zero (pos n) = n
at_least_zero (negsuc n) = 0

unfoldable pub is_set : ℤ → Bool
is_set (pos zero) = false
is_set (pos (suc n)) = true
is_set (negsuc n) = true

-- A round of processOptions' loop, with newRelativeMoves.
unfoldable pub process_option : OptionId → ℤ → Server × Bool → Server × Bool
process_option screen_switch_delay v (s, moves) = (
  record s {
    settings = record s.settings { wait_delay = at_least_zero v };
    switching = stop_wait s.switching;
  },
  moves,
)
process_option screen_switch_two_tap v (s, moves) = (
  record s {
    settings = record s.settings { two_tap_delay = at_least_zero v };
    switching = stop_two_tap s.switching;
  },
  moves,
)
process_option relative_mouse_moves v (s, moves) = (s, is_set v)
process_option disable_lock_to_screen v (s, moves) =
    (record s { settings = record s.settings { disable_lock = is_set v } }, moves)
process_option clipboard_sharing v (s, moves) =
    (record s { settings = record s.settings { enable_clipboard = is_set v } }, moves)
process_option clipboard_sharing_size v (s, moves) =
    (record s { settings = record s.settings { maximum_clipboard_size = at_least_zero v } }, moves)
process_option other_option v (s, moves) = (s, moves)

unfoldable pub process_each : List (OptionId × ℤ) → Server × Bool → Server × Bool
process_each [] r = r
process_each ((o, v) ∷ os) r = process_each os (process_option o v r)

-- The clients of m_clients whose names the configuration does not have, as a set of pointers.
unfoldable pub insert_pointer : ℕ → List ℕ → List ℕ
insert_pointer c [] = c ∷ []
insert_pointer c (d ∷ ds) =
    let more = insert_pointer c ds in
    if c == d then d ∷ ds else if ltb c d then c ∷ d ∷ ds else d ∷ more

unfoldable pub dropped : (List ℕ → Bool) → List (List ℕ × ℕ) → List ℕ
dropped is_canonical [] = []
dropped is_canonical ((n, c) ∷ cs) =
    let more = dropped is_canonical cs in if is_canonical n then more else insert_pointer c more

module _ (desk : Desk) where
  open desk use {primary}

  -- Server::processOptions, for the global options
  unfoldable pub process_options : List (OptionId × ℤ) → Server → Server × List Effect
  process_options options s =
      let (t, moves) = process_each options (s, s.settings.relative_moves) in
      let (u, sent) = stop_relative_moves desk t in
      if t.settings.relative_moves && not moves
      then (record u { settings = record u.settings { relative_moves = moves } }, sent)
      else (record t { settings = record t.settings { relative_moves = moves } }, [])

  unfoldable pub close_each : List ℕ → Server → Server × List Effect
  close_each [] s = (s, [])
  close_each (c ∷ cs) s =
      let (t, sent) = close_client desk c s in let (u, more) = close_each cs t in (u, sent ++ more)

  -- Server::closeClients, for the configuration's isCanonicalName
  unfoldable pub close_clients : (List ℕ → Bool) → Server → Server × List Effect
  close_clients is_canonical s = close_each (erase_from primary (dropped is_canonical s.clients)) s
