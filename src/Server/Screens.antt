-- ===== src/Server/Screens.antt =====
-- How the cursor gets to another screen: switchScreen, jumpToScreen, the screen saver, the timer and
-- the hotkeys.
use zero_flow.Prelude.{
  ℕ, ◌+◌, ◌/◌, ◌%◌, ◌^◌, zero, suc, Bool, true, false, not, ◌&&◌, ◌||◌, List, [], ◌∷◌, ◌++◌, Option,
  some, none, ◌==◌, ltb, length, if◌then◌else◌,
}
use zero_flow.Prelude.Int.{ℤ, pos, ◌+ℤ◌, ◌-ℤ◌, ltb_ℤ}
use zero_flow.Server.{
  Direction, no_direction, left, right, top, bottom, Point, origin, Shape, Desk, Server, Effect,
  leave, enter, mouse_move, mouse_up, set_clipboard, screensaver, screen_switched, reconfigure,
  same_text, find_client,
}
use zero_flow.Server.Neighbor.{get_neighbor}
use zero_flow.Server.Switch.{is_locked, stop_switch}
use zero_flow.Server.Clipboards.{on_clipboard_changed}
pub mod Cut
pub mod Jump
pub mod Sizes
pub mod Stale

-- The position and the deltas that switchScreen records.
unfoldable pub place_at : Point → Server → Server
place_at p s = record s { position = p; delta = origin; delta2 = origin }

unfoldable pub toggle : Option Bool → Bool → Bool
toggle none old = not old
toggle (some new) old = new

-- The screen behind the name in the list of the connected screens, around its end.
unfoldable pub behind : List ℕ → List ℕ → List (List ℕ) → Option (List ℕ)
behind n first [] = none
behind n first (m ∷ ms) = if same_text m n then some (next_of first ms) else behind n first ms
  where
    next_of : List ℕ → List (List ℕ) → List ℕ
    next_of first [] = first
    next_of first (m ∷ ms) = m

unfoldable pub next_screen : List ℕ → List (List ℕ) → Option (List ℕ)
next_screen n [] = none
next_screen n (m ∷ []) = none
next_screen n (m ∷ k ∷ ms) = behind n m (m ∷ k ∷ ms)

-- The loop of onScreensaver over m_clients.
unfoldable pub tell_screensaver : Bool → List (List ℕ × ℕ) → List Effect
tell_screensaver on [] = []
tell_screensaver on ((n, c) ∷ cs) = screensaver c on ∷ tell_screensaver on cs

-- The clamp of onScreensaver, for one coordinate.
unfoldable pub clamp_saver : ℤ → ℕ → ℕ → ℤ → ℤ
clamp_saver at size zone z =
    if ltb_ℤ z (at +ℤ pos zone)
    then at +ℤ pos zone
    else if not (ltb_ℤ z (at +ℤ pos size -ℤ pos zone))
    then at +ℤ pos size -ℤ pos zone -ℤ pos 1
    else z

-- mouseUp of the first buttons, in order
unfoldable pub raise_buttons : ℕ → ℕ → List Effect
raise_buttons c zero = []
raise_buttons c (suc n) = raise_buttons c n ++ mouse_up c (suc n) ∷ []

module _ (desk : Desk) where
  open desk use {primary, name, own_name, shape, jump_zone, has_link, can_leave, toggle_mask}

  -- Server::getActivePrimarySides, with the bits of DirectionMask
  unfoldable pub active_sides : Server → ℕ
  active_sides s =
      let side = λ (d : Direction) (bit : ℕ). if has_link (name primary) d then bit else 0 in
      if s.locked then 0 else side left 2 + side right 4 + side top 8 + side bottom 16

  -- switchScreen's update of a clipboard that the primary screen owns
  unfoldable pub update_own : ℕ → Server → Server × List Effect
  update_own id s =
      let info = s.clipboards id in
      if same_text info.owner (name primary)
      then on_clipboard_changed desk primary id info.seq_num s
      else (s, [])

  unfoldable pub update_clipboards : Server → Server × List Effect
  update_clipboards s =
      let (t, first) = update_own 0 s in
      let (u, second) = update_own 1 t in
      if (s.active == primary) && s.settings.enable_clipboard then (u, first ++ second) else (s, [])

  -- A clipboard that the new screen is sent.
  unfoldable pub send_clipboard : ℕ → ℕ → Server → List Effect
  send_clipboard dst id s =
      let text = (s.clipboards id).clipboard in
      if ltb s.settings.maximum_clipboard_size (length text)
      then []
      else set_clipboard dst id text ∷ []

  unfoldable pub send_clipboards : ℕ → Server → List Effect
  send_clipboards dst s =
      if s.settings.enable_clipboard then send_clipboard dst 0 s ++ send_clipboard dst 1 s else []

  -- switchScreen's cut over to the new screen
  unfoldable pub cut_over : ℕ → Point → Bool → Server → Server × List Effect
  cut_over dst p saver s =
      let t = record s { active = dst; seq_num = (s.seq_num + 1) % 2 ^ 32 } in
      (
        t,
        enter dst p t.seq_num toggle_mask saver ∷ send_clipboards dst t
            ++ screen_switched (own_name dst) ∷ [],
      )

  -- Server::switchScreen
  unfoldable pub switch_screen : ℕ → Point → Bool → Server → Server × List Effect
  switch_screen dst p saver s =
      let t = place_at p (stop_switch s) in
      let (u, own) = update_clipboards t in
      let (v, sent) = cut_over dst p saver u in
      if s.active == dst
      then (t, mouse_move dst p ∷ [])
      else if not (can_leave s.active)
      then (t, leave s.active ∷ [])
      else (v, leave s.active ∷ own ++ sent)

  -- Server::jumpToScreen
  unfoldable pub jump_to_screen : ℕ → Server → Server × List Effect
  jump_to_screen dst s =
      let t = record s { jump_pos = λ c. if c == s.active then s.position else s.jump_pos c } in
      switch_screen dst (t.jump_pos dst) false t

  -- Server::handleSwitchWaitTimeout; `none` is a switch to a null pointer
  unfoldable pub switch_pending : Option ℕ → Option Point → Server → Option (Server × List Effect)
  switch_pending none at s = none
  switch_pending (some c) none s = none
  switch_pending (some c) (some p) s = some (switch_screen c p false s)

  unfoldable pub handle_switch_wait_timeout : Server → Option (Server × List Effect)
  handle_switch_wait_timeout s =
      if is_locked desk s
      then some (stop_switch s, [])
      else switch_pending s.switching.screen s.switching.wait s

  unfoldable pub jump_if : Option ℕ → Server → Server × List Effect
  jump_if none s = (s, [])
  jump_if (some c) s = jump_to_screen c s

  -- Server::handleSwitchToScreenEvent
  unfoldable pub handle_switch_to_screen : List ℕ → Server → Server × List Effect
  handle_switch_to_screen n s = jump_if (find_client n s.clients) s

  unfoldable pub jump_to_neighbor :
      Option (Option (ℕ × Point)) → Server → Option (Server × List Effect)
  jump_to_neighbor none s = none
  jump_to_neighbor (some none) s = some (s, [])
  jump_to_neighbor (some (some (c, p))) s = some (jump_to_screen c s)

  -- Server::handleSwitchInDirectionEvent; `none` is that the fuel of getNeighbor ran out
  unfoldable pub handle_switch_in_direction : ℕ → Direction → Server → Option (Server × List Effect)
  handle_switch_in_direction fuel dir s =
      jump_to_neighbor (get_neighbor desk fuel s.clients s.active dir s.position) s

  -- Server::handleToggleScreenEvent, for the list of getClients
  unfoldable pub handle_toggle_screen : List (List ℕ) → Server → Server × List Effect
  handle_toggle_screen screens s = toggle_to (next_screen (name s.active) screens)
    where
      toggle_to : Option (List ℕ) → Server × List Effect
      toggle_to none = (s, [])
      toggle_to (some n) = jump_if (find_client n s.clients) s

  -- Server::stopRelativeMoves
  unfoldable pub stop_relative_moves : Server → Server × List Effect
  stop_relative_moves s =
      let a = shape s.active in
      let p : Point = record { x = a.x +ℤ pos (a.w / 2); y = a.y +ℤ pos (a.h / 2) } in
      if s.settings.relative_moves && not (s.active == primary)
      then (place_at p s, mouse_move s.active p ∷ [])
      else (s, [])

  -- Server::handleLockCursorToScreenEvent: to a state, or toggled
  unfoldable pub handle_lock_cursor : Option Bool → Server → Server × List Effect
  handle_lock_cursor state s =
      let t = record s { locked = toggle state s.locked } in
      let (u, moved) = stop_relative_moves t in
      let sides = reconfigure (active_sides t) in
      if same_bool t.locked s.locked
      then (s, [])
      else if t.locked
      then (t, sides ∷ [])
      else (u, sides ∷ moved)
    where
      same_bool : Bool → Bool → Bool
      same_bool true b = b
      same_bool false b = not b

  -- The position to which onScreensaver jumps back.
  unfoldable pub saver_point : ℕ → Point → Point
  saver_point c p =
      let a = shape c in
      let zone = if c == primary then jump_zone else 0 in
      record { x = clamp_saver a.x a.w zone p.x; y = clamp_saver a.y a.h zone p.y }

  unfoldable pub saver_on : Server → Server × List Effect
  saver_on s =
      let t = record s { active_saver = some s.active; saver_position = s.position } in
      if s.active == primary then (t, []) else switch_screen primary origin true t

  unfoldable pub saver_off : Option ℕ → Server → Server × List Effect
  saver_off none s = (s, [])
  saver_off (some c) s =
      let p = saver_point c s.saver_position in
      let (t, sent) = switch_screen c p false (record s { saver_position = p }) in
      if c == primary
      then (record s { active_saver = none }, [])
      else (record t { active_saver = none }, sent)

  -- Server::onScreensaver
  unfoldable pub on_screensaver : Bool → Server → Server × List Effect
  on_screensaver true s = let (t, sent) = saver_on s in (t, sent ++ tell_screensaver true s.clients)
  on_screensaver false s =
      let (t, sent) = saver_off s.active_saver s in (t, sent ++ tell_screensaver false s.clients)

  -- The handler of PrimaryScreenEmergencyReturn, in the constructor of Server
  unfoldable pub emergency_return : Server → Server × List Effect
  emergency_return s =
      let (t, moved) =
        stop_relative_moves (stop_switch (record s { locked = false; broadcasting = false })) in
      let a = shape primary in
      let (u, sent) =
        switch_screen primary (record { x = a.x +ℤ pos (a.w / 2); y = a.y +ℤ pos (a.h / 2) }) false
          t in
      let raised = if s.active == primary then [] else raise_buttons s.active 5 in
      (u, moved ++ raised ++ sent ++ reconfigure (active_sides u) ∷ [])
