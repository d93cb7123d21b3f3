-- ===== src/Server/Clients.antt =====
-- Clients that come and go: addClient, removeClient, closeClient and forceLeaveClient.
use zero_flow.Prelude.{
  ℕ, Bool, true, false, not, ◌&&◌, ◌||◌, List, [], ◌∷◌, ◌++◌, Option, some, none, ◌==◌, ltb, length,
  if◌then◌else◌,
}
use zero_flow.Server.{
  Point, Desk, Server, Effect, enter, release_buttons, reconfigure, server_disconnected, same_text,
  find_client, has_client,
}
use zero_flow.Server.Switch.{is_some, stop_switch}
use zero_flow.Server.Screens.{active_sides}
pub mod Connected
pub mod Leaving
pub mod Stale

-- std::string's <
unfoldable pub less_text : List ℕ → List ℕ → Bool
less_text [] [] = false
less_text [] (b ∷ bs) = true
less_text (a ∷ more) [] = false
less_text (a ∷ bs) (b ∷ cs) = let more = less_text bs cs in if a == b then more else ltb a b

-- m_clients.try_emplace, in the order of the names, for a name that is not in the map
unfoldable pub insert_client : List ℕ → ℕ → List (List ℕ × ℕ) → List (List ℕ × ℕ)
insert_client n c [] = (n, c) ∷ []
insert_client n c ((m, d) ∷ cs) =
    let more = insert_client n c cs in if less_text n m then (n, c) ∷ (m, d) ∷ cs else (m, d) ∷ more

-- m_clients.erase
unfoldable pub erase_client : List ℕ → List (List ℕ × ℕ) → List (List ℕ × ℕ)
erase_client n [] = []
erase_client n ((m, c) ∷ cs) =
    let more = erase_client n cs in if same_text m n then more else (m, c) ∷ more

-- erase of m_clientSet and m_oldClients
unfoldable pub erase_from : ℕ → List ℕ → List ℕ
erase_from c [] = []
erase_from c (d ∷ ds) = let more = erase_from c ds in if d == c then more else d ∷ more

unfoldable pub is_client : ℕ → Option ℕ → Bool
is_client c none = false
is_client c (some d) = d == c

unfoldable pub active_or : ℕ → Option ℕ → ℕ
active_or a none = a
active_or a (some c) = c

-- The event for the last remote client that has gone.
unfoldable pub when_last : Server → List Effect
when_last s =
    if (length s.clients == 1) && (length s.old_clients == 0) then server_disconnected ∷ [] else []

-- m_oldClients.try_emplace
unfoldable pub note_old : ℕ → Server → Server
note_old c s =
    if has_client c s.old_clients then s else record s { old_clients = c ∷ s.old_clients }

module _ (desk : Desk) where
  open desk use {primary, name, cursor_pos, cursor_center, toggle_mask}

  -- Server::addClient
  unfoldable pub add_client : ℕ → Server → Server × List Effect × Bool
  add_client c s =
      let t = record s {
        client_set = c ∷ s.client_set;
        clients = insert_client (name c) c s.clients;
        jump_pos = λ d. if d == c then cursor_pos c else s.jump_pos d;
      } in
      if is_some (find_client (name c) s.clients)
      then (s, [], false)
      else (t, reconfigure (active_sides desk t) ∷ [], true)

  -- Server::removeClient
  unfoldable pub remove_client : ℕ → Server → Server × Bool
  remove_client c s =
      if has_client c s.client_set
      then (
        record s {
          clients = erase_client (name c) s.clients;
          client_set = erase_from c s.client_set;
        },
        true,
      )
      else (s, false)

  -- forceLeaveClient's jump off the screen that has the cursor, or had it when the screen saver began
  unfoldable pub jump_off : Server → Server × List Effect
  jump_off s = (
    record s { active = primary; position = cursor_center },
    if is_some s.active_saver
        then []
        else enter primary cursor_center s.seq_num toggle_mask false ∷ [],
  )

  -- Server::forceLeaveClient
  unfoldable pub force_leave : ℕ → Server → Server × List Effect
  force_leave c s =
      let t = if is_client c s.switching.screen then stop_switch s else s in
      let (u, jumped) = if active_or t.active t.active_saver == c then jump_off t else (t, []) in
      let v = if is_client c u.active_saver then record u { active_saver = none } else u in
      (v, jumped ++ release_buttons ∷ reconfigure (active_sides desk v) ∷ [])

  -- Server::removeActiveClient
  unfoldable pub remove_active_client : ℕ → Server → Server × List Effect
  remove_active_client c s =
      let t = (remove_client c s).0 in
      let (u, sent) = force_leave c t in
      if has_client c s.client_set then (u, sent ++ when_last u) else (s, [])

  -- Server::removeOldClient
  unfoldable pub remove_old_client : ℕ → Server → Server × List Effect
  remove_old_client c s =
      let t = record s { old_clients = erase_from c s.old_clients } in
      if has_client c s.old_clients then (t, when_last t) else (s, [])

  -- Server::closeClient, behind the message to the client
  unfoldable pub close_client : ℕ → Server → Server × List Effect
  close_client c s = force_leave c (note_old c (remove_client c s).0)

  -- Server::handleClientDisconnected, which deletes the client then
  unfoldable pub handle_client_disconnected : ℕ → Server → Server × List Effect
  handle_client_disconnected c s =
      let (t, sent) = remove_active_client c s in
      let (u, last) = remove_old_client c t in (u, sent ++ last)
