-- ===== src/Server/Clipboards.antt =====
-- The server's copies of the clipboards: onClipboardChanged and the handlers of a grab and a change.
use zero_flow.Prelude.{
  ℕ, ◌+◌, zero, suc, Bool, true, false, not, ◌&&◌, ◌||◌, List, [], ◌∷◌, ◌++◌, Option, some, none,
  ◌==◌, ltb, length, if◌then◌else◌,
}
use zero_flow.Server.{
  Desk, ClipboardInfo, Server, Effect, set_clipboard, set_dirty, grab_clipboard, same_text,
  find_client, has_client, assertion_failed,
}
pub mod Sizes
pub mod Sequence

-- What marshall makes of a clipboard that has been emptied: no formats.
abbrev pub no_formats : List ℕ
no_formats = 0 ∷ 0 ∷ 0 ∷ 0 ∷ []

-- m_clipboards[id] = info
unfoldable pub set_info : ℕ → ClipboardInfo → Server → Server
set_info id info s = record s { clipboards = λ i. if i == id then info else s.clipboards i }

-- The loop of onClipboardChanged over m_clients.
unfoldable pub dirty_others : ℕ → ℕ → List (List ℕ × ℕ) → List Effect
dirty_others id sender [] = []
dirty_others id sender ((n, c) ∷ cs) =
    set_dirty c id (not (c == sender)) ∷ dirty_others id sender cs

-- The loop of handleClipboardGrabbed over m_clients.
unfoldable pub grab_others : ℕ → ℕ → List (List ℕ × ℕ) → List Effect
grab_others id grabber [] = []
grab_others id grabber ((n, c) ∷ cs) =
    (if c == grabber then set_dirty c id false else grab_clipboard c id) ∷ grab_others id grabber cs

module _ (desk : Desk) where
  open desk use {primary, name, clipboard}

  -- onClipboardChanged, once the data is fetched
  unfoldable pub store_clipboard : ℕ → ℕ → List ℕ → Server → Server × List Effect
  store_clipboard sender id text s =
      let old = s.clipboards id in
      if ltb s.settings.maximum_clipboard_size (length text) || same_text text old.content
      then (set_info id (record old { clipboard = text }) s, [])
      else (
        set_info id (record old { clipboard = text; content = text }) s,
        dirty_others id sender s.clients ++ set_clipboard s.active id text ∷ [],
      )

  -- The assertion that the sender is the client of the clipboard's owner.
  unfoldable pub assert_owner : ℕ → ℕ → Server → List Effect
  assert_owner sender id s =
      if is_sender sender (find_client (s.clipboards id).owner s.clients)
      then []
      else assertion_failed ∷ []
    where
      is_sender : ℕ → Option ℕ → Bool
      is_sender c none = false
      is_sender c (some d) = c == d

  -- Server::onClipboardChanged
  unfoldable pub on_clipboard_changed : ℕ → ℕ → ℕ → Server → Server × List Effect
  on_clipboard_changed sender id seq s =
      if ltb seq (s.clipboards id).seq_num
      then (s, [])
      else let (t, sent) = store_clipboard sender id (clipboard sender id) s in
        (t, assert_owner sender id s ++ sent)

  -- Server::handleClipboardChanged
  unfoldable pub handle_clipboard_changed : ℕ → ℕ → ℕ → Server → Server × List Effect
  handle_clipboard_changed client id seq s =
      if not (has_client client s.client_set) then (s, []) else on_clipboard_changed client id seq s

  -- A grab that is not ignored.
  unfoldable pub take_clipboard : ℕ → ℕ → ℕ → Server → Server × List Effect
  take_clipboard grabber id seq s =
      let info : ClipboardInfo = record {
        clipboard = no_formats;
        content = no_formats;
        owner = name grabber;
        seq_num = seq;
      } in
      let t = set_info id info s in
      let (u, sent) = on_clipboard_changed primary id seq t in
      let told = grab_others id grabber s.clients in
      if (grabber == primary) && not (s.active == primary) then (u, told ++ sent) else (t, told)

  -- Server::handleClipboardGrabbed
  unfoldable pub handle_clipboard_grabbed : ℕ → ℕ → ℕ → Server → Server × List Effect
  handle_clipboard_grabbed grabber id seq s =
      if not s.settings.enable_clipboard || (s.settings.maximum_clipboard_size == 0)
      then (s, [])
      else if not (has_client grabber s.client_set)
      then (s, [])
      else if not (grabber == primary) && ltb seq (s.clipboards id).seq_num
      then (s, [])
      else take_clipboard grabber id seq s
