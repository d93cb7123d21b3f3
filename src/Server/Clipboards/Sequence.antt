-- ===== src/Server/Clipboards/Sequence.antt =====
-- The sequence numbers of the server's clipboards.
use zero_flow.Prelude.{
  ℕ, ◌≡◌, ◌≢◌, ◌≤◌, ◌<◌, refl, true, false, not, ◌&&◌, ◌||◌, List, [], ◌==◌, ne→==, ltb, eq→==,
  le→ltb, lt→ltb, arith,
}
use zero_flow.Server.{Desk, Server, has_client}
use zero_flow.Server.Clipboards.{
  set_info, store_clipboard, on_clipboard_changed, take_clipboard, handle_clipboard_grabbed,
}

module _ (desk : Desk) where
  open desk use {primary, name, clipboard}

  store_clipboard-seq_num :
      (sender id : ℕ) (text : List ℕ) (s : Server) (i : ℕ)
      → ((store_clipboard desk sender id text s).0.clipboards i).seq_num ≡ (s.clipboards i).seq_num
  unfolding store_clipboard set_info
  store_clipboard-seq_num sender id text s i = ground arith

  -- A change that a client reports leaves every sequence number as it was.
  pub on_clipboard_changed-seq_num :
      (sender id seq : ℕ) (s : Server) (i : ℕ)
      → ((on_clipboard_changed desk sender id seq s).0.clipboards i).seq_num
        ≡ (s.clipboards i).seq_num
  unfolding on_clipboard_changed
  on_clipboard_changed-seq_num sender id seq s i =
      ground (arith, store_clipboard-seq_num sender id (clipboard sender id) s i)

  -- A grab by a client other than the primary one lowers no clipboard's sequence number.
  pub handle_clipboard_grabbed-seq_num :
      (c id seq : ℕ) (s : Server) (i : ℕ)
      → c ≢ primary
      → (s.clipboards i).seq_num
        ≤ ((handle_clipboard_grabbed desk c id seq s).0.clipboards i).seq_num
  unfolding handle_clipboard_grabbed take_clipboard set_info
  handle_clipboard_grabbed-seq_num c id seq s i far = rw (ne→== c primary far) (ground arith)

  take_clipboard-seq_num :
      (c id seq : ℕ) (s : Server)
      → c ≢ primary
      → ((take_clipboard desk c id seq s).0.clipboards id).seq_num ≡ seq
  unfolding take_clipboard set_info
  take_clipboard-seq_num c id seq s far = rw (ne→== c primary far, eq→== id id refl) refl

  -- Behind a grab of a clipboard by a connected client other than the primary one, that is as new as
  -- the last one while clipboards are shared, a change of that clipboard that any client reports with
  -- an older number is ignored.
  pub handle_clipboard_grabbed-late :
      (c id seq : ℕ) (s : Server) (d late : ℕ)
      → c ≢ primary
      → has_client c s.client_set ≡ true
      → s.settings.enable_clipboard ≡ true
      → 0 < s.settings.maximum_clipboard_size
      → (s.clipboards id).seq_num ≤ seq
      → late < seq
      → let t = (handle_clipboard_grabbed desk c id seq s).0 in
        on_clipboard_changed desk d id late t ≡ (t, [])
  unfolding handle_clipboard_grabbed on_clipboard_changed
  handle_clipboard_grabbed-late c id seq s d late far known shared room new h =
      let k : (not s.settings.enable_clipboard || (s.settings.maximum_clipboard_size == 0))
          ≡ false =
        rw shared (ne→== s.settings.maximum_clipboard_size 0 (λ e. omega (arith, e, room))) in
      let m : (not (c == primary) && ltb seq (s.clipboards id).seq_num) ≡ false =
        rw (ne→== c primary far) (le→ltb _ _ new) in
      let n : ltb late ((take_clipboard desk c id seq s).0.clipboards id).seq_num ≡ true =
        rw (take_clipboard-seq_num c id seq s far) (lt→ltb late seq h) in
      rw (k, known, m, n) refl
