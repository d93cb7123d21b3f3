-- ===== src/Server/Clipboards/Sizes.antt =====
-- The sizes of the clipboards that the server sends.
use zero_flow.Prelude.{
  arith, ℕ, ◌≡◌, ◌≤◌, inl, inr, refl, Bool, true, false, not, ◌&&◌, ◌||◌, List, [], ◌∷◌, ◌++◌, ◌==◌,
  ltb, ltb→le, length, Bool-cases,
}
use zero_flow.Server.{
  Desk, ClipboardInfo, Server, Effect, set_clipboard, set_dirty, grab_clipboard, same_text,
  has_client,
}
use zero_flow.Server.Clipboards.{
  no_formats, set_info, dirty_others, grab_others, store_clipboard, assert_owner,
  on_clipboard_changed, take_clipboard, handle_clipboard_changed, handle_clipboard_grabbed,
}

-- No clipboard that is sent is longer than the limit.
abbrev pub AreSmall : ℕ → List Effect → Type 0
AreSmall limit [] = Unit
AreSmall limit (set_clipboard c id text ∷ es) = (length text ≤ limit) × AreSmall limit es
AreSmall limit (_ ∷ es) = AreSmall limit es

pub append-AreSmall :
    (limit : ℕ) (es fs : List Effect)
    → AreSmall limit es
    → AreSmall limit fs
    → AreSmall limit (es ++ fs)
append-AreSmall limit [] fs h k = k
append-AreSmall limit (set_clipboard c id text ∷ es) fs (e, h) k =
    (e, append-AreSmall limit es fs h k)
append-AreSmall limit (set_dirty c id b ∷ es) fs h k = append-AreSmall limit es fs h k
append-AreSmall limit (grab_clipboard c id ∷ es) fs h k = append-AreSmall limit es fs h k
append-AreSmall limit (_ ∷ es) fs h k = append-AreSmall limit es fs h k

dirty_others-AreSmall :
    (limit id sender : ℕ) (cs : List (List ℕ × ℕ)) → AreSmall limit (dirty_others id sender cs)
unfolding dirty_others
dirty_others-AreSmall limit id sender [] = tt
dirty_others-AreSmall limit id sender ((n, c) ∷ cs) = dirty_others-AreSmall limit id sender cs

grab_others-AreSmall :
    (limit id grabber : ℕ) (cs : List (List ℕ × ℕ)) → AreSmall limit (grab_others id grabber cs)
unfolding grab_others
grab_others-AreSmall limit id grabber [] = tt
grab_others-AreSmall limit id grabber ((n, c) ∷ cs) = elim (Bool-cases (c == grabber)) [
  | inl e ↦ rw e (grab_others-AreSmall limit id grabber cs)
  | inr e ↦ rw e (grab_others-AreSmall limit id grabber cs)
]

-- What a handler of the clipboards leaves as it was, and what it sends.
abbrev pub IsMild : Server → Server × List Effect → Type 0
IsMild s r = (r.0.settings ≡ s.settings) × AreSmall s.settings.maximum_clipboard_size r.1

or_lem : (a b : Bool) → (a || b) ≡ false → a ≡ false
or_lem false b h = refl
or_lem true b h = h

module _ (desk : Desk) where
  open desk use {primary, name, clipboard}

  store_clipboard-IsMild :
      (sender id : ℕ) (text : List ℕ) (s : Server)
      → IsMild s (store_clipboard desk sender id text s)
  unfolding store_clipboard set_info
  store_clipboard-IsMild sender id text s =
      let limit = s.settings.maximum_clipboard_size in
      elim (Bool-cases (ltb limit (length text) || same_text text (s.clipboards id).content)) [
        | inl e ↦ rw e (refl, tt)
        | inr e ↦ rw e (
          refl,
          append-AreSmall limit (dirty_others id sender s.clients)
              (set_clipboard s.active id text ∷ [])
              (dirty_others-AreSmall limit id sender s.clients)
              (ltb→le limit (length text) (or_lem _ _ e), tt),
        )
      ]

  assert_owner-AreSmall :
      (sender id : ℕ) (s : Server)
      → AreSmall s.settings.maximum_clipboard_size (assert_owner desk sender id s)
  unfolding assert_owner
  assert_owner-AreSmall sender id s = ground arith

  pub on_clipboard_changed-IsMild :
      (sender id seq : ℕ) (s : Server) → IsMild s (on_clipboard_changed desk sender id seq s)
  unfolding on_clipboard_changed
  on_clipboard_changed-IsMild sender id seq s =
      elim (Bool-cases (ltb seq (s.clipboards id).seq_num)) [
        | inl e ↦ rw e (refl, tt)
        | inr e ↦
            let (same, small) = store_clipboard-IsMild sender id (clipboard sender id) s in
            rw e (
              same,
              append-AreSmall s.settings.maximum_clipboard_size (assert_owner desk sender id s)
                  (store_clipboard desk sender id (clipboard sender id) s).1
                  (assert_owner-AreSmall sender id s) small,
            )
      ]

  pub handle_clipboard_changed-IsMild :
      (c id seq : ℕ) (s : Server) → IsMild s (handle_clipboard_changed desk c id seq s)
  unfolding handle_clipboard_changed
  handle_clipboard_changed-IsMild c id seq s = elim (Bool-cases (has_client c s.client_set)) [
    | inl e ↦ rw e (on_clipboard_changed-IsMild c id seq s)
    | inr e ↦ rw e (refl, tt)
  ]

  take_clipboard-IsMild :
      (grabber id seq : ℕ) (s : Server) → IsMild s (take_clipboard desk grabber id seq s)
  unfolding take_clipboard set_info
  take_clipboard-IsMild grabber id seq s =
      elim (Bool-cases ((grabber == primary) && not (s.active == primary))) [
        | inr e ↦ rw e (refl, grab_others-AreSmall _ id grabber s.clients)
        | inl e ↦
            let info : ClipboardInfo = record {
              clipboard = no_formats;
              content = no_formats;
              owner = name grabber;
              seq_num = seq;
            } in
            let limit = s.settings.maximum_clipboard_size in
            let (same, small) = on_clipboard_changed-IsMild primary id seq (set_info id info s) in
            rw e (
              same,
              append-AreSmall limit (grab_others id grabber s.clients)
                  (on_clipboard_changed desk primary id seq (set_info id info s)).1
                  (grab_others-AreSmall limit id grabber s.clients) small,
            )
      ]

  pub handle_clipboard_grabbed-IsMild :
      (c id seq : ℕ) (s : Server) → IsMild s (handle_clipboard_grabbed desk c id seq s)
  unfolding handle_clipboard_grabbed
  handle_clipboard_grabbed-IsMild c id seq s =
      elim (Bool-cases
        (not s.settings.enable_clipboard || (s.settings.maximum_clipboard_size == 0))) [
          | inl e ↦ rw e (refl, tt)
          | inr e ↦ elim (Bool-cases (has_client c s.client_set)) [
            | inr f ↦ rw (e, f) (refl, tt)
            | inl f ↦ elim (Bool-cases (not (c == primary) && ltb seq (s.clipboards id).seq_num)) [
              | inl g ↦ rw (e, f, g) (refl, tt)
              | inr g ↦ rw (e, f, g) (take_clipboard-IsMild c id seq s)
            ]
          ]
        ]
