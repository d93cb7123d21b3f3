-- ===== src/Server/Screens/Sizes.antt =====
-- The sizes of the clipboards that switchScreen sends.
use zero_flow.Prelude.{
  ℕ, refl, ◌∙◌, subst, Bool, ◌&&◌, ◌==◌, ltb, ltb→le, length, Bool-cases, inl, inr,
}
use zero_flow.Server.{Point, Desk, Server, same_text}
use zero_flow.Server.Clipboards.Sizes.{
  AreSmall, IsMild, append-AreSmall, on_clipboard_changed-IsMild,
}
use zero_flow.Server.Switch.{stop_switch}
use zero_flow.Server.Screens.{
  place_at, update_own, update_clipboards, send_clipboard, send_clipboards, cut_over, switch_screen,
}

module _ (desk : Desk) where
  open desk use {primary, name, toggle_mask}

  update_own-IsMild : (id : ℕ) (s : Server) → IsMild s (update_own desk id s)
  unfolding update_own
  update_own-IsMild id s = elim (Bool-cases (same_text (s.clipboards id).owner (name primary))) [
    | inl e ↦ rw e (on_clipboard_changed-IsMild desk primary id (s.clipboards id).seq_num s)
    | inr e ↦ rw e (refl, tt)
  ]

  update_clipboards-IsMild : (s : Server) → IsMild s (update_clipboards desk s)
  unfolding update_clipboards
  update_clipboards-IsMild s =
      elim (Bool-cases ((s.active == primary) && s.settings.enable_clipboard)) [
        | inr e ↦ rw e (refl, tt)
        | inl e ↦
            let limit = s.settings.maximum_clipboard_size in
            let (t, first) = update_own desk 0 s in
            let (same, small) = update_own-IsMild 0 s in
            let (same2, small2) = update_own-IsMild 1 (update_own desk 0 s).0 in
            rw e (
              same2 ∙ same,
              append-AreSmall limit (update_own desk 0 s).1
                  (update_own desk 1 (update_own desk 0 s).0).1 small
                  (subst
                    (λ o.
                      AreSmall o.maximum_clipboard_size
                        (update_own desk 1 (update_own desk 0 s).0).1)
                    same small2),
            )
      ]

  send_clipboard-AreSmall :
      (dst id : ℕ) (s : Server)
      → AreSmall s.settings.maximum_clipboard_size (send_clipboard desk dst id s)
  unfolding send_clipboard
  send_clipboard-AreSmall dst id s =
      elim (Bool-cases
        (ltb s.settings.maximum_clipboard_size (length (s.clipboards id).clipboard))) [
          | inl e ↦ rw e tt
          | inr e ↦
              rw e (
                ltb→le s.settings.maximum_clipboard_size (length (s.clipboards id).clipboard) e,
                tt,
              )
        ]

  send_clipboards-AreSmall :
      (dst : ℕ) (s : Server)
      → AreSmall s.settings.maximum_clipboard_size (send_clipboards desk dst s)
  unfolding send_clipboards send_clipboard
  send_clipboards-AreSmall dst s = elim (Bool-cases s.settings.enable_clipboard) [
    | inr e ↦ rw e tt
    | inl e ↦ rw e (
        append-AreSmall s.settings.maximum_clipboard_size (send_clipboard desk dst 0 s)
          (send_clipboard desk dst 1 s) (send_clipboard-AreSmall dst 0 s)
          (send_clipboard-AreSmall dst 1 s))
  ]

  cut_over-AreSmall :
      (dst : ℕ) (p : Point) (saver : Bool) (s : Server)
      → AreSmall s.settings.maximum_clipboard_size (cut_over desk dst p saver s).1
  unfolding cut_over
  cut_over-AreSmall dst p saver s =
      append-AreSmall s.settings.maximum_clipboard_size (send_clipboards desk dst _) _
        (send_clipboards-AreSmall dst _) tt

  -- A switch of screens sends no clipboard that is longer than the limit, neither to the screen that is
  -- left nor to the one that is entered, and it leaves the options as they were.
  pub switch_screen-IsMild :
      (dst : ℕ) (p : Point) (saver : Bool) (s : Server)
      → IsMild s (switch_screen desk dst p saver s)
  unfolding switch_screen place_at stop_switch cut_over
  switch_screen-IsMild dst p saver s = elim (Bool-cases (s.active == dst)) [
    | inl e ↦ rw e (refl, tt)
    | inr e ↦ elim (Bool-cases (desk.can_leave s.active)) [
      | inr l ↦ rw (e, l) (refl, tt)
      | inl l ↦
          let (same, small) = update_clipboards-IsMild (place_at p (stop_switch s)) in
          let u = (update_clipboards desk (place_at p (stop_switch s))).0 in
          let sent = (cut_over desk dst p saver u).1 in
          rw (e, l)
            (
              same,
              append-AreSmall s.settings.maximum_clipboard_size
                  (update_clipboards desk (place_at p (stop_switch s))).1 sent small
                  (subst (λ o. AreSmall o.maximum_clipboard_size sent) same
                    (cut_over-AreSmall dst p saver u)),
            )
    ]
  ]
