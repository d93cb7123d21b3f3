-- ===== src/Server/Clients/Leaving.antt =====
-- The handlers of clients that come and go, and the invariant of the screens.
use zero_flow.Prelude.{
  ℕ, ◌≡◌, ◌≢◌, inl, inr, refl, sym, ap, ◌∙◌, subst, true, false, List, ◌∷◌, Option, some, none,
  ◌==◌, ==→eq, eq→==, ne→==, Bool-cases, arith,
}
use zero_flow.Server.{Desk, Server, find_client, has_client}
use zero_flow.Server.Core.{Core, core, IsConnected}
use zero_flow.Server.Switch.{stop_switch, is_some}
use zero_flow.Server.Clients.{
  is_client, active_or, add_client, remove_client, jump_off, force_leave, remove_active_client,
  remove_old_client, note_old, close_client, handle_client_disconnected,
}
use zero_flow.Server.Clients.Connected.{find_client-insert, without, unshown, unshown-IsConnected}

module _ (desk : Desk) where
  open desk use {primary, name}

  pub force_leave-core :
      (c : ℕ) (s : Server) → core (force_leave desk c s).0 ≡ unshown primary name c (core s)
  unfolding force_leave jump_off stop_switch
  force_leave-core c s = ground arith

  pub remove_client-core :
      (c : ℕ) (s : Server)
      → has_client c s.client_set ≡ true
      → core (remove_client desk c s).0 ≡ without primary name c (core s)
  unfolding remove_client
  remove_client-core c s h = rw h refl

  pub remove_active_client-IsConnected :
      (c : ℕ) (s : Server)
      → primary ≢ c
      → IsConnected primary name (core s)
      → IsConnected primary name (core (remove_active_client desk c s).0)
  unfolding remove_active_client
  remove_active_client-IsConnected c s away h = elim (Bool-cases (has_client c s.client_set)) [
    | inr e ↦ rw e h
    | inl e ↦
        rw (e, force_leave-core c (remove_client desk c s).0, remove_client-core c s e)
          (unshown-IsConnected primary name c (core s) away h)
  ]

  is_client-some : (c : ℕ) (o : Option ℕ) → is_client c o ≡ true → o ≡ some c
  unfolding is_client
  is_client-some c none e = absurd (cc e)
  is_client-some c (some d) e = ap some (==→eq d c e)

  active_or-gone :
      (c : ℕ) (k : Core) (o : Option ℕ)
      → k.saver ≡ o
      → is_client c o ≡ false
      → IsConnected primary name k
      → has_client c k.client_set ≡ false
      → (active_or k.active o == c) ≡ false
  unfolding active_or is_client
  active_or-gone c k (some d) e f h gone = f
  active_or-gone c k none e f h gone = ne→== k.active c (λ z.
      let shown = ap (λ x. has_client x k.client_set) (sym z) ∙ h.shown in
      absurd (cc (shown, gone)))

  -- A screen that is not connected is none that the server refers to.
  unshown-gone :
      (c : ℕ) (k : Core)
      → IsConnected primary name k
      → has_client c k.client_set ≡ false
      → unshown primary name c k ≡ k
  unshown-gone c k h gone = elim (Bool-cases (is_client c k.switching.screen)) [
    | inl x ↦ let noted = h.noted c (is_client-some c _ x) in absurd (cc (noted, gone))
    | inr x ↦ elim (Bool-cases (is_client c k.saver)) [
      | inl y ↦ let (saved, z) = h.saved c (is_client-some c _ y) in absurd (cc (saved, gone))
      | inr y ↦ rw (x, y, active_or-gone c k k.saver refl y h gone) refl
    ]
  ]

  note_old-core : (c : ℕ) (s : Server) → core (note_old c s) ≡ core s
  unfolding note_old
  note_old-core c s = ground arith

  pub close_client-IsConnected :
      (c : ℕ) (s : Server)
      → primary ≢ c
      → IsConnected primary name (core s)
      → IsConnected primary name (core (close_client desk c s).0)
  unfolding close_client
  close_client-IsConnected c s away h =
      let t = (remove_client desk c s).0 in
      let gone = unshown primary name c in
      let left = force_leave-core c (note_old c t) ∙ ap gone (note_old-core c t) in
      elim (Bool-cases (has_client c s.client_set)) [
        | inr e ↦
            let same : t ≡ s = unfold remove_client in rw e refl in
            rw (left ∙ ap (λ x. gone (core x)) same ∙ unshown-gone c (core s) h e) h
        | inl e ↦
            rw (left ∙ ap gone (remove_client-core c s e))
              (unshown-IsConnected primary name c (core s) away h)
      ]

  pub remove_old_client-core : (c : ℕ) (s : Server) → core (remove_old_client desk c s).0 ≡ core s
  unfolding remove_old_client
  remove_old_client-core c s = ground arith

  pub handle_client_disconnected-IsConnected :
      (c : ℕ) (s : Server)
      → primary ≢ c
      → IsConnected primary name (core s)
      → IsConnected primary name (core (handle_client_disconnected desk c s).0)
  unfolding handle_client_disconnected
  handle_client_disconnected-IsConnected c s away h =
      rw (remove_old_client-core c (remove_active_client desk c s).0)
        (remove_active_client-IsConnected c s away h)

  has_client-cons : (c d : ℕ) (ds : List ℕ) → has_client d ds ≡ true → has_client d (c ∷ ds) ≡ true
  unfolding has_client
  has_client-cons c d ds h = elim (Bool-cases (c == d)) [ inl e ↦ rw e refl | inr e ↦ rw e h ]

  pub has_client-head : (c : ℕ) (ds : List ℕ) → has_client c (c ∷ ds) ≡ true
  unfolding has_client
  has_client-head c ds = rw (eq→== c c refl) refl

  pub add_client-IsConnected :
      (c : ℕ) (s : Server)
      → IsConnected primary name (core s)
      → IsConnected primary name (core (add_client desk c s).0)
  unfolding add_client
  add_client-IsConnected c s h = elim (Bool-cases (is_some (find_client (name c) s.clients))) [
    | inl e ↦ rw e h
    | inr e ↦ rw e (record {
      home = has_client-cons c primary s.client_set h.home;
      shown = has_client-cons c s.active s.client_set h.shown;
      noted = λ d f. has_client-cons c d s.client_set (h.noted d f);
      saved = λ d f. (has_client-cons c d s.client_set (h.saved d f).0, (h.saved d f).1);
      pending = h.pending;
      listed = λ n d f. elim (find_client-insert n (name c) c d s.clients f) [
        | inl (same, e2) ↦ (
          ap name (sym e2) ∙ same,
          subst (λ x. has_client x (c ∷ s.client_set) ≡ true) e2 (has_client-head c s.client_set),
        )
        | inr g ↦ ((h.listed n d g).0, has_client-cons c d s.client_set (h.listed n d g).1)
      ];
    })
  ]
