-- ===== src/Server/Clients/Stale.antt =====
-- A client that leaves while the screen saver runs and another screen was interrupted.
use zero_flow.Prelude.{
  ℕ, ◌≡◌, ◌≢◌, refl, ap, ◌∙◌, inl, inr, true, false, List, [], ◌∷◌, some, ◌==◌, ne→==, Bool-cases,
}
use zero_flow.Server.{Desk, Server, has_client}
use zero_flow.Server.Core.{core}
use zero_flow.Server.Clients.{
  erase_from, active_or, remove_client, force_leave, remove_active_client,
}
use zero_flow.Server.Clients.Connected.{without, unshown}
use zero_flow.Server.Clients.Leaving.{force_leave-core, remove_client-core}

has_client-erased : (c : ℕ) (ds : List ℕ) → has_client c (erase_from c ds) ≡ false
unfolding has_client erase_from
has_client-erased c [] = refl
has_client-erased c (d ∷ ds) = elim (Bool-cases (d == c)) [
  | inl e ↦ rw e (has_client-erased c ds)
  | inr e ↦ rw (e, e) (has_client-erased c ds)
]

-- When a client disconnects that has become the active screen since the screen saver interrupted
-- another one, it is removed, but it stays the active screen.
pub remove_active_client-stale :
    (desk : Desk) (s : Server) (c d : ℕ)
    → has_client c s.client_set ≡ true
    → s.active ≡ c
    → s.active_saver ≡ some d
    → d ≢ c
    → let t = (remove_active_client desk c s).0 in
      (t.active ≡ c) × (has_client t.active t.client_set ≡ false)
unfolding remove_active_client active_or
remove_active_client-stale desk s c d known shown saved other =
    let t = (remove_client desk c s).0 in
    let k =
      force_leave-core desk c t
      ∙ ap (unshown desk.primary desk.name c) (remove_client-core desk c s known) in
    let gone : (unshown desk.primary desk.name c (without desk.primary desk.name c (core s))).active
        ≡ c =
      rw (saved, ne→== d c other) shown in
    let at : (force_leave desk c t).0.active ≡ c = ap (λ x. x.active) k ∙ gone in
    let set : (force_leave desk c t).0.client_set ≡ erase_from c s.client_set =
      ap (λ x. x.client_set) k in
    rw known (at, rw (at, set) (has_client-erased c s.client_set))
