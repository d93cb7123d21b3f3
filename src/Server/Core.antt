-- ===== src/Server/Core.antt =====
-- The screens that the server refers to, and the clients that are connected.
use zero_flow.Prelude.{
  ℕ, ◌≡◌, ◌⊎◌, inl, inr, refl, sym, ◌∙◌, true, false, List, [], ◌∷◌, Option, some, ◌==◌, ==→eq,
  Bool-cases,
}
use zero_flow.Server.{Switching, Server, same_text, find_client, has_client}
use zero_flow.Server.Switch.Pending.{IsPending}

pub record Core : Type 0 where
  pub active : ℕ
  pub switching : Switching
  pub saver : Option ℕ
  pub client_set : List ℕ
  pub clients : List (List ℕ × ℕ)

abbrev pub core : Server → Core
core s = record {
  active = s.active;
  switching = s.switching;
  saver = s.active_saver;
  client_set = s.client_set;
  clients = s.clients;
}

-- Each screen that the server refers to is connected: the active one, the one of a pending switch, the
-- one that the screen saver interrupted and those in m_clients, under their names. While the screen
-- saver runs, the active screen is the primary one or the one that was interrupted.
pub record IsConnected (primary : ℕ) (name : ℕ → List ℕ) (k : Core) : Type 0 where
  pub home : has_client primary k.client_set ≡ true
  pub shown : has_client k.active k.client_set ≡ true
  pub noted : (c : ℕ) → k.switching.screen ≡ some c → has_client c k.client_set ≡ true
  pub saved :
      (c : ℕ)
      → k.saver ≡ some c
      → (has_client c k.client_set ≡ true) × ((k.active ≡ c) ⊎ (k.active ≡ primary))
  pub pending : IsPending k.switching
  pub listed :
      (n : List ℕ) (c : ℕ)
      → find_client n k.clients ≡ some c
      → (name c ≡ n) × (has_client c k.client_set ≡ true)

pub same_text-eq : (a b : List ℕ) → same_text a b ≡ true → a ≡ b
unfolding same_text
same_text-eq [] [] h = refl
same_text-eq [] (b ∷ bs) h = absurd (cc h)
same_text-eq (a ∷ more) [] h = absurd (cc h)
same_text-eq (a ∷ bs) (b ∷ cs) h = elim (Bool-cases (a == b)) [
  | inl e ↦
      let k : same_text bs cs ≡ true = sym (rw e refl) ∙ h in cc (==→eq a b e, same_text-eq bs cs k)
  | inr e ↦ let k : false ≡ true = sym (rw e refl) ∙ h in absurd (cc k)
]
