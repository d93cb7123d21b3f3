-- ===== src/Server/Clients/Connected.antt =====
-- Clients that come and go, and the screens that are connected.
use zero_flow.Prelude.{
  ℕ, ◌≡◌, ◌≢◌, ◌⊎◌, inl, inr, refl, sym, ap, ◌∙◌, Bool, true, false, List, [], ◌∷◌, Option, some,
  none, ◌==◌, ==→eq, ==→ne, eq→==, ne→==, Bool-cases, arith, if◌then◌else◌,
}
use zero_flow.Server.{same_text, find_client, has_client}
use zero_flow.Server.Core.{Core, IsConnected, same_text-eq}
use zero_flow.Server.Switch.Pending.{IsPending, stop_switching-IsPending, stop_switching-none}
use zero_flow.Server.Switch.{stop_switching}
use zero_flow.Server.Clients.{
  less_text, insert_client, erase_client, erase_from, is_client, active_or,
}

has_client-erase_from :
    (c d : ℕ) (ds : List ℕ) → d ≢ c → has_client d ds ≡ true → has_client d (erase_from c ds) ≡ true
unfolding has_client erase_from
has_client-erase_from c d [] k h = h
has_client-erase_from c d (e ∷ ds) k h = elim (Bool-cases (e == c)) [
  | inl x ↦ rw x (
      has_client-erase_from c d ds k (sym (rw (ne→== e d (λ y. k (sym y ∙ ==→eq e c x))) refl) ∙ h))
  | inr x ↦ rw x (elim (Bool-cases (e == d)) [
    | inl y ↦ rw y refl
    | inr y ↦ rw y (has_client-erase_from c d ds k (sym (rw y refl) ∙ h))
  ])
]

pub find_client-cons :
    (n m : List ℕ) (c d : ℕ) (cs : List (List ℕ × ℕ))
    → find_client n ((m, c) ∷ cs) ≡ some d
    → ((m ≡ n) × (c ≡ d)) ⊎ (find_client n cs ≡ some d)
unfolding find_client
find_client-cons n m c d cs h = elim (Bool-cases (same_text m n)) [
  | inl e ↦ let k : some c ≡ some d = sym (rw e refl) ∙ h in inl (same_text-eq m n e, ground arith)
  | inr e ↦ let k : find_client n cs ≡ some d = sym (rw e refl) ∙ h in inr k
]

find_client-found :
    (n m : List ℕ) (c : ℕ) (cs : List (List ℕ × ℕ))
    → same_text m n ≡ true
    → find_client n ((m, c) ∷ cs) ≡ some c
unfolding find_client
find_client-found n m c cs e = rw e refl

find_client-passed :
    (n m : List ℕ) (c : ℕ) (cs : List (List ℕ × ℕ))
    → same_text m n ≡ false
    → find_client n ((m, c) ∷ cs) ≡ find_client n cs
unfolding find_client
find_client-passed n m c cs e = rw e refl

pub find_client-insert :
    (n k : List ℕ) (c d : ℕ) (cs : List (List ℕ × ℕ))
    → find_client n (insert_client k c cs) ≡ some d
    → ((k ≡ n) × (c ≡ d)) ⊎ (find_client n cs ≡ some d)
unfolding insert_client
find_client-insert n k c d [] h = find_client-cons n k c d [] h
find_client-insert n k c d ((m, e) ∷ cs) h = elim (Bool-cases (less_text k m)) [
  | inl l ↦
      let g : find_client n ((k, c) ∷ (m, e) ∷ cs) ≡ some d = sym (rw l refl) ∙ h in
      find_client-cons n k c d ((m, e) ∷ cs) g
  | inr l ↦
      let g : find_client n ((m, e) ∷ insert_client k c cs) ≡ some d = sym (rw l refl) ∙ h in
      elim (Bool-cases (same_text m n)) [
        | inl x ↦ inr (
            find_client-found n m e cs x
            ∙ sym (find_client-found n m e (insert_client k c cs) x)
            ∙ g)
        | inr x ↦
            elim (find_client-insert n k c d cs
              (sym (find_client-passed n m e (insert_client k c cs) x) ∙ g)) [
                | inl p ↦ inl p
                | inr p ↦ inr (find_client-passed n m e cs x ∙ p)
              ]
      ]
]

find_client-erase :
    (n k : List ℕ) (d : ℕ) (cs : List (List ℕ × ℕ))
    → find_client n (erase_client k cs) ≡ some d
    → (n ≢ k) × (find_client n cs ≡ some d)
unfolding erase_client
find_client-erase n k d [] h =
    let g : find_client n [] ≡ none = unfold find_client in refl in absurd (cc (g, h))
find_client-erase n k d ((m, e) ∷ cs) h = elim (Bool-cases (same_text m k)) [
  | inl l ↦
      let g : find_client n (erase_client k cs) ≡ some d = sym (rw l refl) ∙ h in
      let (other, f) = find_client-erase n k d cs g in
      elim (Bool-cases (same_text m n)) [
        | inl x ↦ absurd (other (sym (same_text-eq m n x) ∙ same_text-eq m k l))
        | inr x ↦ (other, find_client-passed n m e cs x ∙ f)
      ]
  | inr l ↦
      let g : find_client n ((m, e) ∷ erase_client k cs) ≡ some d = sym (rw l refl) ∙ h in
      elim (Bool-cases (same_text m n)) [
        | inl x ↦ (
          λ y. let z : false ≡ true = sym l ∙ ap (λ w. same_text m w) (sym y) ∙ x in absurd (cc z),
          find_client-found n m e cs x ∙ sym (find_client-found n m e (erase_client k cs) x) ∙ g,
        )
        | inr x ↦
            let (other, f) =
              find_client-erase n k d cs
                (sym (find_client-passed n m e (erase_client k cs) x) ∙ g) in
            (other, find_client-passed n m e cs x ∙ f)
      ]
]

module _ (primary : ℕ) (name : ℕ → List ℕ) where
  -- The server without a screen `c`, which is not the primary one: m_clients and m_clientSet lose it,
  -- and no more is said of the references to it.
  abbrev pub without : ℕ → Core → Core
  without c k = record k {
    client_set = erase_from c k.client_set;
    clients = erase_client (name c) k.clients;
  }

  -- What forceLeaveClient leaves of the references to a screen.
  abbrev pub unshown : ℕ → Core → Core
  unshown c k =
      let jump = active_or k.active k.saver == c in
      record k {
        active = if jump then primary else k.active;
        saver = if is_client c k.saver then none else k.saver;
        switching =
            if is_client c k.switching.screen then stop_switching k.switching else k.switching;
      }

  -- The active screen behind a jump is the primary one, or the old one, which is not `c`.
  active_lem :
      (c : ℕ) (k : Core) (saver : Option ℕ)
      → k.saver ≡ saver
      → IsConnected primary name k
      → ((unshown c k).active ≡ primary) ⊎ (((unshown c k).active ≡ k.active) × (k.active ≢ c))
  unfolding active_or
  active_lem c k none e h = elim (Bool-cases (k.active == c)) [
    | inl x ↦ inl (rw (e, x) refl)
    | inr x ↦ inr (rw (e, x) refl, ==→ne k.active c x)
  ]
  active_lem c k (some d) e h = elim (Bool-cases (d == c)) [
    | inl x ↦ inl (rw (e, x) refl)
    | inr x ↦ elim (h.saved d e).1 [
      | inl y ↦ inr (rw (e, x) refl, λ z. ==→ne d c x (sym y ∙ z))
      | inr y ↦ inl (rw (e, x) y)
    ]
  ]

  away_lem : {c d : ℕ} → (o : Option ℕ) → is_client c o ≡ false → o ≡ some d → d ≢ c
  unfolding is_client
  away_lem {d} o f e g =
      let z : true ≡ false = sym (eq→== d _ g) ∙ ap (is_client _) (sym e) ∙ f in cc z

  noted_lem :
      (c d : ℕ) (k : Core)
      → IsConnected primary name k
      → (unshown c (without c k)).switching.screen ≡ some d
      → has_client d (erase_from c k.client_set) ≡ true
  noted_lem c d k h e = elim (Bool-cases (is_client c k.switching.screen)) [
    | inl x ↦
        let z : (stop_switching k.switching).screen ≡ some d = sym (rw x refl) ∙ e in
        absurd (cc (z, stop_switching-none k.switching))
    | inr x ↦
        let z : k.switching.screen ≡ some d = sym (rw x refl) ∙ e in
        has_client-erase_from c d k.client_set (away_lem k.switching.screen x z) (h.noted d z)
  ]

  saved_lem :
      (c d : ℕ) (k : Core)
      → IsConnected primary name k
      → (unshown c (without c k)).saver ≡ some d
      → (has_client d (erase_from c k.client_set) ≡ true)
        × (((unshown c k).active ≡ d) ⊎ ((unshown c k).active ≡ primary))
  unfolding active_or
  saved_lem c d k h e = elim (Bool-cases (is_client c k.saver)) [
    | inl x ↦ let z : none ≡ some d = sym (rw x refl) ∙ e in absurd (cc z)
    | inr x ↦
        let z : k.saver ≡ some d = sym (rw x refl) ∙ e in
        let far = away_lem k.saver x z in
        (
          has_client-erase_from c d k.client_set far (h.saved d z).0,
          rw (z, ne→== d c far) (h.saved d z).1,
        )
  ]

  pub unshown-IsConnected :
      (c : ℕ) (k : Core)
      → primary ≢ c
      → IsConnected primary name k
      → IsConnected primary name (unshown c (without c k))
  unshown-IsConnected c k away h =
      let home = has_client-erase_from c primary k.client_set away h.home in
      record {
        home = home;
        shown = elim (active_lem c k k.saver refl h) [
          | inl e ↦ rw e home
          | inr (e, far) ↦ rw e (has_client-erase_from c k.active k.client_set far h.shown)
        ];
        noted = λ d e. noted_lem c d k h e;
        saved = λ d e. saved_lem c d k h e;
        pending = pending_lem (is_client c k.switching.screen);
        listed = λ n d e.
            let (other, f) = find_client-erase n (name c) d k.clients e in
            let (same, at) = h.listed n d f in
            (same, has_client-erase_from c d k.client_set (λ y. other (sym same ∙ ap name y)) at);
      }
    where
      pending_lem : (b : Bool) → IsPending (if b then stop_switching k.switching else k.switching)
      pending_lem true = stop_switching-IsPending k.switching h.pending
      pending_lem false = h.pending
