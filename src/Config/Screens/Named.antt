-- ===== src/Config/Screens/Named.antt =====
-- Names of screens, and the screens that they stand for.
use zero_flow.Prelude.{
  ℕ, ◌≡◌, ◌⊎◌, inl, inr, refl, sym, ◌∙◌, subst, true, List, [], ◌∷◌, Option, some, none, eq→==,
  Bool-cases,
}
use zero_flow.Config.{CellEdge}
use zero_flow.Config.Links.{Links}
use zero_flow.Config.Screens.{
  Config, has_value, equal, find, try_emplace, replace, is_screen, add_aliases, add_screen,
  add_alias, connect_cell, connect, change_cell, disconnect, disconnect_at,
}

module _ (tolower : ℕ → ℕ) where
  abbrev pub HasCell : List ℕ → Config → Type 0
  HasCell n c = has_value (find tolower n c.cells) ≡ true

  -- Each name of the map of names leads to a screen.
  pub record IsNamed (c : Config) : Type 0 where
    pub leads : (n m : List ℕ) → find tolower n c.names ≡ some m → HasCell m c

  equal_refl : (n : List ℕ) → equal tolower n n ≡ true
  unfolding equal
  equal_refl [] = refl
  equal_refl (a ∷ n) = rw (eq→== (tolower a) (tolower a) refl) (equal_refl n)

  some_eq {ℓ} : {A : Type ℓ} {a b : A} → some a ≡ some b → a ≡ b
  some_eq e = cc e

  find-try_emplace {ℓ} :
      {A : Type ℓ} (n k : List ℕ) (a b : A) (xs : List (List ℕ × A))
      → find tolower n (try_emplace tolower k a xs) ≡ some b
      → (a ≡ b) ⊎ (find tolower n xs ≡ some b)
  unfolding try_emplace find
  find-try_emplace n k a b xs h = elim (Bool-cases (has_value (find tolower k xs))) [
    | inl e ↦ inr (sym (rw e refl) ∙ h)
    | inr e ↦ elim (Bool-cases (equal tolower k n)) [
      | inl f ↦ let g : some a ≡ some b = sym (rw (e, f) refl) ∙ h in inl (some_eq g)
      | inr f ↦ inr (sym (rw (e, f) refl) ∙ h)
    ]
  ]

  find-kept {ℓ} :
      {A : Type ℓ} (n k : List ℕ) (a : A) (xs : List (List ℕ × A))
      → has_value (find tolower n xs) ≡ true
      → has_value (find tolower n (try_emplace tolower k a xs)) ≡ true
  unfolding try_emplace find has_value
  find-kept n k a xs h = elim (Bool-cases (has_value (find tolower k xs))) [
    | inl e ↦ rw e h
    | inr e ↦ elim (Bool-cases (equal tolower k n)) [ inl f ↦ rw (e, f) refl | inr f ↦ rw (e, f) h ]
  ]

  find-added {ℓ} :
      {A : Type ℓ} (n : List ℕ) (a : A) (xs : List (List ℕ × A))
      → has_value (find tolower n (try_emplace tolower n a xs)) ≡ true
  unfolding try_emplace find has_value
  find-added n a xs = elim (Bool-cases (has_value (find tolower n xs))) [
    | inl e ↦ rw e e
    | inr e ↦ rw (e, equal_refl n) refl
  ]

  find-replace {ℓ} :
      {A : Type ℓ} (n k : List ℕ) (a : A) (xs : List (List ℕ × A))
      → has_value (find tolower n (replace tolower k a xs)) ≡ has_value (find tolower n xs)
  unfolding replace find has_value
  find-replace n k a [] = refl
  find-replace n k a ((m, b) ∷ xs) = elim (Bool-cases (equal tolower m k)) [
    | inl e ↦ rw e (elim (Bool-cases (equal tolower m n)) [ inl f ↦ rw f refl | inr f ↦ rw f refl ])
    | inr e ↦ rw e (elim (Bool-cases (equal tolower m n)) [
      | inl f ↦ rw f refl
      | inr f ↦ rw f (find-replace n k a xs)
    ])
  ]

  names_lem :
      (n k m : List ℕ) (names : List (List ℕ × List ℕ)) (c : Config)
      → HasCell m c
      → ((i j : List ℕ) → find tolower i names ≡ some j → HasCell j c)
      → (i j : List ℕ) → find tolower i (try_emplace tolower k m names) ≡ some j
      → HasCell j c
  names_lem n k m names c has h i j e = elim (find-try_emplace i k m j names e) [
    | inl same ↦ subst (λ x. HasCell x c) same has
    | inr g ↦ h i j g
  ]

  aliases_lem :
      (n : List ℕ) (aliases : List (List ℕ)) (names : List (List ℕ × List ℕ)) (c : Config)
      → HasCell n c
      → ((i j : List ℕ) → find tolower i names ≡ some j → HasCell j c)
      → (i j : List ℕ) → find tolower i (add_aliases tolower n aliases names) ≡ some j
      → HasCell j c
  unfolding add_aliases
  aliases_lem n [] names c has h = h
  aliases_lem n (a ∷ rest) names c has h =
      aliases_lem n rest (try_emplace tolower a n names) c has (names_lem n a n names c has h)

  -- An operation that succeeds keeps the names.
  abbrev pub Keeps : Option Config → Type 0
  Keeps none = Unit
  Keeps (some c) = IsNamed c

  add_screen-Keeps :
      (n : List ℕ) (aliases : List (List ℕ)) (c : Config)
      → IsNamed c
      → Keeps (add_screen tolower n aliases c)
  unfolding add_screen
  add_screen-Keeps n aliases c h = elim (Bool-cases (is_screen tolower n c)) [
    | inl e ↦ rw e tt
    | inr e ↦
        let d : Config = record { cells = try_emplace tolower n [] c.cells; names = c.names } in
        let has : HasCell n d = find-added n [] c.cells in
        rw e (record {
          leads =
              aliases_lem n aliases (try_emplace tolower n n c.names) d has
                (names_lem n n n c.names d has (λ i j f. find-kept j n [] c.cells (h.leads i j f)));
        })
  ]

  add_alias-Keeps :
      (n alias : List ℕ) (c : Config) → IsNamed c → Keeps (add_alias tolower n alias c)
  unfolding add_alias
  add_alias-Keeps n alias c h = elim (Bool-cases (is_screen tolower alias c)) [
    | inl e ↦ rw e tt
    | inr e ↦ elim (Bool-cases (has_value (find tolower n c.cells))) [
      | inr f ↦ rw (e, f) tt
      | inl f ↦ rw (e, f) (record { leads = names_lem alias alias n c.names c f h.leads })
    ]
  ]

  replaced_lem :
      (n : List ℕ) (ls : Links) (c : Config)
      → IsNamed c
      → IsNamed (record c { cells = replace tolower n ls c.cells })
  replaced_lem n ls c h = record { leads = λ i j e. find-replace j n ls c.cells ∙ h.leads i j e }

  connect_cell-Keeps :
      (n : List ℕ) (o : Option Links) (c : Config) → IsNamed c → Keeps (connect_cell tolower n o c)
  unfolding connect_cell
  connect_cell-Keeps n none c h = tt
  connect_cell-Keeps n (some ls) c h = replaced_lem n ls c h

  change_cell-Keeps :
      (change : Links → Links) (n : List ℕ) (o : Option Links) (c : Config)
      → IsNamed c
      → Keeps (change_cell tolower change n o c)
  unfolding change_cell
  change_cell-Keeps change n none c h = tt
  change_cell-Keeps change n (some ls) c h = replaced_lem n (change ls) c h

  -- If each name of a screen, aliases included, leads to a screen that the configuration has, then it
  -- still does behind addScreen with any aliases, addAlias, connect and both forms of disconnect,
  -- whenever they succeed.
  pub IsNamed-Keeps :
      (c : Config) (n other : List ℕ) (aliases : List (List ℕ)) (src dst : CellEdge)
      (side position : ℕ)
      → IsNamed c
      → Keeps (add_screen tolower n aliases c)
        × Keeps (add_alias tolower n other c)
        × Keeps (connect tolower n src dst c)
        × Keeps (disconnect tolower n side c)
        × Keeps (disconnect_at tolower n side position c)
  unfolding connect disconnect disconnect_at
  IsNamed-Keeps c n other aliases src dst side position h = (
    add_screen-Keeps n aliases c h,
    add_alias-Keeps n other c h,
    connect_cell-Keeps _ _ c h,
    change_cell-Keeps _ n _ c h,
    change_cell-Keeps _ n _ c h,
  )
