-- ===== src/Config/Screens.antt =====
-- The screens of a configuration and their names: Config's maps, whose keys are compared without regard
-- to case. The C library's tolower is a parameter. No operation here depends on the order of a map.
use zero_flow.Prelude.{
  ℕ, Bool, true, false, not, ◌&&◌, List, [], ◌∷◌, Option, some, none, ◌==◌, if◌then◌else◌,
}
use zero_flow.Config.{CellEdge, is_inside}
use zero_flow.Config.Links.{Links, add, get_link}
pub mod Named

-- The members m_map and m_nameToCanonicalName, without the options.
pub record Config : Type 0 where
  pub cells : List (List ℕ × Links)
  pub names : List (List ℕ × List ℕ)

unfoldable pub has_value {ℓ} : {A : Type ℓ} → Option A → Bool
has_value none = false
has_value (some a) = true

module _ (tolower : ℕ → ℕ) where
  -- CaselessCmp::equal
  unfoldable pub equal : List ℕ → List ℕ → Bool
  equal [] [] = true
  equal [] (b ∷ bs) = false
  equal (a ∷ more) [] = false
  equal (a ∷ bs) (b ∷ cs) = let more = equal bs cs in if tolower a == tolower b then more else false

  -- std::map's find and try_emplace
  unfoldable pub find {ℓ} : {A : Type ℓ} → List ℕ → List (List ℕ × A) → Option A
  find n [] = none
  find n ((m, a) ∷ xs) = let more = find n xs in if equal m n then some a else more

  unfoldable pub try_emplace {ℓ} : {A : Type ℓ} → List ℕ → A → List (List ℕ × A) → List (List ℕ × A)
  try_emplace n a xs = if has_value (find n xs) then xs else (n, a) ∷ xs

  -- A new value for a key that is there
  unfoldable pub replace {ℓ} : {A : Type ℓ} → List ℕ → A → List (List ℕ × A) → List (List ℕ × A)
  replace n a [] = []
  replace n a ((m, b) ∷ xs) =
      let more = replace n a xs in if equal m n then (m, a) ∷ xs else (m, b) ∷ more

  -- Config::isScreen
  unfoldable pub is_screen : List ℕ → Config → Bool
  is_screen n c = has_value (find n c.names)

  -- Config::getCanonicalName
  unfoldable pub get_canonical_name : List ℕ → Config → List ℕ
  get_canonical_name n c = name_or_empty (find n c.names)
    where
      name_or_empty : Option (List ℕ) → List ℕ
      name_or_empty none = []
      name_or_empty (some m) = m

  -- Config::isCanonicalName
  unfoldable pub is_canonical_name : List ℕ → Config → Bool
  is_canonical_name [] c = false
  is_canonical_name (a ∷ n) c = equal (get_canonical_name (a ∷ n) c) (a ∷ n)

  -- The loop of addScreen over the aliases of the settings
  unfoldable pub add_aliases :
      List ℕ → List (List ℕ) → List (List ℕ × List ℕ) → List (List ℕ × List ℕ)
  add_aliases name [] names = names
  add_aliases name (a ∷ rest) names = add_aliases name rest (try_emplace a name names)

  -- Config::addScreen; `none` is false, with nothing changed
  unfoldable pub add_screen : List ℕ → List (List ℕ) → Config → Option Config
  add_screen n aliases c =
      if is_screen n c
      then none
      else some (record {
        cells = try_emplace n [] c.cells;
        names = add_aliases n aliases (try_emplace n n c.names);
      })

  -- Config::addAlias
  unfoldable pub add_alias : List ℕ → List ℕ → Config → Option Config
  add_alias canonical alias c =
      if is_screen alias c
      then none
      else if not (has_value (find canonical c.cells))
      then none
      else some (record c { names = try_emplace alias canonical c.names })

  unfoldable pub connect_cell : List ℕ → Option Links → Config → Option Config
  connect_cell n none c = none
  connect_cell n (some ls) c = some (record c { cells = replace n ls c.cells })

  unfoldable pub add_to : CellEdge → CellEdge → Option Links → Option Links
  add_to src dst none = none
  add_to src dst (some ls) = add src dst ls

  -- Config::connect
  unfoldable pub connect : List ℕ → CellEdge → CellEdge → Config → Option Config
  connect n src dst c =
      let m = get_canonical_name n c in connect_cell m (add_to src dst (find m c.cells)) c

  -- Cell::remove of a side, and of the link at a position of a side
  unfoldable pub remove_side : ℕ → Links → Links
  remove_side side [] = []
  remove_side side ((e, d) ∷ ls) =
      let more = remove_side side ls in if e.side == side then more else (e, d) ∷ more

  unfoldable pub remove_at : ℕ → ℕ → Links → Links
  remove_at side position [] = []
  remove_at side position ((e, d) ∷ ls) =
      let more = remove_at side position ls in
      if (e.side == side) && is_inside position e then ls else (e, d) ∷ more

  unfoldable pub change_cell : (Links → Links) → List ℕ → Option Links → Config → Option Config
  change_cell change n none c = none
  change_cell change n (some ls) c = some (record c { cells = replace n (change ls) c.cells })

  -- Config::disconnect, in both forms
  unfoldable pub disconnect : List ℕ → ℕ → Config → Option Config
  disconnect n side c = change_cell (remove_side side) n (find n c.cells) c

  unfoldable pub disconnect_at : List ℕ → ℕ → ℕ → Config → Option Config
  disconnect_at n side position c = change_cell (remove_at side position) n (find n c.cells) c
