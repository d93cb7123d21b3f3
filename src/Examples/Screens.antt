-- ===== src/Examples/Screens.antt =====
-- Runs of src/lib/server/Config.cpp.
use zero_flow.Prelude.{
  List, subst, ℕ, ◌≡◌, refl, inr, Bool, true, false, [], ◌∷◌, ◌==◌, if◌then◌else◌, some, none,
  arith,
}
use zero_flow.Config.{CellEdge, overlaps, is_inside, is_valid_screen_name}
use zero_flow.Config.Names.{is_valid_screen_name_lem}
use zero_flow.Config.Links.{
  Links, add, has_edge, overlaps_from, overlaps_before, erase, emplace, edge_lt, edge_eq, same_key,
  get_link,
}
use zero_flow.Config.Lookup.{AreLinks, get_link_lem}
use zero_flow.Config.Replacing.{add-AreLinks}
use zero_flow.Config.Screens.{
  Config, equal, find, has_value, add_screen, add_alias, connect, disconnect, disconnect_at,
}
use zero_flow.Config.Screens.Named.{HasCell, IsNamed, Keeps, IsNamed-Keeps}

is_letter : ℕ → Bool
is_letter c = false

abbrev lower_half : CellEdge
lower_half = record { name = []; side = 1; start = 0; end = 50 }

abbrev upper_half : CellEdge
upper_half = record { name = []; side = 1; start = 50; end = 100 }

abbrev middle : CellEdge
middle = record { name = []; side = 1; start = 40; end = 60 }

abbrev desk : CellEdge
desk = record { name = b'd' ∷ []; side = 1; start = 0; end = 100 }

abbrev some_links : Links
some_links = (lower_half, desk) ∷ (upper_half, desk) ∷ []

add_overlapping : add middle desk some_links ≡ none
unfolding add has_edge same_key edge_lt edge_eq overlaps_from overlaps_before overlaps
add_overlapping = refl

add_in_order : add lower_half desk ((upper_half, desk) ∷ []) ≡ some some_links
unfolding add has_edge same_key edge_lt edge_eq overlaps_from overlaps_before overlaps erase emplace
add_in_order = refl

is_valid_screen_name_lem_example :
    is_valid_screen_name is_letter (b'-' ∷ b' ' ∷ []) ≡ (if 2 == 0 then false else true)
is_valid_screen_name_lem_example = is_valid_screen_name_lem is_letter (b'-' ∷ b' ' ∷ [])

get_link_lem_example : get_link 1 70 some_links ≡ some (upper_half, desk)
unfolding is_inside
get_link_lem_example =
    get_link_lem (upper_half, desk) 70 refl ((lower_half, desk) ∷ []) []
      (omega arith, ((inr (refl, omega arith), tt), (omega arith, (tt, tt))))

add-AreLinks_example : AreLinks some_links
unfolding add has_edge same_key edge_lt edge_eq overlaps_from overlaps_before overlaps erase emplace
add-AreLinks_example =
    add-AreLinks lower_half desk ((upper_half, desk) ∷ []) some_links (omega arith)
      (omega arith, (tt, tt)) refl

abbrev one_screen : Config
one_screen = record { cells = (b'd' ∷ [], some_links) ∷ []; names = (b'd' ∷ [], b'd' ∷ []) ∷ [] }

one_screen-IsNamed : IsNamed (λ c. c) one_screen
unfolding find equal has_value
one_screen-IsNamed = record { leads = λ n m e. leads_lem (equal (λ c. c) (b'd' ∷ []) n) m e }
  where
    leads_lem :
        (b : Bool) (m : List ℕ)
        → (if b then some (b'd' ∷ []) else none) ≡ some m
        → HasCell (λ c. c) m one_screen
    leads_lem true m e =
        let same : (b'd' ∷ []) ≡ m = cc e in subst (λ x. HasCell (λ c. c) x one_screen) same refl
    leads_lem false m e = absurd (cc e)

IsNamed-Keeps_example :
    Keeps (λ c. c) (add_screen (λ c. c) (b'd' ∷ []) [] one_screen)
    × Keeps (λ c. c) (add_alias (λ c. c) (b'd' ∷ []) (b'e' ∷ []) one_screen)
    × Keeps (λ c. c) (connect (λ c. c) (b'd' ∷ []) middle desk one_screen)
    × Keeps (λ c. c) (disconnect (λ c. c) (b'd' ∷ []) 1 one_screen)
    × Keeps (λ c. c) (disconnect_at (λ c. c) (b'd' ∷ []) 1 60 one_screen)
IsNamed-Keeps_example =
    IsNamed-Keeps (λ c. c) one_screen (b'd' ∷ []) (b'e' ∷ []) [] middle desk 1 60 one_screen-IsNamed
