-- ===== src/Config/Links.antt =====
-- Config::Cell: the links of a screen's edges, as the list that its std::map goes through, in the
-- order of the keys. A link is a source edge and the destination.
use zero_flow.Prelude.{
  ℕ, Bool, true, false, not, ◌&&◌, ◌||◌, List, [], ◌∷◌, ltb, ◌==◌, if◌then◌else◌, Option, some,
  none,
}
use zero_flow.Config.{CellEdge, overlaps, is_inside}

abbrev pub Links : Type 0
Links = List (CellEdge × CellEdge)

-- CellEdge::operator<
unfoldable pub edge_lt : CellEdge → CellEdge → Bool
edge_lt x y =
    if ltb x.side y.side then true else if ltb y.side x.side then false else ltb x.start y.start

-- CellEdge::operator==
unfoldable pub edge_eq : CellEdge → CellEdge → Bool
edge_eq x y = x.side == y.side && (x.start == y.start && x.end == y.end)

-- What std::map takes for one key.
unfoldable pub same_key : CellEdge → CellEdge → Bool
same_key x y = not (edge_lt x y) && not (edge_lt y x)

-- Cell::hasEdge
unfoldable pub has_edge : CellEdge → Links → Bool
has_edge e [] = false
has_edge e ((x, d) ∷ ls) = let more = has_edge e ls in if same_key x e then edge_eq x e else more

unfoldable pub overlaps_before : CellEdge → Option CellEdge → Bool
overlaps_before e none = false
overlaps_before e (some x) = overlaps x e

-- Cell::overlaps: the first key above `e`, and the one before it, `before`.
unfoldable pub overlaps_from : CellEdge → Option CellEdge → Links → Bool
overlaps_from e before [] = overlaps_before e before
overlaps_from e before ((x, d) ∷ ls) =
    let more = overlaps_from e (some x) ls in
    if edge_lt e x then overlaps x e || overlaps_before e before else more

-- std::map::erase and try_emplace of a key that is not there.
unfoldable pub erase : CellEdge → Links → Links
erase e [] = []
erase e ((x, d) ∷ ls) = let more = erase e ls in if same_key x e then ls else (x, d) ∷ more

unfoldable pub emplace : CellEdge → CellEdge → Links → Links
emplace e dst [] = (e, dst) ∷ []
emplace e dst ((x, d) ∷ ls) =
    let more = emplace e dst ls in if edge_lt e x then (e, dst) ∷ ((x, d) ∷ ls) else (x, d) ∷ more

-- Cell::add: `none` if it returns false and changes nothing.
unfoldable pub add : CellEdge → CellEdge → Links → Option Links
add src dst ls =
    if not (has_edge src ls) && overlaps_from src none ls
    then none
    else some (emplace src dst (erase src ls))

unfoldable pub link_before : ℕ → ℕ → Option (CellEdge × CellEdge) → Option (CellEdge × CellEdge)
link_before side position none = none
link_before side position (some l) =
    if l.0.side == side && is_inside position l.0 then some l else none

-- Cell::getLink: the last key that is not above the position.
unfoldable pub link_from :
    ℕ → ℕ → Option (CellEdge × CellEdge) → Links → Option (CellEdge × CellEdge)
link_from side position before [] = link_before side position before
link_from side position before (l ∷ ls) =
    let more = link_from side position (some l) ls in
    if edge_lt (record { name = []; side = side; start = position; end = position }) l.0
    then link_before side position before
    else more

unfoldable pub get_link : ℕ → ℕ → Links → Option (CellEdge × CellEdge)
get_link side position ls = link_from side position none ls
