-- ===== src/Config.antt =====
-- src/lib/server/Config.cpp: names of screens, and the edges that link them. The C library's isalnum
-- is a parameter. A position is a float of at least 0, as a number of the least float's multiples;
-- sides are the numbers of the enumeration.
use zero_flow.Prelude.{
  ℕ, zero, suc, ◌+◌, ◌-◌, Bool, true, false, not, ◌&&◌, ◌||◌, List, [], ◌∷◌, ltb, leb, ◌==◌,
  if◌then◌else◌, length, get_or, drop, take, Option, some, none,
}
pub mod Names
pub mod Overlaps
pub mod Links
pub mod Lookup
pub mod Adding
pub mod Replacing
pub mod Screens

-- std::string::find for '.' from a position on, and the size of the text if there is none.
unfoldable pub find_dot : ℕ → List ℕ → ℕ
find_dot b [] = b
find_dot b (c ∷ cs) = let next = find_dot (suc b) cs in if c == b'.' then b else next

module _ (isalnum : ℕ → Bool) where
  -- The first and the last character of a part.
  unfoldable pub is_outer : ℕ → Bool
  is_outer c = isalnum c || c == b'_'

  unfoldable pub are_inner : List ℕ → Bool
  are_inner [] = true
  are_inner (c ∷ cs) = (isalnum c || c == b'_' || c == b'-') && are_inner cs

  -- One round of the loop for the part from `b` to `e`.
  unfoldable pub is_part : ℕ → ℕ → List ℕ → Bool
  is_part b e name =
      if e - b == 0
      then false
      else is_outer (get_or name b 0)
        && is_outer (get_or name (e - 1) 0)
        && are_inner (take (e - b) (drop b name))

  -- The loop of isValidScreenName, whose condition is that `b` is the size of the name. A round
  -- returns or moves `b` behind a dot, so the size plus one is fuel enough.
  unfoldable pub check_parts : ℕ → ℕ → List ℕ → Bool
  check_parts zero b name = true
  check_parts (suc fuel) b name =
      let e = find_dot b (drop b name) in
      let more = check_parts fuel (suc e) name in
      if b == length name
      then if is_part b e name then if e == length name then true else more else false
      else true

  -- Config::isValidScreenName
  unfoldable pub is_valid_screen_name : List ℕ → Bool
  is_valid_screen_name name =
      if length name == 0 then false else check_parts (suc (length name)) 0 name

-- Config::CellEdge
pub record CellEdge : Type 0 where
  pub name : List ℕ
  pub side : ℕ
  pub start : ℕ
  pub end : ℕ

-- CellEdge::overlaps
unfoldable pub overlaps : CellEdge → CellEdge → Bool
overlaps x y =
    if not (x.side == y.side)
    then false
    else leb y.start x.start && ltb x.start y.end
      || ltb y.start x.end && leb x.end y.end
      || leb x.start y.start && ltb y.start x.end
      || ltb x.start y.end && leb y.end x.end

-- CellEdge::isInside
unfoldable pub is_inside : ℕ → CellEdge → Bool
is_inside x e = leb e.start x && ltb x e.end
