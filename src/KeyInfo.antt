-- ===== src/KeyInfo.antt =====
-- src/lib/deskflow/IKeyState.cpp: the screens that a key event names. A const char* is a text or, for
-- a null pointer, `none`; the text has no 0 byte, since it ends there. A std::set is the list of its members, in order.
use zero_flow.Prelude.{
  ℕ, Bool, true, false, not, ◌&&◌, ◌||◌, List, [], ◌∷◌, ◌++◌, Option, some, none, ◌==◌,
  if◌then◌else◌,
}
pub mod RoundTrip
pub mod Search

abbrev pub colon : ℕ
colon = b':'

abbrev pub star : ℕ
star = b'*'

-- KeyInfo::isDefault
unfoldable pub is_default : Option (List ℕ) → Bool
is_default none = true
is_default (some []) = true
is_default (some (c ∷ cs)) = false

-- Whether a text starts with another one.
unfoldable pub starts_with : List ℕ → List ℕ → Bool
starts_with [] cs = true
starts_with (m ∷ ms) [] = false
starts_with (m ∷ ms) (c ∷ cs) = let more = starts_with ms cs in if m == c then more else false

-- strstr, as a test
unfoldable pub occurs : List ℕ → List ℕ → Bool
occurs ms [] = starts_with ms []
occurs ms (c ∷ cs) = let more = occurs ms cs in if starts_with ms (c ∷ cs) then true else more

-- A std::string as c_str gives it to a function that stops at a 0 byte.
unfoldable pub c_str : List ℕ → List ℕ
c_str [] = []
c_str (c ∷ cs) = let rest = c_str cs in if c == 0 then [] else c ∷ rest

-- The end of KeyInfo::contains
unfoldable pub contains_text : List ℕ → List ℕ → Bool
contains_text [] name = false
contains_text (c ∷ cs) name =
    if c == star then true else occurs (c_str (colon ∷ name ++ colon ∷ [])) (c ∷ cs)

-- KeyInfo::contains
unfoldable pub contains : Option (List ℕ) → List ℕ → Bool
contains none name = false
contains (some screens) name = contains_text screens name

unfoldable pub is_only_star : List ℕ → Bool
is_only_star [] = false
is_only_star (c ∷ []) = c == star
is_only_star (c ∷ d ∷ cs) = false

-- The names with a colon behind each, as the loop of KeyInfo::join adds them.
unfoldable pub join_from : List ℕ → List (List ℕ) → List ℕ
join_from screens [] = screens
join_from [] (n ∷ ns) =
    let rest = join_from (colon ∷ n ++ colon ∷ []) ns in if is_only_star n then star ∷ [] else rest
join_from (c ∷ cs) (n ∷ ns) =
    let rest = join_from ((c ∷ cs) ++ n ++ colon ∷ []) ns in
    if is_only_star n then star ∷ [] else rest

-- KeyInfo::join
unfoldable pub join : List (List ℕ) → List ℕ
join ns = join_from [] ns

unfoldable pub cons_name : List ℕ → Option (List (List ℕ)) → Option (List (List ℕ))
cons_name n none = none
cons_name n (some ns) = some (n ∷ ns)

-- The loop of KeyInfo::split: `fresh` at the start of a name, with `name` of it read. `none` is a name
-- without a colon behind it, where the code goes on from a null pointer.
unfoldable pub split_from : Bool → List ℕ → List ℕ → Option (List (List ℕ))
split_from true name [] = some []
split_from false name [] = none
split_from fresh name (c ∷ cs) =
    let rest = split_from true [] cs in
    let more = split_from false (name ++ c ∷ []) cs in
    if c == colon then cons_name name rest else more

-- KeyInfo::split
unfoldable pub split : Option (List ℕ) → Option (List (List ℕ))
split none = some []
split (some []) = some []
split (some (c ∷ cs)) = if c == star then some ((star ∷ []) ∷ []) else split_from true [] cs
