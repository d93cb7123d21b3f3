-- ===== src/Config/Names.antt =====
-- What isValidScreenName checks.
use zero_flow.Prelude.{
  ℕ, ◌≡◌, Bool, true, false, List, [], ◌∷◌, length, ◌==◌, if◌then◌else◌, arith, ne→==, refl,
}
use zero_flow.Config.{is_valid_screen_name, check_parts}

-- isValidScreenName accepts every name but the empty one, whatever its characters are: the loop's
-- condition does not hold before the first round.
pub is_valid_screen_name_lem :
    (isalnum : ℕ → Bool) (name : List ℕ)
    → is_valid_screen_name isalnum name ≡ (if length name == 0 then false else true)
unfolding is_valid_screen_name check_parts
is_valid_screen_name_lem isalnum [] = refl
is_valid_screen_name_lem isalnum (c ∷ cs) = rw (ne→== 0 (length (c ∷ cs)) (omega arith)) refl
