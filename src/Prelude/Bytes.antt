-- ===== src/Prelude/Bytes.antt =====
-- Bytes are numbers below 256. A shift is a quotient by a power of two, a mask of low bits is a
-- remainder, and `|` between values with no bit in common is a sum.
use Prim.Native.Nat.{ℕ, ◌+◌, ◌*◌, ◌/◌, ◌%◌, ◌^◌, ◌<◌}
use mathlib.Core.Path.{◌≡◌}
use mathlib.Core.List.{List, [], ◌∷◌}
use native.Mathlib.Omega.{arith}
use zero_flow.Prelude.Lists.{All}

abbrev pub IsByte : ℕ → Type 0
IsByte b = b < 256

abbrev pub AreBytes : List ℕ → Type 0
AreBytes bs = All IsByte bs

-- A 32-bit number as four bytes, the most significant first.
abbrev pub be32 : ℕ → List ℕ
be32 v = v / 2 ^ 24 % 256 ∷ v / 2 ^ 16 % 256 ∷ v / 2 ^ 8 % 256 ∷ v % 256 ∷ []

abbrev pub of_be32 : ℕ → ℕ → ℕ → ℕ → ℕ
of_be32 a b c d = a * 2 ^ 24 + b * 2 ^ 16 + c * 2 ^ 8 + d

pub of_be32-be32 :
    (v : ℕ)
    → v < 2 ^ 32
    → of_be32 (v / 2 ^ 24 % 256) (v / 2 ^ 16 % 256) (v / 2 ^ 8 % 256) (v % 256) ≡ v
of_be32-be32 v h = omega arith

pub be32-of_be32 :
    (a b c d : ℕ)
    → IsByte a
    → IsByte b
    → IsByte c
    → IsByte d
    → be32 (of_be32 a b c d) ≡ a ∷ b ∷ c ∷ d ∷ []
be32-of_be32 a b c d ha hb hc hd = ground arith
