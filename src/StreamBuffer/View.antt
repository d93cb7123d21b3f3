-- ===== src/StreamBuffer/View.antt =====
-- The contents of the buffer as a plain queue of bytes, and the shape of its chunks.
use zero_flow.Prelude.{
  ℕ, ◌≤◌, ◌<◌, ◌≡◌, refl, List, [], ◌∷◌, ◌++◌, arith, length, length-append, drop, All,
}
use zero_flow.StreamBuffer.{StreamBuffer, empty}

abbrev pub concat : List (List ℕ) → List ℕ
concat [] = []
concat (c ∷ cs) = c ++ concat cs

-- The bytes in the buffer, oldest first.
unfoldable pub contents : StreamBuffer → List ℕ
contents b = drop b.head_used (concat b.chunks)

-- A chunk is never empty, and the first has a byte left.
abbrev pub HasRoom : ℕ → List (List ℕ) → Type 0
HasRoom used [] = used ≡ 0
HasRoom used (c ∷ cs) = (used < length c) × All (λ (d : List ℕ). 0 < length d) cs

pub record IsBuffer (b : StreamBuffer) : Type 0 where
  pub counted : b.size ≡ length (contents b)
  pub shape : HasRoom b.head_used b.chunks

pub empty-IsBuffer : IsBuffer empty
unfolding contents
empty-IsBuffer = record { counted = refl; shape = refl }

pub used_HasRoom :
    (used : ℕ) (cs : List (List ℕ)) → HasRoom used cs → All (λ (d : List ℕ). 0 < length d) cs
used_HasRoom used [] h = tt
used_HasRoom used (c ∷ cs) h = (omega arith, h.1)

pub fresh-HasRoom : (cs : List (List ℕ)) → All (λ (d : List ℕ). 0 < length d) cs → HasRoom 0 cs
fresh-HasRoom [] h = refl
fresh-HasRoom (c ∷ cs) h = h

pub HasRoom-le : (used : ℕ) (cs : List (List ℕ)) → HasRoom used cs → used ≤ length (concat cs)
HasRoom-le used [] h = omega (arith, h)
HasRoom-le used (c ∷ cs) h = omega (arith, length-append c (concat cs))
