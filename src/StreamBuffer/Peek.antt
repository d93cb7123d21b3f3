-- ===== src/StreamBuffer/Peek.antt =====
-- peek against the view.
use zero_flow.Prelude.{
  ℕ, ◌+◌, ◌-◌, ◌≤◌, ◌<◌, ◌≡◌, refl, ap, ◌∙◌, sym, List, [], ◌∷◌, ◌++◌, arith, ltb, ◌==◌, ==→eq,
  length, length-append, take, drop, drop-append, take-append, append_assoc, append-nil, Bool-cases,
  inl, inr, length-drop, ltb→le,
}
use zero_flow.StreamBuffer.{StreamBuffer, consolidate, shown, merge, peek}
use zero_flow.StreamBuffer.View.{concat, contents, HasRoom, IsBuffer}

concat-consolidate :
    (n used : ℕ) (head : List ℕ) (rest : List (List ℕ))
    → concat (consolidate n used head rest) ≡ head ++ concat rest
unfolding consolidate
concat-consolidate n used head [] = refl
concat-consolidate n used head (scan ∷ rest) =
    ground
      (arith, concat-consolidate n used (head ++ scan) rest, append_assoc head scan (concat rest))

consolidate-HasRoom :
    (n used : ℕ) (head : List ℕ) (rest : List (List ℕ))
    → HasRoom used (head ∷ rest)
    → HasRoom used (consolidate n used head rest)
unfolding consolidate
consolidate-HasRoom n used head [] h = h
consolidate-HasRoom n used head (scan ∷ rest) h =
    ground (arith, consolidate-HasRoom n used (head ++ scan) rest, length-append head scan)

-- the first chunk has `n` bytes in the end, if all chunks have
shown_lem :
    (n used : ℕ) (head : List ℕ) (rest : List (List ℕ))
    → used ≤ length head
    → n + used ≤ length (head ++ concat rest)
    → shown n used (consolidate n used head rest) ≡ take n (drop used (head ++ concat rest))
unfolding shown consolidate
shown_lem n used head [] h k = rw append-nil
shown_lem n used head (scan ∷ rest) h k = elim (Bool-cases (ltb (length head - used) n)) [
  | inl e ↦
      rw (e, ← append_assoc head scan (concat rest))
        (shown_lem n used (head ++ scan) rest (omega (arith, length-append head scan))
          (omega (arith, ap length (append_assoc head scan (concat rest)))))
  | inr e ↦
      rw (e, drop-append used head (scan ++ concat rest) h)
        (sym (
          take-append n (drop used head) (scan ++ concat rest)
            (omega (arith, length-drop used head, ltb→le (length head - used) n e))))
]

merge-contents : (n used : ℕ) (cs : List (List ℕ)) → concat (merge n used cs) ≡ concat cs
unfolding merge
merge-contents n used [] = refl
merge-contents n used (c ∷ cs) = concat-consolidate n used c cs

merge-HasRoom : (n used : ℕ) (cs : List (List ℕ)) → HasRoom used cs → HasRoom used (merge n used cs)
unfolding merge
merge-HasRoom n used [] h = h
merge-HasRoom n used (c ∷ cs) h = consolidate-HasRoom n used c cs h

shown-merge :
    (n used : ℕ) (cs : List (List ℕ))
    → 0 < n
    → HasRoom used cs
    → n ≤ length (drop used (concat cs))
    → shown n used (merge n used cs) ≡ take n (drop used (concat cs))
unfolding merge
shown-merge n used [] p h k = absurd (omega (arith, length-drop used (concat [])))
shown-merge n used (c ∷ cs) p h k =
    shown_lem n used c cs (omega arith) (omega (arith, length-drop used (c ++ concat cs)))

-- If the buffer is well-formed and has `n` bytes, peek shows the oldest `n` of them, leaves the
-- contents as they are, and keeps the buffer well-formed.
pub peek-contents :
    (n : ℕ) (b : StreamBuffer)
    → IsBuffer b
    → n ≤ b.size
    → ((peek n b).0 ≡ take n (contents b))
      × (contents (peek n b).1 ≡ contents b)
      × IsBuffer (peek n b).1
unfolding peek contents
peek-contents n b v h = elim (Bool-cases (n == 0)) [
  | inl e ↦ rw (e, ==→eq n 0 e) (refl, refl, v)
  | inr e ↦ rw e (
    shown-merge n b.head_used b.chunks (ground arith) v.shape (omega (arith, v.counted)),
    ap (drop b.head_used) (merge-contents n b.head_used b.chunks),
    record {
      counted =
          v.counted
          ∙ ap (λ x. length (drop b.head_used x)) (sym (merge-contents n b.head_used b.chunks));
      shape = merge-HasRoom n b.head_used b.chunks v.shape;
    },
  )
]
