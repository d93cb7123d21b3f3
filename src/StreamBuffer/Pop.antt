-- ===== src/StreamBuffer/Pop.antt =====
-- pop against the view.
use zero_flow.Prelude.{
  ℕ, ◌+◌, ◌-◌, ◌≤◌, ◌<◌, ◌≡◌, ap, ◌∙◌, sym, true, false, List, [], ◌∷◌, ◌++◌, arith, leb, length,
  length-append, drop, Bool-cases, inl, inr, drop_all, length-drop, drop-drop, leb→le,
  drop-append_past,
}
use zero_flow.StreamBuffer.{StreamBuffer, discard, pop}
use zero_flow.StreamBuffer.View.{concat, contents, HasRoom, IsBuffer, empty-IsBuffer, fresh-HasRoom}

discard_lem :
    (n used : ℕ) (cs : List (List ℕ))
    → HasRoom used cs
    → n + used < length (concat cs)
    → (drop (discard n used cs).1 (concat (discard n used cs).0) ≡ drop (n + used) (concat cs))
      × HasRoom (discard n used cs).1 (discard n used cs).0
unfolding discard
discard_lem n used [] h k = absurd (omega arith)
discard_lem n used (c ∷ cs) h k = elim (Bool-cases (leb (length c - used) n)) [
  | inl e ↦
      let n' = n - (length c - used) in
      let ih =
        discard_lem n' 0 cs (fresh-HasRoom cs h.1)
          (omega (arith, length-append c (concat cs), room e)) in
      rw e (
        ih.0
            ∙ ap (λ k. drop k (concat cs)) (index e)
            ∙ sym (drop-append_past (n + used) c (concat cs) (room e)),
        ih.1,
      )
  | inr e ↦ rw e (ap (λ k. drop k (c ++ concat cs)) (omega arith), (ground arith, h.1))
]
  where
    room : leb (length c - used) n ≡ true → length c ≤ n + used
    room e = ground arith

    index : leb (length c - used) n ≡ true → n - (length c - used) + 0 ≡ n + used - length c
    index e = ground arith

-- pop takes the oldest `n` bytes off a well-formed buffer, all of them if there are no more, and
-- keeps it well-formed.
pub pop-contents :
    (n : ℕ) (b : StreamBuffer)
    → IsBuffer b
    → (contents (pop n b) ≡ drop n (contents b)) × IsBuffer (pop n b)
unfolding pop contents
pop-contents n b v = elim (Bool-cases (leb b.size n)) [
  | inl e ↦
      rw e (
        sym (drop_all n (contents b) (omega (arith, v.counted, leb→le b.size n e))),
        empty-IsBuffer,
      )
  | inr e ↦
      let d = discard_lem n b.head_used b.chunks v.shape (left e) in
      let same = d.0 ∙ sym (drop-drop n b.head_used (concat b.chunks)) in
      rw e (
        same,
        record {
          counted =
              omega
                (arith, ap (λ (x : List ℕ). length x) same, v.counted, length-drop n (contents b));
          shape = d.1;
        },
      )
]
  where
    left : leb b.size n ≡ false → n + b.head_used < length (concat b.chunks)
    left e = ground (arith, v.counted, length-drop b.head_used (concat b.chunks))
