-- ===== src/StreamBuffer/Write.antt =====
-- write against the view.
use zero_flow.Prelude.{
  ℕ, zero, suc, ◌+◌, ◌-◌, ◌^◌, ◌≤◌, ◌<◌, ◌≡◌, ap, ◌∙◌, sym, List, [], ◌∷◌, ◌++◌, arith, min, leb,
  ◌==◌, ==→eq, length, length-append, take, drop, drop-append, append_assoc, append-nil, Bool-cases,
  inl, inr, take-append-drop, take_all, leb→lt, length-take, length-drop, leb→le,
}
use zero_flow.StreamBuffer.{StreamBuffer, chunk_size, fill, write_back, write}
use zero_flow.StreamBuffer.View.{concat, contents, HasRoom, IsBuffer, used_HasRoom, HasRoom-le}

fill_lem :
    (fuel : ℕ) (scan bytes : List ℕ)
    → length scan < chunk_size
    → 0 < length bytes
    → length bytes ≤ fuel
    → (concat (fill fuel scan bytes) ≡ scan ++ bytes) × HasRoom (length scan) (fill fuel scan bytes)
unfolding fill
fill_lem zero scan bytes h k l = absurd (omega arith)
fill_lem (suc fuel) scan bytes h k l =
    let count = min (chunk_size - length scan) (length bytes) in
    let joined = length-append scan (take count bytes) in
    let taken = length-take count bytes in
    elim (Bool-cases (leb (length bytes) count)) [
      | inl e ↦ rw e (
        append-nil (scan ++ take count bytes)
            ∙ ap (◌++◌ scan) (take_all count bytes (leb→le (length bytes) count e)),
        (omega (arith, joined, taken), tt),
      )
      | inr e ↦
          let short = leb→lt (length bytes) count e in
          let ih =
            fill_lem fuel [] (drop count bytes) (omega arith)
              (omega (arith, length-drop count bytes)) (omega (arith, length-drop count bytes)) in
          rw e (
            append_assoc scan (take count bytes) (concat (fill fuel [] (drop count bytes)))
                ∙ ap (λ x. scan ++ (take count bytes ++ x)) ih.0
                ∙ ap (◌++◌ scan) (take-append-drop count bytes),
            (omega (arith, joined, taken), used_HasRoom 0 (fill fuel [] (drop count bytes)) ih.1),
          )
    ]

room_below :
    (used u : ℕ) (cs : List (List ℕ)) → used ≤ u → 0 < length cs → HasRoom u cs → HasRoom used cs
room_below used u [] h k r = absurd (omega arith)
room_below used u (c ∷ cs) h k r = (omega arith, r.1)

fill_cons : (fuel : ℕ) (scan bytes : List ℕ) → 0 < length (fill fuel scan bytes)
unfolding fill
fill_cons zero scan bytes = omega arith
fill_cons (suc fuel) scan bytes = ground arith

write_back_lem :
    (used : ℕ) (cs : List (List ℕ)) (bytes : List ℕ)
    → HasRoom used cs
    → 0 < length bytes
    → (concat (write_back cs bytes) ≡ concat cs ++ bytes) × HasRoom used (write_back cs bytes)
unfolding write_back
write_back_lem used [] bytes h k =
    let f = fill_lem (length bytes) [] bytes (omega arith) k (omega arith) in
    (
      f.0,
      room_below used 0 (fill (length bytes) [] bytes) (omega (arith, h))
          (fill_cons (length bytes) [] bytes) f.1,
    )
write_back_lem used (c ∷ []) bytes h k = elim (Bool-cases (leb chunk_size (length c))) [
  | inl e ↦
      let f = fill_lem (length bytes) [] bytes (omega arith) k (omega arith) in
      rw (e, append-nil c)
        (ap (◌++◌ c) f.0, (h.0, used_HasRoom 0 (fill (length bytes) [] bytes) f.1))
  | inr e ↦
      let f = fill_lem (length bytes) c bytes (leb→lt chunk_size (length c) e) k (omega arith) in
      rw (e, append-nil c)
        (
          f.0,
          room_below used (length c) (fill (length bytes) c bytes) (omega (arith, h.0))
              (fill_cons (length bytes) c bytes) f.1,
        )
]
write_back_lem used (c ∷ d ∷ cs) bytes h k =
    let ih = write_back_lem 0 (d ∷ cs) bytes h.1 k in
    (
      ap (◌++◌ c) ih.0 ∙ sym (append_assoc c (concat (d ∷ cs)) bytes),
      (h.0, used_HasRoom 0 (write_back (d ∷ cs) bytes) ih.1),
    )

-- write puts bytes behind those in a well-formed buffer and keeps it well-formed, if the number of
-- bytes then fits a uint32_t.
pub write-contents :
    (bytes : List ℕ) (b : StreamBuffer)
    → IsBuffer b
    → b.size + length bytes < 2 ^ 32
    → (contents (write bytes b) ≡ contents b ++ bytes) × IsBuffer (write bytes b)
unfolding write contents
write-contents [] b v h = (sym (append-nil (contents b)), v)
write-contents (x ∷ bytes) b v h = elim (Bool-cases (length (x ∷ bytes) == 0)) [
  | inl e ↦ absurd (omega (arith, ==→eq (length (x ∷ bytes)) 0 e))
  | inr e ↦
      let w = write_back_lem b.head_used b.chunks (x ∷ bytes) v.shape (omega arith) in
      let same =
        ap (drop b.head_used) w.0
        ∙ drop-append b.head_used (concat b.chunks) (x ∷ bytes)
            (HasRoom-le b.head_used b.chunks v.shape) in
      rw e (
        same,
        record {
          counted = omega (
            arith,
            ap (λ (l : List ℕ). length l) same,
            v.counted,
            length-append (contents b) (x ∷ bytes),
          );
          shape = w.1;
        },
      )
]
