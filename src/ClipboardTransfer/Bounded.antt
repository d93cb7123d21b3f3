-- ===== src/ClipboardTransfer/Bounded.antt =====
-- What a peer's chunks can make of the state of a clipboard transfer.
use zero_flow.Prelude.{
  ℕ, ◌+◌, ◌≤◌, ◌≡◌, true, false, List, ◌++◌, ltb, leb, ◌==◌, length, length-append, Option, some,
  none, arith, Bool-cases, inl, inr,
}
use zero_flow.ClipboardTransfer.{
  Assembly, reset, would_exceed, receive_start, receive_data, receive_end, receive,
}

-- Never more than `max` bytes are kept, and while a transfer is on, no more than were announced.
pub record IsAssembly (max : ℕ) (a : Assembly) : Type 0 where
  pub kept : length a.cached ≤ max
  pub announced :
      a.active ≡ true
      → a.discarding ≡ false
      → (length a.cached ≤ a.expected_size) × (a.expected_size ≤ max)

reset-IsAssembly : (max : ℕ) → IsAssembly max reset
reset-IsAssembly max = record {
  kept = omega arith;
  announced = λ h k. (omega arith, absurd (grind (arith, h)));
}

ltb-false : (m n : ℕ) → ltb m n ≡ false → n ≤ m
ltb-false m n h = ground arith

receive_start-IsAssembly : (max : ℕ) (n : Option ℕ) → IsAssembly max (receive_start max n).0
unfolding receive_start
receive_start-IsAssembly max none = reset-IsAssembly max
receive_start-IsAssembly max (some n) = elim (Bool-cases (ltb max n)) [
  | inl e ↦ rw e (record { kept = omega arith; announced = λ h k. absurd (grind (arith, k)) })
  | inr e ↦
      rw e (record { kept = omega arith; announced = λ h k. (omega arith, ltb-false max n e) })
]

would_exceed-false : (x y z : ℕ) → would_exceed x y z ≡ false → x + y ≤ z
unfolding would_exceed
would_exceed-false x y z h = ground arith

receive_data-IsAssembly :
    (max : ℕ) (bytes : List ℕ) (a : Assembly)
    → IsAssembly max a
    → IsAssembly max (receive_data bytes a).0
unfolding receive_data
receive_data-IsAssembly max bytes a h = elim (Bool-cases a.active) [
  | inr e ↦ rw e (reset-IsAssembly max)
  | inl e ↦ elim (Bool-cases a.discarding) [
    | inl d ↦ simp (e, d) h
    | inr d ↦ elim (Bool-cases (would_exceed (length a.cached) (length bytes) a.expected_size)) [
      | inl w ↦ rw (e, d, w) (reset-IsAssembly max)
      | inr w ↦ rw (e, d, w) (grown e d w)
    ]
  ]
]
  where
    grown :
        a.active ≡ true
        → a.discarding ≡ false
        → would_exceed (length a.cached) (length bytes) a.expected_size ≡ false
        → IsAssembly max (record {
          cached = a.cached ++ bytes;
          expected_size = a.expected_size;
          active = true;
          discarding = false;
        })
    grown e d w =
        let l = length-append a.cached bytes in
        let o = h.announced e d in
        let fits = would_exceed-false (length a.cached) (length bytes) a.expected_size w in
        record {
          kept = omega (arith, l, o.0, o.1, fits);
          announced = λ i j. (omega (arith, l, o.0, fits), o.1);
        }

receive_end-IsAssembly :
    (max : ℕ) (a : Assembly) → IsAssembly max a → IsAssembly max (receive_end a).0
unfolding receive_end
receive_end-IsAssembly max a h = elim (Bool-cases a.active) [
  | inr e ↦ rw e (reset-IsAssembly max)
  | inl e ↦ elim (Bool-cases a.discarding) [
    | inl d ↦ rw (e, d) (reset-IsAssembly max)
    | inr d ↦ elim (Bool-cases (a.expected_size == length a.cached)) [
      | inl w ↦
          rw (e, d, w) (record { kept = h.kept; announced = λ i j. absurd (grind (arith, i)) })
      | inr w ↦ rw (e, d, w) (reset-IsAssembly max)
    ]
  ]
]

-- If a transfer keeps no more than `max` bytes and, while it is active and not being discarded, no
-- more than it announced, which is at most `max`, then this holds after any chunk.
pub receive-IsAssembly :
    (to_number : List ℕ → Option ℕ) (max id mark : ℕ) (bytes : List ℕ) (a : Assembly)
    → IsAssembly max a
    → IsAssembly max (receive to_number max id mark bytes a).0
unfolding receive
receive-IsAssembly to_number max id mark bytes a h = elim (Bool-cases (leb 2 id)) [
  | inl e ↦ rw e (reset-IsAssembly max)
  | inr e ↦ rw e (elim (Bool-cases (mark == 1)) [
    | inl s ↦ rw s (receive_start-IsAssembly max (to_number bytes))
    | inr s ↦ rw s (elim (Bool-cases (mark == 2)) [
      | inl d ↦ rw d (receive_data-IsAssembly max bytes a h)
      | inr d ↦ rw d (elim (Bool-cases (mark == 3)) [
        | inl n ↦ rw n (receive_end-IsAssembly max a h)
        | inr n ↦ rw n (reset-IsAssembly max)
      ])
    ])
  ])
]
