-- ===== src/Config/Overlaps.antt =====
-- The overlap test of two edges, and the positions that they share.
use zero_flow.Prelude.{ℕ, ◌<◌, ◌≤◌, ◌≡◌, ◌↔◌, true, arith}
use native.Mathlib.Decide.{dec_le}
use zero_flow.Config.{CellEdge, overlaps, is_inside}

overlaps-facts :
    (x y : CellEdge)
    → x.start < x.end
    → y.start < y.end
    → overlaps x y ≡ true
    → (x.side ≡ y.side) × (x.start < y.end) × (y.start < x.end)
unfolding overlaps
overlaps-facts x y h k e = ground arith

facts-overlaps :
    (x y : CellEdge)
    → x.start < x.end
    → y.start < y.end
    → x.side ≡ y.side
    → x.start < y.end
    → y.start < x.end
    → overlaps x y ≡ true
unfolding overlaps
facts-overlaps x y h k e l m = ground arith

pub is_inside_lem : (p : ℕ) (x : CellEdge) → x.start ≤ p → p < x.end → is_inside p x ≡ true
unfolding is_inside
is_inside_lem p x h k = ground arith

pub is_inside-le : (p : ℕ) (x : CellEdge) → is_inside p x ≡ true → (x.start ≤ p) × (p < x.end)
unfolding is_inside
is_inside-le p x h = ground arith

-- Two edges with intervals that are not empty overlap exactly if they are on one side and a position
-- is inside of both.
overlaps_iff :
    (x y : CellEdge)
    → x.start < x.end
    → y.start < y.end
    → (overlaps x y ≡ true)
      ↔ ((x.side ≡ y.side) × ((p : ℕ) × (is_inside p x ≡ true) × (is_inside p y ≡ true)))
overlaps_iff x y h k = (
  (λ e.
      let f = overlaps-facts x y h k e in
      elim (dec_le x.start y.start) [
        | yes l ↦
            (f.0, (y.start, is_inside_lem y.start x l f.2, is_inside_lem y.start y (omega arith) k))
        | no l ↦ (
          f.0,
          (
            x.start,
            is_inside_lem x.start x (omega arith) h,
            is_inside_lem x.start y (omega arith) f.1,
          ),
        )
      ]),
  (λ (e, (p, i, j)).
      let a = is_inside-le p x i in
      let b = is_inside-le p y j in
      facts-overlaps x y h k e (omega (arith, a.0, b.1)) (omega (arith, a.1, b.0))),
)
