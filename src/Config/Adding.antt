-- ===== src/Config/Adding.antt =====
-- Cell::add on links that lie one before the other.
use zero_flow.Prelude.{
  ◌<◌, ◌≡◌, ◌⊎◌, inl, inr, refl, Bool, true, false, ◌||◌, [], ◌∷◌, All, Option, some, none, arith,
  sym, ◌∙◌, Bool-cases,
}
use zero_flow.Config.{CellEdge, overlaps}
use zero_flow.Config.Links.{
  Links, edge_lt, same_key, overlaps_before, overlaps_from, erase, emplace,
}
use zero_flow.Config.Lookup.{IsBelow, AreLinks}

abbrev pub IsApart : CellEdge → CellEdge → Type 0
IsApart x y = IsBelow x y ⊎ IsBelow y x

IsBelow-trans : (x y z : CellEdge) → y.start < y.end → IsBelow x y → IsBelow y z → IsBelow x z
IsBelow-trans x y z h (inl a) (inl b) = inl (omega (arith, a, b))
IsBelow-trans x y z h (inl a) (inr b) = inl (omega (arith, a, b.0))
IsBelow-trans x y z h (inr a) (inl b) = inl (omega (arith, a.0, b))
IsBelow-trans x y z h (inr a) (inr b) = inr (omega (arith, a.0, b.0), omega (arith, a.1, b.1))

above-All :
    (x y : CellEdge) (ls : Links)
    → y.start < y.end
    → IsBelow x y
    → All (λ (m : CellEdge × CellEdge). IsBelow y m.0) ls
    → All (λ (m : CellEdge × CellEdge). IsBelow x m.0) ls
above-All x y [] h b a = tt
above-All x y (l ∷ ls) h b a = (IsBelow-trans x y l.0 h b a.0, above-All x y ls h b a.1)

edge_lt-below : (x y : CellEdge) → x.start < x.end → IsBelow x y → edge_lt x y ≡ true
unfolding edge_lt
edge_lt-below x y h b = ground (arith, b)

edge_lt-above : (x y : CellEdge) → y.start < y.end → IsBelow y x → edge_lt x y ≡ false
unfolding edge_lt
edge_lt-above x y h b = ground (arith, b)

-- What the order says of two edges that do not overlap.
apart_lt :
    (x y : CellEdge)
    → x.start < x.end
    → y.start < y.end
    → edge_lt x y ≡ true
    → overlaps y x ≡ false
    → IsBelow x y
unfolding edge_lt overlaps
apart_lt x y h k e o = ground (arith, e, o)

apart_ge :
    (x y : CellEdge)
    → x.start < x.end
    → y.start < y.end
    → edge_lt x y ≡ false
    → overlaps y x ≡ false
    → IsBelow y x
unfolding edge_lt overlaps
apart_ge x y h k e o = ground (arith, e, o)

module _ (src dst : CellEdge) (pos : src.start < src.end) where
  emplace-All :
      (P : CellEdge × CellEdge → Type 0) (ls : Links)
      → P (src, dst)
      → All P ls
      → All P (emplace src dst ls)
  unfolding emplace
  emplace-All P [] p a = (p, tt)
  emplace-All P (l ∷ ls) p a = elim (Bool-cases (edge_lt src l.0)) [
    | inl e ↦ rw e (p, a)
    | inr e ↦ rw e (a.0, emplace-All P ls p a.1)
  ]

  pub emplace-AreLinks :
      (ls : Links)
      → AreLinks ls
      → All (λ (m : CellEdge × CellEdge). IsApart src m.0) ls
      → AreLinks (emplace src dst ls)
  unfolding emplace
  emplace-AreLinks [] v a = (pos, (tt, tt))
  emplace-AreLinks (l ∷ ls) v (inl b, a) =
      rw (edge_lt-below src l.0 pos b) (pos, ((b, above-All src l.0 ls v.0 b v.1.0), v))
  emplace-AreLinks (l ∷ ls) v (inr b, a) = rw (edge_lt-above src l.0 v.0 b) (
    v.0,
    (
      emplace-All (λ (m : CellEdge × CellEdge). IsBelow l.0 m.0) ls b v.1.0,
      emplace-AreLinks ls v.1.1 a,
    ),
  )

  -- The link before a place in the order, if it does not overlap, lies below.
  abbrev pub IsAfter : Option CellEdge → Links → Type 0
  IsAfter none ls = Unit
  IsAfter (some x) ls =
      (x.start < x.end)
      × ((edge_lt src x ≡ false) × All (λ (m : CellEdge × CellEdge). IsBelow x m.0) ls)

  abbrev pub LiesBelow : Option CellEdge → Type 0
  LiesBelow none = Unit
  LiesBelow (some x) = IsBelow x src

  before_lem :
      (before : Option CellEdge) (ls : Links)
      → IsAfter before ls
      → overlaps_before src before ≡ false
      → LiesBelow before
  unfolding overlaps_before
  before_lem none ls a o = tt
  before_lem (some x) ls a o = apart_ge src x pos a.0 a.1.0 o

  or-false : (a b : Bool) → a || b ≡ false → (a ≡ false) × (b ≡ false)
  or-false a b h = ground (arith, h)

  pub above-IsApart :
      (ls : Links)
      → All (λ (m : CellEdge × CellEdge). IsBelow src m.0) ls
      → All (λ (m : CellEdge × CellEdge). IsApart src m.0) ls
  above-IsApart [] a = tt
  above-IsApart (l ∷ ls) a = (inl a.0, above-IsApart ls a.1)

  taken :
      (before : Option CellEdge) (l : CellEdge × CellEdge) (ls : Links)
      → edge_lt src l.0 ≡ true
      → overlaps_from src before (l ∷ ls) ≡ false
      → overlaps l.0 src || overlaps_before src before ≡ false
  unfolding overlaps_from
  taken before l ls e o =
      let same : overlaps_from src before (l ∷ ls)
          ≡ overlaps l.0 src || overlaps_before src before =
        rw e refl in
      sym same ∙ o

  passed :
      (before : Option CellEdge) (l : CellEdge × CellEdge) (ls : Links)
      → edge_lt src l.0 ≡ false
      → overlaps_from src before (l ∷ ls) ≡ false
      → overlaps_from src (some l.0) ls ≡ false
  unfolding overlaps_from
  passed before l ls e o =
      let same : overlaps_from src before (l ∷ ls) ≡ overlaps_from src (some l.0) ls = rw e refl in
      sym same ∙ o

  chain :
      (before : Option CellEdge) (l : CellEdge × CellEdge) (ls : Links)
      → IsAfter before (l ∷ ls)
      → l.0.start < l.0.end
      → IsBelow l.0 src
      → LiesBelow before
  chain none l ls a h b = tt
  chain (some x) l ls a h b = IsBelow-trans x l.0 src h a.1.1.0 b

  pub overlaps_from-IsApart :
      (before : Option CellEdge) (ls : Links)
      → IsAfter before ls
      → AreLinks ls
      → overlaps_from src before ls ≡ false
      → LiesBelow before × All (λ (m : CellEdge × CellEdge). IsApart src m.0) ls
  unfolding overlaps_from
  overlaps_from-IsApart before [] a v o = (before_lem before [] a o, tt)
  overlaps_from-IsApart before (l ∷ ls) a v o = elim (Bool-cases (edge_lt src l.0)) [
    | inl e ↦
        let both =
          or-false (overlaps l.0 src) (overlaps_before src before) (taken before l ls e o) in
        let b = apart_lt src l.0 pos v.0 e both.0 in
        (
          before_lem before (l ∷ ls) a both.1,
          (inl b, above-IsApart ls (above-All src l.0 ls v.0 b v.1.0)),
        )
    | inr e ↦
        let r =
          overlaps_from-IsApart (some l.0) ls (v.0, (e, v.1.0)) v.1.1 (passed before l ls e o) in
        (chain before l ls a v.0 r.0, (inr r.0, r.1))
  ]

  -- A link that lies apart has another key.
  other_key : (x : CellEdge) → x.start < x.end → IsApart src x → same_key x src ≡ false
  unfolding same_key edge_lt
  other_key x h (inl b) = ground (arith, b)
  other_key x h (inr b) = ground (arith, b)

  pub erase-IsApart :
      (ls : Links)
      → AreLinks ls
      → All (λ (m : CellEdge × CellEdge). IsApart src m.0) ls
      → erase src ls ≡ ls
  unfolding erase
  erase-IsApart [] v a = refl
  erase-IsApart (l ∷ ls) v a = rw (other_key l.0 v.0 a.0, erase-IsApart ls v.1.1 a.1) refl
