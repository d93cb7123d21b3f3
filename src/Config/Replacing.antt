-- ===== src/Config/Replacing.antt =====
-- Cell::add in place of a link with the same edge, and as a whole.
use zero_flow.Prelude.{
  ◌<◌, ◌≡◌, inl, inr, refl, ap, true, false, not, ◌&&◌, [], ◌∷◌, All, Option, some, none, arith,
  sym, subst, ◌∙◌, Bool-cases,
}
use zero_flow.Config.{CellEdge}
use zero_flow.Config.Links.{Links, edge_eq, same_key, has_edge, overlaps_from, erase, emplace, add}
use zero_flow.Config.Lookup.{IsBelow, AreLinks}
use zero_flow.Config.Adding.{
  IsApart, emplace-AreLinks, overlaps_from-IsApart, erase-IsApart, above-IsApart,
}

equal-above : (x y z : CellEdge) → edge_eq y z ≡ true → IsBelow x y → IsBelow x z
unfolding edge_eq
equal-above x y z e (inl b) = inl (ground (arith, e, b))
equal-above x y z e (inr b) = inr (ground (arith, e, b.0), ground (arith, e, b.1))

equal-IsBelow : (x y z : CellEdge) → edge_eq x z ≡ true → IsBelow x y → IsBelow z y
unfolding edge_eq
equal-IsBelow x y z e (inl b) = inl (ground (arith, e, b))
equal-IsBelow x y z e (inr b) = inr (ground (arith, e, b.0), ground (arith, e, b.1))

All-IsBelow :
    (x z : CellEdge) (ls : Links)
    → edge_eq x z ≡ true
    → All (λ (m : CellEdge × CellEdge). IsBelow x m.0) ls
    → All (λ (m : CellEdge × CellEdge). IsBelow z m.0) ls
All-IsBelow x z [] e a = tt
All-IsBelow x z (l ∷ ls) e a = (equal-IsBelow x l.0 z e a.0, All-IsBelow x z ls e a.1)

module _ (src dst : CellEdge) (pos : src.start < src.end) where
  -- has_edge finds the edge in front, or behind.
  here :
      (l : CellEdge × CellEdge) (ls : Links)
      → same_key l.0 src ≡ true
      → has_edge src (l ∷ ls) ≡ true
      → edge_eq l.0 src ≡ true
  unfolding has_edge
  here l ls k h = let same : has_edge src (l ∷ ls) ≡ edge_eq l.0 src = rw k refl in sym same ∙ h

  behind :
      (l : CellEdge × CellEdge) (ls : Links)
      → same_key l.0 src ≡ false
      → has_edge src (l ∷ ls) ≡ true
      → has_edge src ls ≡ true
  unfolding has_edge
  behind l ls k h = let same : has_edge src (l ∷ ls) ≡ has_edge src ls = rw k refl in sym same ∙ h

  nowhere : has_edge src [] ≡ false
  unfolding has_edge
  nowhere = refl

  has_edge-IsBelow :
      (x : CellEdge) (ls : Links)
      → All (λ (m : CellEdge × CellEdge). IsBelow x m.0) ls
      → has_edge src ls ≡ true
      → IsBelow x src
  has_edge-IsBelow x [] a h = absurd (cc (nowhere, h))
  has_edge-IsBelow x (l ∷ ls) a h = elim (Bool-cases (same_key l.0 src)) [
    | inl k ↦ equal-above x l.0 src (here l ls k h) a.0
    | inr k ↦ has_edge-IsBelow x ls a.1 (behind l ls k h)
  ]

  erase-All : (P : CellEdge × CellEdge → Type 0) (ls : Links) → All P ls → All P (erase src ls)
  unfolding erase
  erase-All P [] a = tt
  erase-All P (l ∷ ls) a = elim (Bool-cases (same_key l.0 src)) [
    | inl k ↦ rw k a.1
    | inr k ↦ rw k (a.0, erase-All P ls a.1)
  ]

  erased :
      (ls : Links)
      → AreLinks ls
      → has_edge src ls ≡ true
      → AreLinks (erase src ls) × All (λ (m : CellEdge × CellEdge). IsApart src m.0) (erase src ls)
  unfolding erase
  erased [] v h = (tt, tt)
  erased (l ∷ ls) v h = elim (Bool-cases (same_key l.0 src)) [
    | inl k ↦
        rw k (v.1.1, above-IsApart src dst pos ls (All-IsBelow l.0 src ls (here l ls k h) v.1.0))
    | inr k ↦
        let r = erased ls v.1.1 (behind l ls k h) in
        rw k (
          (v.0, (erase-All (λ (m : CellEdge × CellEdge). IsBelow l.0 m.0) ls v.1.0, r.0)),
          (apart_below l.0 (has_edge-IsBelow l.0 ls v.1.0 (behind l ls k h)), r.1),
        )
  ]
    where
      apart_below : (x : CellEdge) → IsBelow x src → IsApart src x
      apart_below x b = inr b

  whole :
      (ls : Links)
      → AreLinks ls
      → not (has_edge src ls) && overlaps_from src none ls ≡ false
      → AreLinks (emplace src dst (erase src ls))
  whole ls v e = elim (Bool-cases (has_edge src ls)) [
    | inl h ↦ let r = erased ls v h in emplace-AreLinks src dst pos (erase src ls) r.0 r.1
    | inr h ↦
        let o : overlaps_from src none ls ≡ false = ground (arith, e, h) in
        let r = overlaps_from-IsApart src dst pos none ls tt v o in
        rw (erase-IsApart src dst pos ls v r.1) (emplace-AreLinks src dst pos ls v r.1)
  ]

or_empty : Option Links → Links
or_empty none = []
or_empty (some ls) = ls

-- Whether Cell::add refuses a link, replaces one or takes a new one, the links of a cell still lie
-- one before the other with positions of their own, if the edge to be added has a position.
pub add-AreLinks :
    (src dst : CellEdge) (ls ls' : Links)
    → src.start < src.end
    → AreLinks ls
    → add src dst ls ≡ some ls'
    → AreLinks ls'
unfolding add or_empty
add-AreLinks src dst ls ls' pos v e =
    elim (Bool-cases (not (has_edge src ls) && overlaps_from src none ls)) [
      | inl r ↦ let same : add src dst ls ≡ none = rw r refl in absurd (cc (same, e))
      | inr r ↦
          let same : add src dst ls ≡ some (emplace src dst (erase src ls)) = rw r refl in
          subst AreLinks (ap or_empty (sym same ∙ e)) (whole src dst pos ls v r)
    ]
