-- ===== src/KeyInfo/Search.antt =====
-- KeyInfo::contains on what KeyInfo::join wrote.
use zero_flow.Prelude.{
  ℕ, ◌≡◌, ◌≢◌, ◌⊎◌, ◌↔◌, inl, inr, refl, sym, ap, ◌∙◌, Bool, true, false, List, [], ◌∷◌, ◌++◌, some,
  ◌==◌, ==→eq, ==→ne, ne→==, eq→==, Bool-cases,
}
use zero_flow.KeyInfo.{c_str, colon, starts_with, occurs, contains_text, contains, join_from, join}
use zero_flow.KeyInfo.RoundTrip.{IsPlain, ArePlain, joined, join-joined}

abbrev pub IsOneOf : List ℕ → List (List ℕ) → Type 0
IsOneOf m [] = ⊥
IsOneOf m (n ∷ ns) = (n ≡ m) ⊎ IsOneOf m ns

starts_with-skip : (a c : ℕ) (ms cs : List ℕ) → a ≢ c → starts_with (a ∷ ms) (c ∷ cs) ≡ false
unfolding starts_with
starts_with-skip a c ms cs h = rw (ne→== a c h) refl

starts_with-step : (a : ℕ) (ms cs : List ℕ) → starts_with (a ∷ ms) (a ∷ cs) ≡ starts_with ms cs
unfolding starts_with
starts_with-step a ms cs = rw (eq→== a a refl) refl

starts_with-same : (m r : List ℕ) → starts_with (m ++ colon ∷ []) (m ++ colon ∷ r) ≡ true
starts_with-same [] r = starts_with-step colon [] r ∙ unfold starts_with in refl
starts_with-same (a ∷ m) r =
    starts_with-step a (m ++ colon ∷ []) (m ++ colon ∷ r) ∙ starts_with-same m r

starts_with-end : (m : List ℕ) → starts_with (m ++ colon ∷ []) [] ≡ false
unfolding starts_with
starts_with-end [] = refl
starts_with-end (a ∷ m) = refl

starts_with-eq :
    (m n r : List ℕ)
    → IsPlain m
    → IsPlain n
    → starts_with (m ++ colon ∷ []) (n ++ colon ∷ r) ≡ true
    → n ≡ m
starts_with-eq [] [] r h k e = refl
starts_with-eq [] (c ∷ cs) r h (k, z, l) e =
    let skip = starts_with-skip colon c [] (cs ++ colon ∷ r) (λ x. k (sym x)) in
    absurd (cc (skip, e))
starts_with-eq (a ∷ m) [] r (h, z, i) k e =
    let skip = starts_with-skip a colon (m ++ colon ∷ []) r h in absurd (cc (skip, e))
starts_with-eq (a ∷ m) (c ∷ cs) r (h, y, i) (k, z, l) e = elim (Bool-cases (a == c)) [
  | inr x ↦
      let skip = starts_with-skip a c (m ++ colon ∷ []) (cs ++ colon ∷ r) (==→ne a c x) in
      absurd (cc (skip, e))
  | inl x ↦
      let same = ==→eq a c x in
      let step : starts_with (m ++ colon ∷ []) (cs ++ colon ∷ r) ≡ true =
        sym (starts_with-step a (m ++ colon ∷ []) (cs ++ colon ∷ r))
        ∙ ap (λ y. starts_with (a ∷ m ++ colon ∷ []) (y ∷ cs ++ colon ∷ r)) same
        ∙ e in
      cc (same, starts_with-eq m cs r i l step)
]

-- Inside a name without a colon there is no match.
occurs-name : (ms n r : List ℕ) → IsPlain n → occurs (colon ∷ ms) (n ++ r) ≡ occurs (colon ∷ ms) r
unfolding occurs
occurs-name ms [] r h = refl
occurs-name ms (c ∷ cs) r (h, z, k) =
    rw (starts_with-skip colon c ms (cs ++ r) (λ x. h (sym x))) (occurs-name ms cs r k)

occurs-joined :
    (m : List ℕ) (ns : List (List ℕ))
    → IsPlain m
    → ArePlain ns
    → (occurs (colon ∷ m ++ colon ∷ []) (colon ∷ joined ns) ≡ true) ↔ IsOneOf m ns
unfolding occurs starts_with
occurs-joined m [] h k =
    let short : starts_with (colon ∷ m ++ colon ∷ []) (colon ∷ []) ≡ false =
      starts_with-step colon (m ++ colon ∷ []) [] ∙ starts_with-end m in
    rw (short, starts_with) ((λ e. cc e), λ e. absurd e)
occurs-joined m (n ∷ ns) h (k, s, l) =
    let (found, finds) = occurs-joined m ns h l in
    let rest = occurs-name (m ++ colon ∷ []) n (colon ∷ joined ns) k in
    rw (starts_with-step colon (m ++ colon ∷ []) (n ++ colon ∷ joined ns))
      (elim (Bool-cases (starts_with (m ++ colon ∷ []) (n ++ colon ∷ joined ns))) [
        | inl e ↦ rw e ((λ x. inl (starts_with-eq m n (joined ns) h k e)), λ x. refl)
        | inr e ↦ rw (e, rest) ((λ x. inr (found x)), here n m (joined ns) ns e finds)
      ])
  where
    here :
        (n m r : List ℕ) (ns : List (List ℕ)) {B : Bool}
        → starts_with (m ++ colon ∷ []) (n ++ colon ∷ r) ≡ false
        → (IsOneOf m ns → B ≡ true)
        → (n ≡ m) ⊎ IsOneOf m ns
        → B ≡ true
    here n m r ns e finds (inr z) = finds z
    here n m r ns e finds (inl same) =
        let match : starts_with (m ++ colon ∷ []) (n ++ colon ∷ r) ≡ true =
          rw same (starts_with-same m r) in
        absurd (cc (e, match))

-- A pattern without a 0 byte is searched as a whole.
c_str-plain : (m : List ℕ) → IsPlain m → c_str (m ++ colon ∷ []) ≡ m ++ colon ∷ []
unfolding c_str
c_str-plain [] h = refl
c_str-plain (c ∷ cs) (h, z, k) = rw (ne→== c 0 z, c_str-plain cs k) refl

c_str-pattern : (m : List ℕ) → IsPlain m → c_str (colon ∷ m ++ colon ∷ []) ≡ colon ∷ m ++ colon ∷ []
unfolding c_str
c_str-pattern m h = ap (◌∷◌ colon) (c_str-plain m h)

-- contains finds a name in what join wrote exactly if the name is one of those that were joined, where
-- neither it nor any of them has a colon or a 0 byte and none of them is the star.
pub contains-join :
    (m : List ℕ) (ns : List (List ℕ))
    → IsPlain m
    → ArePlain ns
    → (contains (some (join ns)) m ≡ true) ↔ IsOneOf m ns
unfolding contains contains_text
contains-join m [] h k =
    let nothing : join [] ≡ [] = unfold join join_from in refl in
    rw nothing ((λ e. cc e), λ e. absurd e)
contains-join m (n ∷ ns) h k =
    rw (join-joined n ns k, c_str-pattern m h) (occurs-joined m (n ∷ ns) h k)
