-- ===== src/KeyInfo/RoundTrip.antt =====
-- KeyInfo::split of what KeyInfo::join wrote.
use zero_flow.Prelude.{
  ℕ, ◌≡◌, ◌≢◌, refl, sym, ap, ◌∙◌, Bool, true, false, List, [], ◌∷◌, ◌++◌, append_assoc, append-nil,
  some, ne→==,
}
use zero_flow.KeyInfo.{colon, is_only_star, join_from, join, cons_name, split_from, split}

-- No colon and no 0 byte in a name.
abbrev pub IsPlain : List ℕ → Type 0
IsPlain [] = Unit
IsPlain (c ∷ cs) = (c ≢ colon) × (c ≢ 0) × IsPlain cs

abbrev pub ArePlain : List (List ℕ) → Type 0
ArePlain [] = Unit
ArePlain (n ∷ ns) = IsPlain n × (is_only_star n ≡ false) × ArePlain ns

-- The names with a colon behind each.
abbrev pub joined : List (List ℕ) → List ℕ
joined [] = []
joined (n ∷ ns) = n ++ colon ∷ joined ns

join_from-joined :
    (c : ℕ) (cs : List ℕ) (ns : List (List ℕ))
    → ArePlain ns
    → join_from (c ∷ cs) ns ≡ (c ∷ cs) ++ joined ns
unfolding join_from
join_from-joined c cs [] h = sym (append-nil (c ∷ cs))
join_from-joined c cs (n ∷ ns) (h, s, k) =
    rw s (join_from-joined c (cs ++ n ++ colon ∷ []) ns k ∙ simp append_assoc)

pub join-joined :
    (n : List ℕ) (ns : List (List ℕ)) → ArePlain (n ∷ ns) → join (n ∷ ns) ≡ colon ∷ joined (n ∷ ns)
unfolding join join_from
join-joined n ns (h, s, k) =
    rw s (join_from-joined colon (n ++ colon ∷ []) ns k ∙ simp append_assoc)

split_from-name :
    (fresh : Bool) (done name rest : List ℕ)
    → IsPlain name
    → split_from fresh done (name ++ colon ∷ rest)
      ≡ cons_name (done ++ name) (split_from true [] rest)
unfolding split_from
split_from-name fresh done [] rest h = rw (append-nil done) refl
split_from-name fresh done (c ∷ cs) rest (h, z, k) = rw (ne→== c colon h) (
    split_from-name false (done ++ c ∷ []) cs rest k
    ∙ ap (λ x. cons_name x (split_from true [] rest)) (simp append_assoc))

split_from-joined : (ns : List (List ℕ)) → ArePlain ns → split_from true [] (joined ns) ≡ some ns
split_from-joined [] h = unfold split_from in refl
split_from-joined (n ∷ ns) (h, s, k) =
    split_from-name true [] n (joined ns) h
    ∙ ap (cons_name n) (split_from-joined ns k)
    ∙ unfold cons_name in refl

-- split reads back the names that join put into a text, each in its place, if no name has a colon or a 0
-- byte and none is the star.
pub split-join : (ns : List (List ℕ)) → ArePlain ns → split (some (join ns)) ≡ some ns
unfolding split join join_from
split-join [] h = refl
split-join (n ∷ ns) h = ap (λ x. split (some x)) (join-joined n ns h) ∙ split_from-joined (n ∷ ns) h
