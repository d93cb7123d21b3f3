-- ===== src/Clipboard/Access.antt =====
-- copy between two clipboards, as one who reads them sees it.
use zero_flow.Prelude.{
  ℕ, ◌<◌, ◌≡◌, ◌⊎◌, refl, ap, sym, ◌∙◌, Bool, true, false, ◌&&◌, ◌||◌, List, [], ◌∷◌, ◌==◌,
  if◌then◌else◌, arith, Bool-cases, inl, inr, lt→ltb, ==→eq,
}
use zero_flow.Clipboard.{Clipboard, total_formats, open_at, close, empty, add, get_time, has, get}
use zero_flow.Clipboard.Marshall.{formats, copy_formats, copy_at, copy}

abbrev pub contains : ℕ → List ℕ → Bool
contains f [] = false
contains f (g ∷ gs) = f == g || contains f gs

pub formats_all : (f : ℕ) → f < total_formats → contains f formats ≡ true
formats_all f h = ground arith

-- A clipboard that can be added to.
pub record IsWritable (c : Clipboard) : Type 0 where
  pub opened : c.is_open ≡ true
  pub owned : c.is_owner ≡ true

pub open-is_open : (t : ℕ) (c : Clipboard) → (open_at t c).is_open ≡ true
unfolding open_at
open-is_open t c = ground arith

pub empty-IsWritable :
    (t : ℕ) (c : Clipboard) → IsWritable (empty (open_at t c)).0 × ((empty (open_at t c)).1 ≡ true)
unfolding empty
empty-IsWritable t c = rw (open-is_open t c) (record { opened = refl; owned = refl }, refl)

-- what an opened and emptied clipboard holds
pub empty_lem :
    (t : ℕ) (c : Clipboard) (f : ℕ)
    → f < total_formats
    → ((empty (open_at t c)).0.added f ≡ false) × ((empty (open_at t c)).0.contents f ≡ [])
unfolding empty
empty_lem t c f h = rw (open-is_open t c, lt→ltb f total_formats h) (refl, refl)

-- One round of copy's loop.
abbrev copy_one : ℕ → Clipboard → Clipboard → Clipboard
copy_one f src dst = if has f src then add f (get f src) dst else dst

copy_one-IsWritable :
    (f : ℕ) (src dst : Clipboard) → IsWritable dst → IsWritable (copy_one f src dst)
unfolding add
copy_one-IsWritable f src dst w = ground arith

copy_one_lem :
    (f g : ℕ) (src dst : Clipboard)
    → IsWritable dst
    → ((copy_one f src dst).added g ≡ (if g == f && has g src then true else dst.added g))
      × ((copy_one f src dst).contents g
          ≡ (if g == f && has g src then get g src else dst.contents g))
unfolding add
copy_one_lem f g src dst w = elim (Bool-cases (has f src)) [
  | inl e ↦ rw (e, w.opened, w.owned) (same_format (Bool-cases (g == f)) e)
  | inr e ↦ elim (Bool-cases (g == f)) [
    | inl k ↦ rw (e, k, ap (λ h. has h src) (==→eq g f k) ∙ e) (refl, refl)
    | inr k ↦ rw (e, k) (refl, refl)
  ]
]
  where
    same_format :
        (g == f ≡ true) ⊎ (g == f ≡ false)
        → has f src ≡ true
        → ((if g == f then true else dst.added g)
            ≡ (if g == f && has g src then true else dst.added g))
          × ((if g == f then get f src else dst.contents g)
              ≡ (if g == f && has g src then get g src else dst.contents g))
    same_format (inl k) e =
        rw (k, ap (λ h. has h src) (==→eq g f k) ∙ e)
          (refl, ap (λ h. get h src) (sym (==→eq g f k)))
    same_format (inr k) e = rw k (refl, refl)

if_or {ℓ} :
    {A : Type ℓ} (a b c : Bool) (x y z : A)
    → z ≡ (if a && c then x else y)
    → (if b && c then x else z) ≡ (if (a || b) && c then x else y)
if_or true true true x y z e = refl
if_or true true false x y z e = e
if_or true false true x y z e = e
if_or true false false x y z e = e
if_or false true true x y z e = refl
if_or false true false x y z e = e
if_or false false true x y z e = e
if_or false false false x y z e = e

pub copy_formats-IsWritable :
    (fs : List ℕ) (src dst : Clipboard) → IsWritable dst → IsWritable (copy_formats fs src dst)
unfolding copy_formats
copy_formats-IsWritable [] src dst w = w
copy_formats-IsWritable (f ∷ fs) src dst w =
    copy_formats-IsWritable fs src (copy_one f src dst) (copy_one-IsWritable f src dst w)

-- The loop puts in what the source has, and leaves the rest.
pub copy_formats_lem :
    (fs : List ℕ) (g : ℕ) (src dst : Clipboard)
    → IsWritable dst
    → ((copy_formats fs src dst).added g
        ≡ (if contains g fs && has g src then true else dst.added g))
      × ((copy_formats fs src dst).contents g
          ≡ (if contains g fs && has g src then get g src else dst.contents g))
unfolding copy_formats
copy_formats_lem [] g src dst w = (refl, refl)
copy_formats_lem (f ∷ fs) g src dst w =
    let one = copy_one_lem f g src dst w in
    let ih = copy_formats_lem fs g src (copy_one f src dst) (copy_one-IsWritable f src dst w) in
    (
      ih.0
          ∙ if_or (g == f) (contains g fs) (has g src) true (dst.added g)
              ((copy_one f src dst).added g) one.0,
      ih.1
          ∙ if_or (g == f) (contains g fs) (has g src) (get g src) (dst.contents g)
              ((copy_one f src dst).contents g) one.1,
    )

-- A reader who opens the clipboard finds the data that `src` shows, and nothing else.
pub record Shows (c src : Clipboard) : Type 0 where
  pub closed : c.is_open ≡ false
  pub formats_at : (f : ℕ) → f < total_formats → c.added f ≡ has f src
  pub data_at : (f : ℕ) → f < total_formats → has f src ≡ true → c.contents f ≡ get f src
  pub no_data_at : (f : ℕ) → f < total_formats → has f src ≡ false → c.contents f ≡ []

-- All formats copied into an emptied clipboard, which is then closed.
pub Shows-copy_formats :
    (t : ℕ) (src dst : Clipboard)
    → Shows (close (copy_formats formats src (empty (open_at t dst)).0)) src
unfolding close
Shows-copy_formats t src dst =
    let dst' = (empty (open_at t dst)).0 in
    let all = λ (f : ℕ). copy_formats_lem formats f src dst' (empty-IsWritable t dst).0 in
    record {
      closed = refl;
      formats_at = λ f h.
          (all f).0 ∙ only (has f src) (dst'.added f) (formats_all f h) (empty_lem t dst f h).0;
      data_at = λ f h e. (all f).1 ∙ rw (formats_all f h, e);
      no_data_at = λ f h e. (all f).1 ∙ rw (formats_all f h, e) (empty_lem t dst f h).1;
    }
  where
    only : {k : Bool} (c a : Bool) → k ≡ true → a ≡ false → (if k && c then true else a) ≡ c
    only true a e h = rw e
    only false a e h = rw e h

copy_one-time_owned :
    (f : ℕ) (src dst : Clipboard) → (copy_one f src dst).time_owned ≡ dst.time_owned
unfolding add
copy_one-time_owned f src dst = ground arith

copy_formats-time_owned :
    (fs : List ℕ) (src dst : Clipboard) → (copy_formats fs src dst).time_owned ≡ dst.time_owned
unfolding copy_formats
copy_formats-time_owned [] src dst = refl
copy_formats-time_owned (f ∷ fs) src dst =
    copy_formats-time_owned fs src (copy_one f src dst) ∙ copy_one-time_owned f src dst

opened_time :
    (t : ℕ) (c : Clipboard) → (empty (open_at t c)).0.time_owned ≡ (if c.is_open then c.time else t)
unfolding empty open_at
opened_time t c = ground arith

-- The clipboard's time is that of the opening in which it was emptied.
pub copied_time :
    (t : ℕ) (fs : List ℕ) (src dst : Clipboard)
    → get_time (close (copy_formats fs src (empty (open_at t dst)).0))
      ≡ (if dst.is_open then dst.time else t)
unfolding get_time close
copied_time t fs src dst =
    copy_formats-time_owned fs src (empty (open_at t dst)).0 ∙ opened_time t dst

kept_added : (t : ℕ) (c : Clipboard) → (close (open_at t c)).added ≡ c.added
unfolding close open_at
kept_added t c = ground arith

kept_contents : (t : ℕ) (c : Clipboard) → (close (open_at t c)).contents ≡ c.contents
unfolding close open_at
kept_contents t c = ground arith

-- A copy succeeds; the destination then shows what the source held, under the time of the source,
-- or of its own opening if it was open, and the source's data is as before.
pub copy_lem :
    (dst src : Clipboard)
    → let (dst', src', done) = copy dst src in
      (done ≡ true)
      × Shows dst' (open_at (get_time src) src)
      × (get_time dst' ≡ (if dst.is_open then dst.time else get_time src))
      × (src'.added ≡ src.added)
      × (src'.contents ≡ src.contents)
unfolding copy copy_at
copy_lem dst src =
    let t = get_time src in
    rw (empty-IsWritable t dst).1 (
      refl,
      Shows-copy_formats t (open_at t src) dst,
      copied_time t formats (open_at t src) dst,
      kept_added t src,
      kept_contents t src,
    )
