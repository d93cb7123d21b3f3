-- ===== src/Clipboard/RoundTrip.antt =====
-- marshall, and unmarshall into another clipboard.
use zero_flow.Prelude.{
  ℕ, ◌+◌, ◌≤◌, ◌<◌, ◌^◌, ◌%◌, ◌≡◌, refl, ap, ◌∙◌, List, [], ◌∷◌, ◌++◌, some, Option, length,
  length-append, drop, take-append, drop-append, take_all, drop_all, if◌then◌else◌, arith,
  Bool-cases, inl, inr, All, of_be32-be32, le→ltb, lt→ltb,
}
use zero_flow.Clipboard.{Clipboard, total_formats, open_at, close, empty, add, get_time, has, get}
use zero_flow.Clipboard.Marshall.{
  formats, write_uint32, read_uint32, count_formats, write_formats, marshall, is_known, add_known,
  read_one, read_formats, unmarshall, copy_formats,
}
use zero_flow.Clipboard.Access.{Shows, Shows-copy_formats, copied_time}

abbrev AreFormats : List ℕ → Type 0
AreFormats fs = All (λ f. f < total_formats) fs

read_uint32-write_uint32 :
    (v : ℕ) (rest : List ℕ) → v < 2 ^ 32 → read_uint32 (write_uint32 v ++ rest) ≡ v
unfolding read_uint32 write_uint32
read_uint32-write_uint32 v rest h = of_be32-be32 v h

-- One format as marshall writes it.
abbrev entry : ℕ → List ℕ → List ℕ → List ℕ
entry f bytes rest = write_uint32 f ++ (write_uint32 (length bytes % 2 ^ 32) ++ (bytes ++ rest))

add_known_lem :
    (f : ℕ) (bytes : List ℕ) (c : Clipboard)
    → f < total_formats
    → add_known f bytes c ≡ some (add f bytes c)
unfolding add_known is_known
add_known_lem f bytes c h = rw (lt→ltb f total_formats h)

-- One round of unmarshall's loop over such a format.
read_entry :
    (f : ℕ) (bytes rest : List ℕ) (c : Clipboard) (next : List ℕ → Clipboard → Option Clipboard)
    → f < total_formats
    → length (entry f bytes rest) < 2 ^ 32
    → read_one (entry f bytes rest) c next ≡ next rest (add f bytes c)
unfolding read_one write_uint32
read_entry f bytes rest c next h small =
    let n : length bytes % 2 ^ 32 ≡ length bytes = omega (arith, length-append bytes rest) in
    let format : read_uint32 (entry f bytes rest) ≡ f =
      read_uint32-write_uint32 f (write_uint32 (length bytes % 2 ^ 32) ++ (bytes ++ rest))
        (omega arith) in
    let size : read_uint32 (drop 4 (entry f bytes rest)) ≡ length bytes =
      read_uint32-write_uint32 (length bytes % 2 ^ 32) (bytes ++ rest) (omega arith) ∙ n in
    let known = add_known_lem f bytes c h in
    let taken =
      take-append (length bytes) bytes rest (omega arith)
      ∙ take_all (length bytes) bytes (omega arith) in
    let left =
      drop-append (length bytes) bytes rest (omega arith)
      ∙ ap (λ x. x ++ rest) (drop_all (length bytes) bytes (omega arith)) in
    let room : length bytes ≤ length (bytes ++ rest) % 2 ^ 32 =
      omega (arith, length-append bytes rest) in
    rw
      (
        le→ltb (length (entry f bytes rest)) 8 (omega arith),
        size,
        format,
        taken,
        known,
        le→ltb (length (bytes ++ rest) % 2 ^ 32) (length bytes) room,
      )
      (ap (λ l. next l (add f bytes c)) (ap (λ k. drop k (bytes ++ rest)) size ∙ left))

length-entry : (f : ℕ) (bytes rest : List ℕ) → length rest ≤ length (entry f bytes rest)
unfolding write_uint32
length-entry f bytes rest = omega (arith, length-append bytes rest)

-- Reading what marshall's second loop writes puts in what copy's loop puts in.
read_formats-write_formats :
    (src : Clipboard) (fs : List ℕ) (c : Clipboard)
    → AreFormats fs
    → length (write_formats src fs) < 2 ^ 32
    → read_formats (count_formats src fs) (write_formats src fs) c ≡ some (copy_formats fs src c)
unfolding count_formats write_formats copy_formats read_formats
read_formats-write_formats src [] c h small = refl
read_formats-write_formats src (f ∷ fs) c h small = elim (Bool-cases (has f src)) [
  | inl e ↦
      let bytes = get f src in
      let tail = write_formats src fs in
      let same : write_formats src (f ∷ fs) ≡ entry f bytes tail = rw e in
      let fits = ap (λ (l : List ℕ). length l) same in
      rw e (
        read_entry f bytes tail c (read_formats (count_formats src fs)) h.0 (omega (arith, fits))
        ∙ read_formats-write_formats src fs (add f bytes c) h.1
            (omega (arith, fits, length-entry f bytes tail)))
  | inr e ↦
      let same : write_formats src (f ∷ fs) ≡ write_formats src fs = rw e in
      rw e (
        read_formats-write_formats src fs c h.1 (omega (arith, ap (λ (l : List ℕ). length l) same)))
]

count-formats-le : (src : Clipboard) (fs : List ℕ) → count_formats src fs ≤ length fs
unfolding count_formats
count-formats-le src [] = omega arith
count-formats-le src (f ∷ fs) = ground (arith, count-formats-le src fs)

-- unmarshall of a marshalled clipboard succeeds in any clipboard, and leaves it closed with exactly
-- the data of the source, under the time given, or that of its opening if it was open. The text is
-- shorter than 2 ^ 32 bytes.
pub unmarshall-marshall :
    (src dst : Clipboard) (time : ℕ)
    → length (marshall src).0 < 2 ^ 32
    → (c : Clipboard) × (unmarshall (marshall src).0 time dst ≡ some c)
      × Shows c (open_at 0 src)
      × (get_time c ≡ (if dst.is_open then dst.time else time))
unfolding marshall unmarshall
unmarshall-marshall src dst time small =
    let opened = open_at 0 src in
    let cleared = (empty (open_at time dst)).0 in
    let count = count_formats opened formats in
    let text = write_formats opened formats in
    let size =
      read_uint32-write_uint32 count text (omega (arith, count-formats-le opened formats)) in
    let body =
      read_formats-write_formats opened formats cleared (omega arith)
        (omega (arith, length-text count text)) in
    (
      close (copy_formats formats opened cleared),
      rw (
        le→ltb (length (write_uint32 count ++ text)) 4 (omega (arith, length-text count text)),
        size,
        drop_uint32 count text,
        body,
      ),
      Shows-copy_formats time opened dst,
      copied_time time formats opened dst,
    )
  where
    length-text : (v : ℕ) (rest : List ℕ) → length (write_uint32 v ++ rest) ≡ length rest + 4
    length-text v rest = unfold write_uint32 in omega arith

    drop_uint32 : (v : ℕ) (rest : List ℕ) → drop 4 (write_uint32 v ++ rest) ≡ rest
    drop_uint32 v rest = unfold write_uint32 in refl
