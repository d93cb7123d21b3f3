-- ===== src/Clipboard/Marshall.antt =====
-- src/lib/deskflow/IClipboard.cpp over the clipboard in memory: the wire form of a clipboard, and
-- copies. `none` stands for a write outside the clipboard's arrays.
use zero_flow.Prelude.{
  ℕ, zero, suc, ◌%◌, ◌^◌, Bool, true, false, ◌||◌, List, [], ◌∷◌, ◌++◌, Option, none, some, ltb,
  leb, if◌then◌else◌, length, take, drop, be32, of_be32, get_or,
}
use zero_flow.Clipboard.{Clipboard, total_formats, open_at, close, empty, add, get_time, has, get}

-- The values of the loops `for (format = 0; format != TotalFormats; ++format)`.
abbrev pub formats : List ℕ
formats = 0 ∷ 1 ∷ 2 ∷ 3 ∷ 4 ∷ []

-- writeUInt32
unfoldable pub write_uint32 : ℕ → List ℕ
write_uint32 v = be32 v

-- readUInt32, at the head of the bytes left.
unfoldable pub read_uint32 : List ℕ → ℕ
read_uint32 bs = of_be32 (get_or bs 0 0) (get_or bs 1 0) (get_or bs 2 0) (get_or bs 3 0)

-- The first loop of marshall: the number of formats.
unfoldable pub count_formats : Clipboard → List ℕ → ℕ
count_formats c [] = 0
count_formats c (f ∷ fs) = let n = count_formats c fs in if has f c then suc n else n

-- The second loop of marshall.
unfoldable pub write_formats : Clipboard → List ℕ → List ℕ
write_formats c [] = []
write_formats c (f ∷ fs) =
    let rest = write_formats c fs in
    if has f c
    then write_uint32 f ++ (write_uint32 (length (get f c) % 2 ^ 32) ++ (get f c ++ rest))
    else rest

-- IClipboard::marshall: the text, and the clipboard, which has been opened and closed.
unfoldable pub marshall : Clipboard → List ℕ × Clipboard
marshall c =
    let opened = open_at 0 c in
    (write_uint32 (count_formats opened formats) ++ write_formats opened formats, close opened)

-- `format < Format::TotalFormats` on the enumeration, which is an int: a number from 2 ^ 31 on is
-- negative, and so below.
unfoldable pub is_known : ℕ → Bool
is_known format = ltb format total_formats || leb (2 ^ 31) format

-- add at the index that the enumeration gives; a negative one is outside of the arrays.
unfoldable pub add_known : ℕ → List ℕ → Clipboard → Option Clipboard
add_known format bytes c =
    if is_known format
    then if ltb format total_formats then some (add format bytes c) else none
    else some c

-- The body of unmarshall's loop, which goes on with `next`. A format whose header or payload is cut
-- off ends the loop.
unfoldable pub read_one :
    List ℕ → Clipboard → (List ℕ → Clipboard → Option Clipboard) → Option Clipboard
read_one bs c next =
    let payload = drop 8 bs in
    let size = read_uint32 (drop 4 bs) in
    if ltb (length bs) 8
    then some c
    else if ltb (length payload % 2 ^ 32) size
    then some c
    else (elim (add_known (read_uint32 bs) (take size payload) c) [
      | none ↦ none
      | some c' ↦ next (drop size payload) c'
    ])

-- The loop of unmarshall, with the number of formats that are left.
unfoldable pub read_formats : ℕ → List ℕ → Clipboard → Option Clipboard
read_formats zero bs c = some c
read_formats (suc n) bs c = read_one bs c (read_formats n)

-- IClipboard::unmarshall. The two early closes and the last one do the same.
unfoldable pub unmarshall : List ℕ → ℕ → Clipboard → Option Clipboard
unmarshall bytes time c =
    let cleared = (empty (open_at time c)).0 in
    if ltb (length bytes) 4
    then some (close cleared)
    else (elim (read_formats (read_uint32 bytes) (drop 4 bytes) cleared) [
      | none ↦ none
      | some c' ↦ some (close c')
    ])

-- The loop of copy.
unfoldable pub copy_formats : List ℕ → Clipboard → Clipboard → Clipboard
copy_formats [] src dst = dst
copy_formats (f ∷ fs) src dst =
    copy_formats fs src (if has f src then add f (get f src) dst else dst)

-- IClipboard::copy with a time, between two clipboards: the destination and the source afterwards,
-- and the result.
unfoldable pub copy_at : ℕ → Clipboard → Clipboard → Clipboard × Clipboard × Bool
copy_at time dst src =
    let src' = open_at time src in
    let (dst', emptied) = empty (open_at time dst) in
    if emptied
    then (close (copy_formats formats src' dst'), close src', true)
    else (close dst', close src', false)

-- IClipboard::copy
unfoldable pub copy : Clipboard → Clipboard → Clipboard × Clipboard × Bool
unfolding copy_at
copy dst src = copy_at (get_time src) dst src
