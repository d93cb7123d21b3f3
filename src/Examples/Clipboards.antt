-- ===== src/Examples/Clipboards.antt =====
-- Runs of src/lib/deskflow/Clipboard.cpp and src/lib/deskflow/IClipboard.cpp.
use zero_flow.Prelude.{
  ℕ, ◌≡◌, refl, ap, true, if◌then◌else◌, List, [], ◌∷◌, length, some, none, arith,
}
use zero_flow.Clipboard.{Clipboard, open_at, close, empty, add, has, get, get_time, new_clipboard}
use zero_flow.Clipboard.Marshall.{
  marshall, unmarshall, copy, write_uint32, read_uint32, count_formats, write_formats,
}
use zero_flow.Clipboard.Access.{Shows, copy_lem}
use zero_flow.Clipboard.RoundTrip.{unmarshall-marshall}
use zero_flow.Clipboard.Hostile.{HasNegative, unmarshall_negative}

abbrev fresh : Clipboard
fresh = new_clipboard 0 0

-- A clipboard with a text and a bitmap.
abbrev filled : Clipboard
filled = close (add 3 (1 ∷ 2 ∷ []) (add 0 (b'h' ∷ b'i' ∷ []) (empty (open_at 5 fresh)).0))

filled-marshall :
    (marshall filled).0
    ≡ 0 ∷ 0 ∷ 0 ∷ 2 ∷ 0 ∷ 0 ∷ 0 ∷ 0 ∷ 0 ∷ 0 ∷ 0 ∷ 2 ∷ b'h' ∷ b'i' ∷ 0 ∷ 0 ∷ 0 ∷ 3 ∷ 0 ∷ 0 ∷ 0 ∷ 2
      ∷ 1 ∷ 2 ∷ []
unfolding new_clipboard open_at close empty add has get marshall count_formats write_formats
    write_uint32
filled-marshall = refl

unmarshall-marshall_example :
    (c : Clipboard) × (unmarshall (marshall filled).0 9 fresh ≡ some c)
    × Shows c (open_at 0 filled)
    × (get_time c ≡ (if fresh.is_open then fresh.time else 9))
unmarshall-marshall_example =
    unmarshall-marshall filled fresh 9
      (omega (arith, ap (λ (l : List ℕ). length l) filled-marshall))

copy_lem_example :
    let (dst, src, done) = copy fresh filled in
    (done ≡ true)
    × Shows dst (open_at (get_time filled) filled)
    × (get_time dst ≡ (if fresh.is_open then fresh.time else get_time filled))
    × (src.added ≡ filled.added)
    × (src.contents ≡ filled.contents)
copy_lem_example = copy_lem fresh filled

-- One format, whose number is 2 ^ 32 - 1, of one byte.
abbrev negative_text : List ℕ
negative_text = 0 ∷ 0 ∷ 0 ∷ 1 ∷ 255 ∷ 255 ∷ 255 ∷ 255 ∷ 0 ∷ 0 ∷ 0 ∷ 1 ∷ 7 ∷ []

negative_text-HasNegative : HasNegative negative_text
unfolding read_uint32
negative_text-HasNegative = record {
  some_format = omega arith;
  header = omega arith;
  negative = omega arith;
  payload = omega arith;
}

unmarshall_negative_example : unmarshall negative_text 9 fresh ≡ none
unmarshall_negative_example =
    unmarshall_negative negative_text 9 fresh (omega arith) negative_text-HasNegative
