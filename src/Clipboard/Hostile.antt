-- ===== src/Clipboard/Hostile.antt =====
-- unmarshall on text that marshall did not write.
use zero_flow.Prelude.{
  ℕ, zero, suc, ◌+◌, ◌≤◌, ◌<◌, ◌^◌, ◌%◌, ◌≡◌, ap, List, none, Option, length, length-drop,
  drop-drop, take, drop, arith, le→ltb,
}
use zero_flow.Clipboard.{Clipboard, open_at, empty}
use zero_flow.Clipboard.Marshall.{
  read_uint32, is_known, add_known, read_one, read_formats, unmarshall,
}

-- The text has a format whose number is 2 ^ 31 or more, in front, and all of its payload.
pub record HasNegative (bytes : List ℕ) : Type 0 where
  pub some_format : 0 < read_uint32 bytes
  pub header : 12 ≤ length bytes
  pub negative : 2 ^ 31 ≤ read_uint32 (drop 4 bytes)
  pub payload : read_uint32 (drop 8 bytes) + 12 ≤ length bytes

add_known_negative :
    (f : ℕ) (bytes : List ℕ) (c : Clipboard) → 2 ^ 31 ≤ f → add_known f bytes c ≡ none
unfolding add_known is_known
add_known_negative f bytes c h = ground arith

read_one_negative :
    (bs : List ℕ) (c : Clipboard) (next : List ℕ → Clipboard → Option Clipboard)
    → 8 ≤ length bs
    → length bs < 2 ^ 32
    → read_uint32 (drop 4 bs) + 8 ≤ length bs
    → 2 ^ 31 ≤ read_uint32 bs
    → read_one bs c next ≡ none
unfolding read_one
read_one_negative bs c next h small room neg = rw (
  le→ltb (length bs) 8 h,
  le→ltb (length (drop 8 bs) % 2 ^ 32) (read_uint32 (drop 4 bs)) (omega (arith, length-drop 8 bs)),
  add_known_negative (read_uint32 bs) (take (read_uint32 (drop 4 bs)) (drop 8 bs)) c neg,
)

-- A text shorter than 2 ^ 32 bytes whose first format has a number of 2 ^ 31 or more, and all of
-- its payload, makes unmarshall write outside of the clipboard's arrays, whatever the clipboard
-- holds: the test for a known format lets a negative number through.
pub unmarshall_negative :
    (bytes : List ℕ) (time : ℕ) (c : Clipboard)
    → length bytes < 2 ^ 32
    → HasNegative bytes
    → unmarshall bytes time c ≡ none
unfolding unmarshall
unmarshall_negative bytes time c small h =
    rw (le→ltb (length bytes) 4 (omega (arith, h.header)), fails (read_uint32 bytes) h.some_format)
  where
    room :
        read_uint32 (drop 8 bytes) + 12 ≤ length bytes
        → read_uint32 (drop 4 (drop 4 bytes)) + 8 ≤ length (drop 4 bytes)
    room p = omega (arith, p, length-drop 4 bytes, ap read_uint32 (drop-drop 4 4 bytes))

    fails : (n : ℕ) → 0 < n → read_formats n (drop 4 bytes) (empty (open_at time c)).0 ≡ none
    fails zero p = absurd (omega arith)
    fails (suc n) p =
        unfold read_formats in
        read_one_negative (drop 4 bytes) (empty (open_at time c)).0 (read_formats n)
          (omega (arith, h.header, length-drop 4 bytes)) (omega (arith, length-drop 4 bytes))
          (room h.payload) h.negative
