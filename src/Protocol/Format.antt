-- ===== src/Protocol/Format.antt =====
-- The formats of src/lib/deskflow/ProtocolUtil.cpp: the scan that getLength, writef and vreadf make
-- alike over a C string, with eatLength, and the arguments that a va_list holds.
use zero_flow.Prelude.{
  ℕ, ◌+◌, ◌-◌, ◌*◌, ◌%◌, ◌^◌, Bool, true, ◌&&◌, List, [], ◌∷◌, leb, ◌==◌, if◌then◌else◌, Option,
  none, some,
}

-- A regular character, or a conversion with the number before its letter (0 if there is none).
pub data Directive : Type 0 where
  literal : ℕ → Directive
  conversion : ℕ → ℕ → Directive

is_digit : ℕ → Bool
is_digit c = leb b'0' c && leb c b'9'

-- The loop over the format. Behind `%` the state is the number that eatLength has read so far, a
-- uint32_t. A format that ends inside a conversion has the terminating 0 for its letter.
unfoldable pub scan : Option ℕ → List ℕ → List Directive
unfolding is_digit
scan none [] = []
scan none (c ∷ fmt) =
    let inside = scan (some 0) fmt in
    let outside = literal c ∷ scan none fmt in if c == b'%' then inside else outside
scan (some n) [] = conversion n 0 ∷ []
scan (some n) (c ∷ fmt) =
    let more = scan (some ((10 * n + (c - b'0')) % 2 ^ 32)) fmt in
    let done = conversion n c ∷ scan none fmt in if is_digit c then more else done

unfoldable pub directives : List ℕ → List Directive
unfolding scan
directives fmt = scan none fmt

-- What a va_list holds, and what a scan stores: an integer, a vector of integers, a string, and the
-- pointer to bytes that follows the length of a %S conversion.
pub data Arg : Type 0 where
  int_arg : ℕ → Arg
  vector_arg : List ℕ → Arg
  string_arg : List ℕ → Arg
  bytes_arg : List ℕ → Arg

pub data Kind : Type 0 where
  int_kind vector_kind string_kind bytes_kind percent_kind bad_kind : Kind

-- The `switch` on a conversion's letter.
unfoldable pub kind_of : ℕ → Kind
kind_of c =
    if c == b'i'
    then int_kind
    else if c == b'I'
    then vector_kind
    else if c == b's'
    then string_kind
    else if c == b'S'
    then bytes_kind
    else if c == b'%'
    then percent_kind
    else bad_kind

-- A length that an integer conversion can have.
unfoldable pub is_width : ℕ → Bool
is_width len = if len == 1 then true else if len == 2 then true else len == 4
