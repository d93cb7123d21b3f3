-- ===== src/Protocol/Write.antt =====
-- The writing half of src/lib/deskflow/ProtocolUtil.cpp. `none` stands for a failed assertion and
-- for arguments that do not fit the format, which C++ leaves undefined. Pointers are not null.
use zero_flow.Prelude.{
  ℕ, ◌+◌, ◌*◌, ◌/◌, ◌%◌, ◌^◌, List, [], ◌∷◌, ◌++◌, leb, ◌==◌, if◌then◌else◌, Option, none, some,
  length, take, be32,
}
use zero_flow.Protocol.Format.{
  Directive, literal, conversion, directives, Arg, int_arg, vector_arg, string_arg, bytes_arg, Kind,
  int_kind, vector_kind, string_kind, bytes_kind, percent_kind, kind_of, is_width,
}

-- writeInt for the lengths 1, 2 and 4; a greater value is cut.
unfoldable pub write_int : ℕ → ℕ → List ℕ
write_int value len =
    if len == 1
    then value % 256 ∷ []
    else if len == 4
    then be32 value
    else value / 2 ^ 8 % 256 ∷ value % 256 ∷ []

unfoldable pub write_ints : ℕ → List ℕ → List ℕ
write_ints len [] = []
write_ints len (v ∷ vs) = write_int v len ++ write_ints len vs

-- writeVectorInt
unfoldable pub write_vector : ℕ → List ℕ → List ℕ
write_vector len vs = write_int (length vs % 2 ^ 32) 4 ++ write_ints len vs

-- writeString. A string's size is cast to uint32_t, and all of its bytes are copied.
unfoldable pub write_string : List ℕ → List ℕ
write_string s = write_int (length s % 2 ^ 32) 4 ++ (if length s % 2 ^ 32 == 0 then [] else s)

-- The `case` of getLength for one conversion: its bytes, and the arguments that it leaves.
unfoldable pub conversion_length : Kind → ℕ → List Arg → Option (ℕ × List Arg)
conversion_length int_kind len (int_arg v ∷ args) = if is_width len then some (len, args) else none
conversion_length vector_kind len (vector_arg vs ∷ args) =
    if is_width len then some ((len * length vs + 4) % 2 ^ 32, args) else none
conversion_length string_kind len (string_arg s ∷ args) =
    if len == 0 then some ((length s + 4) % 2 ^ 32, args) else none
conversion_length bytes_kind len (int_arg n ∷ args) =
    if len == 0 then some ((n + 4) % 2 ^ 32, args) else none
conversion_length percent_kind len args = if len == 0 then some (1, args) else none
conversion_length kind len args = none

-- ProtocolUtil::getLength
unfoldable pub get_length : List Directive → List Arg → ℕ → Option ℕ
get_length [] args n = some n
get_length (literal c ∷ ds) args n = get_length ds args ((n + 1) % 2 ^ 32)
get_length (conversion len c ∷ ds) args n = elim (conversion_length (kind_of c) len args) [
  | none ↦ none
  | some (k, args') ↦ get_length ds args' ((n + k) % 2 ^ 32)
]

-- The `case` of writef for one conversion: the bytes put into the buffer, and the arguments left.
unfoldable pub write_conversion : Kind → ℕ → List Arg → Option (List ℕ × List Arg)
write_conversion int_kind len (int_arg v ∷ args) =
    if is_width len then some (write_int v len, args) else none
write_conversion vector_kind len (vector_arg vs ∷ args) =
    if is_width len then some (write_vector len vs, args) else none
write_conversion string_kind len (string_arg s ∷ args) =
    if len == 0 then some (write_string s, args) else none
write_conversion bytes_kind len (int_arg n ∷ bytes_arg bs ∷ args) =
    if len == 0
    then if leb n (length bs) then some (write_int n 4 ++ take n bs, args) else none
    else none
write_conversion percent_kind len args = if len == 0 then some (b'%' ∷ [], args) else none
write_conversion kind len args = none

-- ProtocolUtil::writef into a buffer
unfoldable pub write_buffer : List Directive → List Arg → Option (List ℕ)
write_buffer [] args = some []
write_buffer (literal c ∷ ds) args = elim (write_buffer ds args) [
  | none ↦ none
  | some bs ↦ some (c ∷ bs)
]
write_buffer (conversion len c ∷ ds) args = elim (write_conversion (kind_of c) len args) [
  | none ↦ none
  | some (w, args') ↦ elim (write_buffer ds args') [ none ↦ none | some bs ↦ some (w ++ bs) ]
]

-- ProtocolUtil::vwritef: `size` bytes of the buffer go to the stream, in one write; reading past the
-- buffer's end is undefined.
unfoldable pub vwritef : ℕ → List Directive → List Arg → Option (List (List ℕ))
vwritef size ds args = if size == 0 then some [] else (elim (write_buffer ds args) [
  | none ↦ none
  | some bs ↦ if leb size (length bs) then some (take size bs ∷ []) else none
])

-- ProtocolUtil::writef: the writes that the stream gets.
unfoldable pub writef : List ℕ → List Arg → Option (List (List ℕ))
writef fmt args = elim (get_length (directives fmt) args 0) [
  | none ↦ none
  | some size ↦ vwritef size (directives fmt) args
]
