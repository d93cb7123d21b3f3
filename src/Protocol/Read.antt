-- ===== src/Protocol/Read.antt =====
-- The scanning half of src/lib/deskflow/ProtocolUtil.cpp. What vreadf stores behind its pointer
-- arguments comes back as a list, in order. Memory does not run out.
use zero_flow.Prelude.{
  ℕ, zero, suc, ◌+◌, ◌*◌, ◌^◌, List, [], ◌∷◌, ◌++◌, ltb, ◌==◌, if◌then◌else◌, get_or, of_be32,
  Option, some, none,
}
use zero_flow.Protocol.Format.{
  Directive, literal, conversion, directives, Arg, int_arg, vector_arg, string_arg, Kind, int_kind,
  vector_kind, string_kind, bytes_kind, percent_kind, bad_kind, kind_of, is_width,
}
use zero_flow.Protocol.Stream.{
  Stream, Outcome, ok, end_of_stream, mismatch, bad_client, undefined, ◌>>=◌, read,
}

abbrev pub max_list_length : ℕ
max_list_length = 1024 * 1024

abbrev pub max_string_length : ℕ
max_string_length = 1024 * 1024

-- The value of the bytes of an integer, the most significant first.
unfoldable pub int_value : ℕ → List ℕ → ℕ
int_value len bs =
    if len == 1
    then get_or bs 0 0
    else if len == 4
    then of_be32 (get_or bs 0 0) (get_or bs 1 0) (get_or bs 2 0) (get_or bs 3 0)
    else get_or bs 0 0 * 2 ^ 8 + get_or bs 1 0

module _ (stream : Stream) where
  open stream use {State}

  -- read1ByteInt, read2BytesInt and read4BytesInt, by the number of bytes.
  unfoldable pub read_int : ℕ → State → Outcome (ℕ × State)
  read_int len s = do (bs, s') ← read stream len s; ok (int_value len bs, s')

  -- readVectorSize
  unfoldable pub read_vector_size : State → Outcome (ℕ × State)
  read_vector_size s = do
    (size, s') ← read_int 4 s
    if ltb max_list_length size then bad_client else ok (size, s')

  -- The loop of readVector1ByteInt, readVector2BytesInt and readVector4BytesInt.
  unfoldable pub read_ints : ℕ → ℕ → State → Outcome (List ℕ × State)
  read_ints len zero s = ok ([], s)
  read_ints len (suc n) s = do
    (v, s') ← read_int len s
    (vs, s'') ← read_ints len n s'
    ok (v ∷ vs, s'')

  unfoldable pub read_vector : ℕ → State → Outcome (List ℕ × State)
  read_vector len s = do (size, s') ← read_vector_size s; read_ints len size s'

  -- readBytes: with length 0 the stream has the length.
  unfoldable pub read_bytes : ℕ → State → Outcome (List ℕ × State)
  read_bytes len s =
      if len == 0 then (do (n, s') ← read_int 4 s; read stream n s') else read stream len s

  -- The `case` of vreadf for one conversion.
  unfoldable pub read_conversion : Kind → ℕ → State → Outcome (List Arg × State)
  read_conversion int_kind len s =
      if is_width len then (do (v, s') ← read_int len s; ok (int_arg v ∷ [], s')) else undefined
  read_conversion vector_kind len s =
      if is_width len
      then (do (vs, s') ← read_vector len s; ok (vector_arg vs ∷ [], s'))
      else undefined
  read_conversion string_kind len s =
      if ltb max_string_length len
      then bad_client
      else (do (bs, s') ← read_bytes len s; ok (string_arg bs ∷ [], s'))
  read_conversion percent_kind len s = if len == 0 then ok ([], s) else undefined
  read_conversion bytes_kind len s = undefined
  read_conversion bad_kind len s = undefined

  -- A regular character has to stand in the stream.
  unfoldable pub read_literal : ℕ → State → Outcome State
  read_literal c s = do (bs, s') ← read stream 1 s; if get_or bs 0 0 == c then ok s' else mismatch

  -- ProtocolUtil::vreadf
  unfoldable pub vreadf : List Directive → State → Outcome (List Arg × State)
  vreadf [] s = ok ([], s)
  vreadf (literal c ∷ ds) s = do s' ← read_literal c s; vreadf ds s'
  vreadf (conversion len c ∷ ds) s = do
    (values, s') ← read_conversion (kind_of c) len s
    (more, s'') ← vreadf ds s'
    ok (values ++ more, s'')

  -- ProtocolUtil::readf: `some` values for true, `none` for false; the other ends go to the caller.
  unfoldable pub readf : List ℕ → State → Outcome (Option (List Arg × State))
  readf fmt s = elim (vreadf (directives fmt) s) [
    | ok r ↦ ok (some r)
    | end_of_stream ↦ ok none
    | mismatch ↦ ok none
    | bad_client ↦ bad_client
    | undefined ↦ undefined
  ]
