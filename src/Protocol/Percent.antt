-- ===== src/Protocol/Percent.antt =====
-- A percent sign of its own in a format.
use zero_flow.Prelude.{ℕ, ◌≡◌, ◌≢◌, refl, sym, ap, ◌∙◌, List, [], ◌∷◌, some, none, ne→==}
use zero_flow.Protocol.Format.{Arg, Directive, literal, conversion, scan, directives, kind_of}
use zero_flow.Protocol.Stream.{Stream, ok, mismatch}
use zero_flow.Protocol.Write.{
  get_length, conversion_length, write_conversion, write_buffer, vwritef, writef,
}
use zero_flow.Protocol.Read.{read_conversion, read_literal, vreadf, readf}
use zero_flow.Protocol.Exact.{read-Yields}

-- "%%" and a character
abbrev pub percent_format : ℕ → List ℕ
percent_format c = b'%' ∷ b'%' ∷ c ∷ []

directives-percent :
    (c : ℕ) → c ≢ b'%' → directives (percent_format c) ≡ conversion 0 b'%' ∷ literal c ∷ []
unfolding directives scan
directives-percent c h = rw (ne→== c b'%' h) refl

writef-vwritef :
    (fmt : List ℕ) (args : List Arg) (ds : List Directive) (size : ℕ)
    → directives fmt ≡ ds
    → get_length ds args 0 ≡ some size
    → writef fmt args ≡ vwritef size ds args
unfolding writef
writef-vwritef fmt args ds size d l =
    let l' : get_length (directives fmt) args 0 ≡ some size = ap (λ x. get_length x args 0) d ∙ l in
    rw (l', writef) (ap (λ x. vwritef size x args) d)

writef-percent : (c : ℕ) → c ≢ b'%' → writef (percent_format c) [] ≡ some ((b'%' ∷ c ∷ []) ∷ [])
unfolding get_length conversion_length vwritef write_buffer write_conversion kind_of
writef-percent c h =
    writef-vwritef (percent_format c) [] (conversion 0 b'%' ∷ literal c ∷ []) 2
      (directives-percent c h) refl
    ∙ refl

readf_mismatch :
    (stream : Stream) (fmt : List ℕ) (ds : List Directive) (s : stream.State)
    → directives fmt ≡ ds
    → vreadf stream ds s ≡ mismatch
    → readf stream fmt s ≡ ok none
unfolding readf
readf_mismatch stream fmt ds s d e = rw (d, readf) (rw e refl)

vreadf-percent :
    (stream : Stream) (c : ℕ) (s : stream.State)
    → read_literal stream c s ≡ mismatch
    → vreadf stream (conversion 0 b'%' ∷ literal c ∷ []) s ≡ mismatch
unfolding vreadf kind_of read_conversion
vreadf-percent stream c s e = rw e refl

read_literal-percent :
    (stream : Stream) (c : ℕ) (end : List ℕ) (s : stream.State)
    → c ≢ b'%'
    → stream.pending s ≡ b'%' ∷ c ∷ end
    → read_literal stream c s ≡ mismatch
unfolding read_literal
read_literal-percent stream c end s h e =
    let (t, same, p) = read-Yields stream 1 (b'%' ∷ []) (c ∷ end) s refl e in
    rw (same, ne→== b'%' c (λ q. h (sym q))) refl

-- readf does not read what writef writes for "%%" and a regular character: writef sends a percent
-- sign, and readf, on any stream that gives the message, compares it with the character and fails.
pub readf-percent :
    (stream : Stream) (c : ℕ) (end : List ℕ) (s : stream.State)
    → c ≢ b'%'
    → stream.pending s ≡ b'%' ∷ c ∷ end
    → (writef (percent_format c) [] ≡ some ((b'%' ∷ c ∷ []) ∷ []))
      × (readf stream (percent_format c) s ≡ ok none)
readf-percent stream c end s h e = (
  writef-percent c h,
  readf_mismatch stream (percent_format c) (conversion 0 b'%' ∷ literal c ∷ []) s
      (directives-percent c h)
      (vreadf-percent stream c s (read_literal-percent stream c end s h e)),
)
