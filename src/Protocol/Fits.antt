-- ===== src/Protocol/Fits.antt =====
-- Arguments that fit a format, without the code: what both ends of a connection have to keep to.
use zero_flow.Prelude.{ℕ, ◌≤◌, ◌<◌, ◌^◌, ◌≡◌, true, List, [], ◌∷◌, All, length, ◌==◌, if◌then◌else◌}
use zero_flow.Protocol.Format.{
  Directive, literal, conversion, Arg, int_arg, vector_arg, string_arg, int_kind, vector_kind,
  string_kind, kind_of, is_width,
}
use zero_flow.Protocol.Read.{max_list_length}

-- The values of an integer of `len` bytes are below this.
abbrev pub limit_of : ℕ → ℕ
limit_of len = if len == 1 then 2 ^ 8 else if len == 4 then 2 ^ 32 else 2 ^ 16

-- Regular characters, integers, vectors and strings of embedded length, in the format's order.
pub data Fits : List Directive → List Arg → Type 0 where
  empty_fits : Fits [] []
  literal_fits :
      (c : ℕ) {ds : List Directive} {args : List Arg} → Fits ds args → Fits (literal c ∷ ds) args
  int_fits :
      (len c v : ℕ) {ds : List Directive} {args : List Arg}
      → kind_of c ≡ int_kind
      → is_width len ≡ true
      → v < limit_of len
      → Fits ds args
      → Fits (conversion len c ∷ ds) (int_arg v ∷ args)
  vector_fits :
      (len c : ℕ) (vs : List ℕ) {ds : List Directive} {args : List Arg}
      → kind_of c ≡ vector_kind
      → is_width len ≡ true
      → length vs ≤ max_list_length
      → All (λ v. v < limit_of len) vs
      → Fits ds args
      → Fits (conversion len c ∷ ds) (vector_arg vs ∷ args)
  string_fits :
      (len c : ℕ) (s : List ℕ) {ds : List Directive} {args : List Arg}
      → kind_of c ≡ string_kind
      → len ≡ 0
      → length s < 2 ^ 32
      → Fits ds args
      → Fits (conversion len c ∷ ds) (string_arg s ∷ args)
