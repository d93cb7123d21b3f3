-- ===== src/Protocol/Length.antt =====
-- getLength against what writef puts into its buffer.
use zero_flow.Prelude.{
  ℕ, ◌+◌, ◌*◌, ◌%◌, ◌^◌, ◌≤◌, ◌<◌, ◌≡◌, refl, ap, ◌∙◌, true, List, [], ◌∷◌, ◌++◌, some, length,
  length-append, arith, take_all, ne→==, le→leb,
}
use zero_flow.Protocol.Format.{
  Directive, conversion, directives, Arg, int_arg, vector_arg, string_arg, int_kind, vector_kind,
  string_kind, Kind, kind_of, is_width,
}
use zero_flow.Protocol.Write.{
  write_int, write_ints, write_vector, write_string, conversion_length, get_length,
  write_conversion, write_buffer, vwritef, writef,
}
use zero_flow.Protocol.Fits.{Fits, empty_fits, literal_fits, int_fits, vector_fits, string_fits}

pub length-write_int : (v len : ℕ) → is_width len ≡ true → length (write_int v len) ≡ len
unfolding write_int is_width
length-write_int v len h = ground arith

length-write_ints :
    (len : ℕ) (vs : List ℕ) → is_width len ≡ true → length (write_ints len vs) ≡ len * length vs
unfolding write_ints
length-write_ints len [] h = grind arith
length-write_ints len (v ∷ vs) h = grind (
  arith,
  length-append (write_int v len) (write_ints len vs),
  length-write_int v len h,
  length-write_ints len vs h,
)

length-write_vector :
    (len : ℕ) (vs : List ℕ)
    → is_width len ≡ true
    → length (write_vector len vs) ≡ len * length vs + 4
unfolding write_vector
length-write_vector len vs h = omega (
  arith,
  length-append (write_int (length vs % 2 ^ 32) 4) (write_ints len vs),
  length-write_int (length vs % 2 ^ 32) 4 (unfold is_width in refl),
  length-write_ints len vs h,
)

pub length-write_string : (s : List ℕ) → length s < 2 ^ 32 → length (write_string s) ≡ length s + 4
unfolding write_string write_int
length-write_string s h = ground arith

-- The case of writef and the case of getLength for one conversion.
pub record Printed (kind : Kind) (len : ℕ) (arg : Arg) (args : List Arg) (w : List ℕ) : Type 0 where
  pub written : write_conversion kind len (arg ∷ args) ≡ some (w, args)
  pub announced : conversion_length kind len (arg ∷ args) ≡ some (length w % 2 ^ 32, args)

small_width : (len : ℕ) → is_width len ≡ true → len ≤ 4
unfolding is_width
small_width len h = ground arith

int_Printed :
    (len v : ℕ) (args : List Arg)
    → is_width len ≡ true
    → Printed int_kind len (int_arg v) args (write_int v len)
unfolding write_conversion conversion_length
int_Printed len v args h = record {
  written = rw h;
  announced =
      rw (h, length-write_int v len h)
        (ap (λ (k : ℕ). some (k, args)) (omega (arith, small_width len h)));
}

vector_Printed :
    (len : ℕ) (vs : List ℕ) (args : List Arg)
    → is_width len ≡ true
    → Printed vector_kind len (vector_arg vs) args (write_vector len vs)
unfolding write_conversion conversion_length
vector_Printed len vs args h = record {
  written = rw h;
  announced = rw (h, length-write_vector len vs h);
}

string_Printed :
    (s : List ℕ) (args : List Arg)
    → length s < 2 ^ 32
    → Printed string_kind 0 (string_arg s) args (write_string s)
unfolding write_conversion conversion_length
string_Printed s args h = record { written = refl; announced = rw (length-write_string s h) }

-- The whole message, and its length modulo 2 ^ 32 on top of what was counted before.
pub record Prints (ds : List Directive) (args : List Arg) (w : List ℕ) : Type 0 where
  pub written : write_buffer ds args ≡ some w
  pub announced : (n : ℕ) → n < 2 ^ 32 → get_length ds args n ≡ some ((n + length w) % 2 ^ 32)

conversion_Prints :
    (len c : ℕ) (arg : Arg) (args : List Arg) (ds : List Directive) (kind : Kind) (w rest : List ℕ)
    → kind_of c ≡ kind
    → Printed kind len arg args w
    → Prints ds args rest
    → Prints (conversion len c ∷ ds) (arg ∷ args) (w ++ rest)
unfolding write_buffer get_length
conversion_Prints len c arg args ds kind w rest k p r = record {
  written = rw (k, p.written, write_buffer) (rw r.written);
  announced = λ n h.
      rw (k, p.announced, get_length)
        (r.announced ((n + length w % 2 ^ 32) % 2 ^ 32) (omega arith)
          ∙ ap (λ (m : ℕ). some m) (omega (arith, length-append w rest)));
}

-- The bytes of a message.
unfoldable pub message : {ds : List Directive} {args : List Arg} → Fits ds args → List ℕ
message empty_fits = []
message (literal_fits c f) = c ∷ message f
message (int_fits len c v k w h f) = write_int v len ++ message f
message (vector_fits len c vs k w h l f) = write_vector len vs ++ message f
message (string_fits len c s k z h f) = write_string s ++ message f

pub Fits-Prints :
    {ds : List Directive} {args : List Arg} (f : Fits ds args) → Prints ds args (message f)
unfolding message write_buffer get_length
Fits-Prints empty_fits = record {
  written = refl;
  announced = λ n h. ap (λ (m : ℕ). some m) (omega arith);
}
Fits-Prints (literal_fits c f) =
    let r = Fits-Prints f in
    record {
      written = rw r.written;
      announced = λ n h.
          r.announced ((n + 1) % 2 ^ 32) (omega arith) ∙ ap (λ (m : ℕ). some m) (omega arith);
    }
Fits-Prints (int_fits len c v {ds} {args} k w h f) =
    conversion_Prints len c (int_arg v) args ds int_kind (write_int v len) (message f) k
      (int_Printed len v args w) (Fits-Prints f)
Fits-Prints (vector_fits len c vs {ds} {args} k w h l f) =
    conversion_Prints len c (vector_arg vs) args ds vector_kind (write_vector len vs) (message f) k
      (vector_Printed len vs args w) (Fits-Prints f)
Fits-Prints (string_fits len c s {ds} {args} k z h f) =
    conversion_Prints len c (string_arg s) args ds string_kind (write_string s) (message f) k
      (rw z (string_Printed s args h)) (Fits-Prints f)

vwritef_lem :
    (ds : List Directive) (args : List Arg) (w : List ℕ)
    → write_buffer ds args ≡ some w
    → 0 < length w
    → vwritef (length w) ds args ≡ some (w ∷ [])
unfolding vwritef
vwritef_lem ds args w e h =
    rw (ne→== (length w) 0 (omega arith), e, vwritef)
      (rw (le→leb (length w) (length w) (omega arith))
        (ap (λ (x : List ℕ). some (x ∷ [])) (take_all (length w) w (omega arith))))

-- writef hands the stream the whole of its buffer, in one write: getLength has announced neither
-- more nor less, if the message is not empty and shorter than 2 ^ 32 bytes.
pub writef-message :
    (fmt : List ℕ) (args : List Arg) (f : Fits (directives fmt) args)
    → 0 < length (message f)
    → length (message f) < 2 ^ 32
    → (write_buffer (directives fmt) args ≡ some (message f))
      × (get_length (directives fmt) args 0 ≡ some (length (message f)))
      × (writef fmt args ≡ some (message f ∷ []))
unfolding writef
writef-message fmt args f some_byte small =
    let p = Fits-Prints f in
    let w = message f in
    let announced =
      p.announced 0 (omega arith) ∙ ap (λ (m : ℕ). some m) {y = length w} (omega arith) in
    (
      p.written,
      announced,
      rw (announced, writef) (vwritef_lem (directives fmt) args w p.written some_byte),
    )
