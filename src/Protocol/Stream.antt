-- ===== src/Protocol/Stream.antt =====
-- The stream that readf reads, and ProtocolUtil::read over it. An implementation of IStream gives
-- the bytes that it has, in order, some at a time.
use zero_flow.Prelude.{
  ℕ, zero, suc, ◌-◌, ◌≤◌, ◌<◌, ◌≡◌, List, [], ◌++◌, length, ◌==◌, if◌then◌else◌, take, drop,
  take-append-drop, length-take, arith,
}

-- IStream::read. `pending` is what the stream can still give.
pub record Stream : Type 1 where
  pub State : Type 0
  pub pending : State → List ℕ
  pub get : ℕ → State → List ℕ × State
  pub get_prefix : (n : ℕ) (s : State) → (get n s).0 ++ pending (get n s).1 ≡ pending s
  pub get_short : (n : ℕ) (s : State) → length (get n s).0 ≤ n
  pub get_some : (n : ℕ) (s : State) → 0 < n → 0 < length (pending s) → 0 < length (get n s).0

-- How a call ends: with a value; by an IOException, which readf turns into false; by a
-- BadClientException, which goes on to the caller; or by a failed assertion.
pub data Outcome {ℓ} (A : Type ℓ) : Type ℓ where
  ok : A → Outcome A
  end_of_stream mismatch bad_client undefined : Outcome A

infixl 5 ◌>>=◌
abbrev pub ◌>>=◌ {ℓ κ} : {A : Type ℓ} {B : Type κ} → Outcome A → (A → Outcome B) → Outcome B
ok a >>= f = f a
end_of_stream >>= f = end_of_stream
mismatch >>= f = mismatch
bad_client >>= f = bad_client
undefined >>= f = undefined

module _ (stream : Stream) where
  open stream use {State, pending, get, get_prefix, get_short, get_some}

  -- The loop of ProtocolUtil::read. Each round gets a byte at least, so `count` rounds are enough.
  unfoldable pub read_loop : ℕ → ℕ → State → Outcome (List ℕ × State)
  read_loop zero count s = ok ([], s)
  read_loop (suc fuel) count s =
      let got = get count s in
      let more = read_loop fuel (count - length got.0) got.1 in
      if count == 0
      then ok ([], s)
      else if length got.0 == 0
      then end_of_stream
      else (do (rest, s') ← more; ok (got.0 ++ rest, s'))

  -- ProtocolUtil::read
  unfoldable pub read : ℕ → State → Outcome (List ℕ × State)
  unfolding read_loop
  read count s = read_loop count count s

-- A stream that has all of its bytes at hand.
abbrev pub in_memory : Stream
in_memory = record {
  State = List ℕ;
  pending = λ s. s;
  get = λ n s. (take n s, drop n s);
  get_prefix = take-append-drop;
  get_short = λ n s. omega (arith, length-take n s);
  get_some = λ n s h k. omega (arith, length-take n s);
}
