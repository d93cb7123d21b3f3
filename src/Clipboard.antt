-- ===== src/Clipboard.antt =====
-- src/lib/deskflow/Clipboard.cpp: a clipboard kept in memory. A format is its number, and the two
-- arrays are functions of it. The mutex makes each method one step; log messages are left out.
pub mod Marshall
pub mod Access
pub mod RoundTrip
pub mod Hostile
use zero_flow.Prelude.{ℕ, Bool, true, false, List, [], ltb, ◌==◌, if◌then◌else◌}

pub record Clipboard : Type 0 where
  pub is_open : Bool
  pub time : ℕ
  pub is_owner : Bool
  pub time_owned : ℕ
  pub added : ℕ → Bool
  pub contents : ℕ → List ℕ

abbrev pub total_formats : ℕ
total_formats = 5

-- Clipboard::open; it always succeeds.
unfoldable pub open_at : ℕ → Clipboard → Clipboard
open_at time c = if c.is_open then c else record c { is_open = true; time = time }

-- Clipboard::close
unfoldable pub close : Clipboard → Clipboard
close c = record c { is_open = false }

-- Clipboard::empty, with its result.
unfoldable pub empty : Clipboard → Clipboard × Bool
empty c =
    if c.is_open
    then (
      record c {
        added = λ f. if ltb f total_formats then false else c.added f;
        contents = λ f. if ltb f total_formats then [] else c.contents f;
        time_owned = c.time;
        is_owner = true;
      },
      true,
    )
    else (c, false)

-- Clipboard::add
unfoldable pub add : ℕ → List ℕ → Clipboard → Clipboard
add format bytes c =
    if c.is_open
    then if c.is_owner
      then record c {
        contents = λ f. if f == format then bytes else c.contents f;
        added = λ f. if f == format then true else c.added f;
      }
      else c
    else c

-- Clipboard::getTime
unfoldable pub get_time : Clipboard → ℕ
get_time c = c.time_owned

-- Clipboard::has
unfoldable pub has : ℕ → Clipboard → Bool
has format c = if c.is_open then c.added format else false

-- Clipboard::get
unfoldable pub get : ℕ → Clipboard → List ℕ
get format c = if c.is_open then c.contents format else []

-- The constructor. The members that it leaves unset are parameters.
unfoldable pub new_clipboard : ℕ → ℕ → Clipboard
unfolding open_at empty close
new_clipboard time time_owned =
    close
      (empty (
        open_at 0 (record {
          is_open = false;
          time = time;
          is_owner = false;
          time_owned = time_owned;
          added = λ f. false;
          contents = λ f. [];
        }))).0
