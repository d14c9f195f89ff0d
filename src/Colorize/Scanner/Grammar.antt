-- ===== src/Colorize/Scanner/Grammar.antt =====
-- What a scanner makes of a text, read off from the first bytes of it: the specification of `scan`,
-- without positions and without fuel.
pub mod Parts
pub mod Positions
pub mod Rounds
pub mod Cases
pub mod Refines
use yk_util.Base.{ℕ, ◌≡◌, false, [], ◌∷◌, ◌++◌, none, some, ◌==◌}
use yk_util.Colorize.Bytes.{Bytes, find}
use yk_util.Colorize.Result.{ColorizeError, Result, ok, error, undefined, ◌>>=◌}
use yk_util.Colorize.Scanner.{Mode, on_chars, is_at, on_replacement_field}

-- Written in front of what follows.
abbrev pub prepend : Bytes → Result Bytes → Result Bytes
prepend o r = r >>= λ o'. ok (o ++ o')

pub data Reads (mode : Mode) : Bytes → Result Bytes → Type 0 where
  at_end : Reads mode [] (ok [])
  other :
      (c : ℕ) (t : Bytes) (r : Result Bytes)
      → (c == b'[') ≡ false
      → (c == b']') ≡ false
      → Reads mode t r
      → Reads mode (c ∷ t) (prepend (on_chars mode (c ∷ [])) r)
  left_at_end : Reads mode (b'[' ∷ []) (error ColorizeError.unmatched_left_bracket)
  left_escaped :
      (t : Bytes) (n : ℕ) (r : Result Bytes)
      → find b']' t ≡ some n
      → Reads mode t r
      → Reads mode (b'[' ∷ b'[' ∷ t) (prepend (on_chars mode (b'[' ∷ [])) r)
  left_refused :
      (t : Bytes)
      → find b']' t ≡ none
      → Reads mode (b'[' ∷ b'[' ∷ t) (error ColorizeError.unmatched_left_bracket)
  field :
      (d : ℕ) (t : Bytes) (f : Bytes × Bytes) (r : Result Bytes)
      → (d == b'[') ≡ false
      → on_replacement_field mode (d ∷ t) ≡ ok f
      → Reads mode f.1 r
      → Reads mode (b'[' ∷ d ∷ t) (prepend f.0 r)
  field_error :
      (d : ℕ) (t : Bytes) (e : ColorizeError)
      → (d == b'[') ≡ false
      → on_replacement_field mode (d ∷ t) ≡ error e
      → Reads mode (b'[' ∷ d ∷ t) (error e)
  field_undefined :
      (d : ℕ) (t : Bytes)
      → (d == b'[') ≡ false
      → on_replacement_field mode (d ∷ t) ≡ undefined
      → Reads mode (b'[' ∷ d ∷ t) undefined
  right_doubled :
      (t : Bytes) (r : Result Bytes)
      → Reads mode t r
      → Reads mode (b']' ∷ b']' ∷ t) (prepend (on_chars mode (b']' ∷ [])) r)
  right_alone :
      (t : Bytes)
      → is_at b']' 0 t ≡ false
      → Reads mode (b']' ∷ t) (error ColorizeError.unmatched_right_bracket)
