-- ===== src/Identifiers/Fixed/Defs.antt =====
-- Each `normalize` of crates/core/src/identifiers trims its input, counts its characters and
-- copies them, in upper case, into a fixed array. Each `validate_character_classes` walks the
-- array and returns at the first byte that is out of place. The callers give the length, the
-- error constructors and the test for one byte.
use valqeron.Base.{
  ℕ, ◌+◌, not, [], ◌∷◌, Option, none, some, ◌==◌, if◌then◌else◌, length, is_empty, Result, ok, err,
  ◌>>=◌,
}
use valqeron.Text.{Text, Bytes, is_ascii, to_ascii_uppercase, trim}

module _ {ℓ} {E : Type ℓ} where
  -- The copying loop, from index `i`; `invalid` makes the error of a character and its index.
  unfoldable pub fill : (ℕ → ℕ → E) → ℕ → Text → Result Bytes E
  fill invalid i [] = ok []
  fill invalid i (ch ∷ cs) =
      let rest = fill invalid (i + 1) cs in
      if not (is_ascii ch)
      then err (invalid ch i)
      else (do buf ← rest; ok (to_ascii_uppercase ch ∷ buf))

  unfoldable pub normalize : ℕ → E → (ℕ → E) → (ℕ → ℕ → E) → Text → Result Bytes E
  normalize n empty invalid_length invalid input =
      let trimmed = trim input in
      let found = length trimmed in
      if is_empty input
      then err empty
      else if not (found == n)
      then err (invalid_length found)
      else fill invalid 0 trimmed

  -- An early `return Err(e)`, or the rest of the loop.
  abbrev pub return_if_some : Option E → Result (Unit {0}) E → Result (Unit {0}) E
  return_if_some (some e) rest = err e
  return_if_some none rest = rest

  -- The checking loop, from index `i`; `fault` is the error of a byte at an index, if any.
  unfoldable pub check_each : (ℕ → ℕ → Option E) → ℕ → Bytes → Result (Unit {0}) E
  check_each fault i [] = ok tt
  check_each fault i (b ∷ bs) =
      let rest = check_each fault (i + 1) bs in return_if_some (fault i b) rest
