-- ===== src/Domain/Common.antt =====
-- crates/core/src/common.rs
use valqeron.Base.{ℕ, Bool, true, false, Option, none, some, ◌≡◌, refl}

pub record Versioned {ℓ} (A : Type ℓ) : Type ℓ where
  pub content : A
  pub version : ℕ

pub data WriteOutcome : Type 0 where
  applied : WriteOutcome
  version_mismatch : ℕ → ℕ → WriteOutcome
  missing : WriteOutcome

-- The markers `Empty` and `NonEmpty` of the patch builders.
pub data PatchState : Type 0 where
  empty non_empty : PatchState

pub data LoadMode : Type 0 where
  lazy eager : LoadMode

pub data Loading {ℓ} (A : Type ℓ) : Type ℓ where
  not_loaded : Loading A
  loaded : A → Loading A

abbrev pub as_loaded {ℓ} : {A : Type ℓ} → Loading A → Option A
as_loaded (loaded value) = some value
as_loaded not_loaded = none

abbrev pub unwrap_or {ℓ} : {A : Type ℓ} → Option A → A → A
unwrap_or (some a) d = a
unwrap_or none d = d

abbrev pub is_some {ℓ} : {A : Type ℓ} → Option A → Bool
is_some (some a) = true
is_some none = false

-- A value is there.
abbrev pub IsGiven {ℓ} : {A : Type ℓ} → Option A → Type 0
IsGiven (some a) = Unit
IsGiven none = ⊥

pub IsGiven-is_some {ℓ} : {A : Type ℓ} (o : Option A) → IsGiven o → is_some o ≡ true
IsGiven-is_some (some a) h = refl
IsGiven-is_some none h = absurd h
