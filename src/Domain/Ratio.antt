-- ===== src/Domain/Ratio.antt =====
-- `DepositaryReceiptRatio` of crates/core/src/domain/security.rs; a `NonZeroU32` is its number.
use valqeron.Base.{ℕ, ◌==◌, if◌then◌else◌, Result, ok, err}

pub record DepositaryReceiptRatio : Type 0 where
  pub receipts : ℕ
  pub underlying : ℕ

pub data DrRatioError : Type 0 where
  zero_receipts zero_underlying : DrRatioError

unfoldable pub dr_ratio : ℕ → ℕ → Result DepositaryReceiptRatio DrRatioError
dr_ratio receipts underlying =
    if receipts == 0
    then err zero_receipts
    else if underlying == 0
    then err zero_underlying
    else ok (record { receipts = receipts; underlying = underlying })
