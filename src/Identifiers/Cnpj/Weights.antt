-- ===== src/Identifiers/Cnpj/Weights.antt =====
-- The check digits described apart from the code: from the right the weights run 2, 3, …, 9 and
-- begin again, and a check digit completes the weighted sum to a multiple of 11.
use Prim.Native.Nat.{min}
use valqeron.Base.{
  ℕ, ◌+◌, ◌*◌, ◌%◌, ◌≤◌, ◌<◌, ◌≡◌, ◌↔◌, ◌⊎◌, ap, ◌∙◌, List, [], ◌∷◌, arith, length, All,
}
use valqeron.Identifiers.Cnpj.Defs.{weights_dv1, weights_dv2, weighted_fold, compute_check_digit}

-- The weighted sum, where the last value has weight 2.
pub weighted : List ℕ → ℕ
weighted [] = 0
weighted (v ∷ vs) = v * (2 + length vs % 8) + weighted vs

-- The weights of the table are those, from the right.
abbrev Aligned : List ℕ → Type 0
Aligned [] = Unit
Aligned (w ∷ ws) = (w ≡ 2 + length ws % 8) × Aligned ws

abbrev pub IsSmall : ℕ → Type 0
IsSmall v = v ≤ 42

term_le : (v k : ℕ) → IsSmall v → v * (2 + k % 8) ≤ 378
term_le v k h = grind (arith, mul_bound v (2 + k % 8))
  where
    mul_bound : (x y : ℕ) → x ≤ 42 → y ≤ 9 → x * y ≤ 378
    mul_bound x y p q = grind arith

fold_lem :
    (acc : ℕ) (vs ws : List ℕ)
    → length vs ≡ length ws
    → Aligned ws
    → All IsSmall vs
    → acc + 378 * length vs ≤ 4000000000
    → weighted_fold acc vs ws ≡ acc + weighted vs
unfolding weighted_fold weighted
fold_lem acc [] [] l a h b = omega arith
fold_lem acc [] (w ∷ ws) l a h b = absurd (omega arith)
fold_lem acc (v ∷ vs) [] l a h b = absurd (omega arith)
fold_lem acc (v ∷ vs) (w ∷ ws) l a h b =
    let weight : w ≡ 2 + length vs % 8 = omega arith in
    let term : v * w ≡ v * (2 + length vs % 8) = ap (λ k. v * k) weight in
    let bound = term_le v (length vs) h.0 in
    let step : min 4294967295 (acc + min 4294967295 (v * w)) ≡ acc + v * (2 + length vs % 8) =
      omega arith in
    ap (λ n. weighted_fold n vs ws) step
    ∙ fold_lem (acc + v * (2 + length vs % 8)) vs ws (omega arith) a.1 h.1 (omega arith)
    ∙ omega arith

-- What makes a digit the check digit of some values: it completes their sum to a multiple of 11,
-- or it is 0 where that would take 10 or 11.
abbrev pub IsCheckDigit : List ℕ → ℕ → Type 0
IsCheckDigit vs d =
    ((2 ≤ weighted vs % 11) × (d ≤ 9) × ((weighted vs + d) % 11 ≡ 0))
    ⊎ ((weighted vs % 11 < 2) × (d ≡ 0))

module _ (vs ws : List ℕ) (l : length vs ≡ length ws) (a : Aligned ws) (h : All IsSmall vs) where
  IsCheckDigit-compute_check_digit :
      length ws ≤ 1000 → (d : ℕ) → (compute_check_digit vs ws ≡ d) ↔ IsCheckDigit vs d
  unfolding compute_check_digit
  IsCheckDigit-compute_check_digit small d =
      let sum = fold_lem 0 vs ws l a h (omega arith) in
      (λ e. ground (arith, sum), λ e. ground (arith, sum))

-- For twelve values of at most 42 the code computes exactly the check digit that the weights from
-- 2 to 9, counted from the right, define.
pub dv1_iff :
    (vs : List ℕ)
    → length vs ≡ 12
    → All IsSmall vs
    → (d : ℕ) → (compute_check_digit vs weights_dv1 ≡ d) ↔ IsCheckDigit vs d
dv1_iff vs l h d = IsCheckDigit-compute_check_digit vs weights_dv1 l (omega arith) h (omega arith) d

pub dv2_iff :
    (vs : List ℕ)
    → length vs ≡ 13
    → All IsSmall vs
    → (d : ℕ) → (compute_check_digit vs weights_dv2 ≡ d) ↔ IsCheckDigit vs d
dv2_iff vs l h d = IsCheckDigit-compute_check_digit vs weights_dv2 l (omega arith) h (omega arith) d
