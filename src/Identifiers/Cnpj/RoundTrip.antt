-- ===== src/Identifiers/Cnpj/RoundTrip.antt =====
-- Punctuated and plain text of the same company number parse alike.
use valqeron.Base.{
  ℕ, zero, suc, ◌≡◌, ◌≢◌, refl, sym, ap, ◌∙◌, subst, true, false, [], ◌∷◌, ◌++◌, map, arith, inl,
  inr, ◌==◌, length, get_or, All, ok, ◌>>=◌, >>=-eq-ok, All-map_imp, length-map, Bool-cases, ==_iff,
  ◌<◌,
}
use valqeron.Text.{Text, Bytes, to_ascii_uppercase, is_whitespace}
use valqeron.Identifiers.Common.{InClass, alphanumeric, Fits-alphanumeric, length-Fits}
use valqeron.Identifiers.Fixed.{
  IsCanonical, alphanumeric-IsCanonical, fill, fill-IsCanonical, fill-map, length-fill,
}
use valqeron.Identifiers.Cnpj.Defs.{
  Cnpj, is_formatting_char, meaningful, not_ascii, from_fn, normalize, from_bytes, parse, as_str,
  formatted,
}
use native.Mathlib.Nat.{zero-add}
use valqeron.Identifiers.Cnpj.Format.{tabulate, format, IsCnpj, from_bytes-IsCnpj, from_bytes-ok}

plain : (c : ℕ) → InClass alphanumeric c → is_formatting_char c ≡ false
unfolding is_formatting_char is_whitespace
plain c h = ground arith

meaningful_plain : (s : Text) → All (InClass alphanumeric) s → meaningful s ≡ s
unfolding meaningful
meaningful_plain [] h = refl
meaningful_plain (c ∷ s) h = rw (plain c h.0, meaningful_plain s h.1)

meaningful-map :
    (s : Text) → meaningful (map to_ascii_uppercase s) ≡ map to_ascii_uppercase (meaningful s)
unfolding meaningful
meaningful-map [] = refl
meaningful-map (c ∷ s) = elim (Bool-cases (is_formatting_char c)) [
  | inl skip ↦ rw (formatting_upper c, skip, meaningful-map s) refl
  | inr keep ↦ rw (formatting_upper c, keep, meaningful-map s) refl
]
  where
    formatting_upper : (d : ℕ) → is_formatting_char (to_ascii_uppercase d) ≡ is_formatting_char d
    formatting_upper d = unfold is_formatting_char to_ascii_uppercase is_whitespace in ground arith

normalize-meaningful :
    (s t : Text)
    → s ≢ []
    → t ≢ []
    → map to_ascii_uppercase (meaningful s) ≡ map to_ascii_uppercase (meaningful t)
    → normalize s ≡ normalize t
unfolding normalize
normalize-meaningful [] t ne ne' e = absurd (ne refl)
normalize-meaningful (c ∷ s) [] ne ne' e = absurd (ne' refl)
normalize-meaningful (c ∷ s) (d ∷ t) ne ne' e =
    let l : length (meaningful (c ∷ s)) ≡ length (meaningful (d ∷ t)) =
      sym (length-map to_ascii_uppercase (meaningful (c ∷ s)))
      ∙ ap length e
      ∙ length-map to_ascii_uppercase (meaningful (d ∷ t)) in
    let filled =
      sym (fill-map not_ascii 0 (meaningful (c ∷ s)))
      ∙ ap (fill not_ascii 0) e
      ∙ fill-map not_ascii 0 (meaningful (d ∷ t)) in
    rw (l, filled)

-- Only the characters that are no punctuation and no white space count, in either case: two
-- texts that are not empty and agree in those parse alike, to the same number or to the same
-- error.
pub parse-meaningful :
    (s t : Text)
    → s ≢ []
    → t ≢ []
    → map to_ascii_uppercase (meaningful s) ≡ map to_ascii_uppercase (meaningful t)
    → parse s ≡ parse t
unfolding parse
parse-meaningful s t ne ne' e = ap (λ m. m >>= from_bytes) (normalize-meaningful s t ne ne' e)

normalize-length : (s : Text) {b : Bytes} → normalize s ≡ ok b → length b ≡ 14
unfolding normalize
normalize-length [] e = cc
normalize-length (c ∷ s) {b} e = elim (Bool-cases (length (meaningful (c ∷ s)) == 14)) [
  | inl fits ↦ length-fill not_ascii 0 (meaningful (c ∷ s)) b (rw fits at e) ∙ (==_iff _ 14).0 fits
  | inr off ↦ cc (rw off at e)
]

-- Whatever `parse` returns is a company number.
pub parse-IsCnpj : (s : Text) {x : Cnpj} → parse s ≡ ok x → IsCnpj x.bytes
unfolding parse
parse-IsCnpj s {x} e =
    let (candidate, n, e') = >>=-eq-ok (normalize s) _ e in
    let (same, h) = from_bytes-ok candidate (normalize-length s n) e' in subst IsCnpj (sym same) h

parse_of_meaningful :
    (x : Cnpj) (t : Text) → IsCnpj x.bytes → t ≢ [] → meaningful t ≡ x.bytes → parse t ≡ ok x
unfolding parse normalize
parse_of_meaningful x [] h ne e = absurd (ne refl)
parse_of_meaningful x (c ∷ t) h ne e =
    let l = length-Fits format x.bytes h.0 in
    let canonical =
      All-map_imp (InClass alphanumeric) IsCanonical alphanumeric-IsCanonical x.bytes
        (Fits-alphanumeric format x.bytes h.0) in
    rw (e, l, fill-IsCanonical not_ascii 0 x.bytes canonical) ((from_bytes-IsCnpj x.bytes l).1 h)

-- The text of a parsed number parses to the same number.
pub cnpj-parse-as_str : (s : Text) {x : Cnpj} → parse s ≡ ok x → parse (as_str x) ≡ ok x
cnpj-parse-as_str s {x} e =
    let h = parse-IsCnpj s e in
    parse_of_meaningful x x.bytes h (ne-nil x.bytes (length-Fits format x.bytes h.0))
      (meaningful_plain x.bytes (Fits-alphanumeric format x.bytes h.0))
  where
    ne-nil : (bs : Bytes) → length bs ≡ 14 → bs ≢ []
    ne-nil bs l n = absurd (omega (arith, ap length n))

All-get_or :
    (bs : Bytes) (i : ℕ)
    → All (InClass alphanumeric) bs
    → i < length bs
    → InClass alphanumeric (get_or bs i 0)
All-get_or [] i h lt = absurd (omega arith)
All-get_or (b ∷ bs) zero h lt = h.0
All-get_or (b ∷ bs) (suc i) h lt = All-get_or bs i h.1 (omega arith)

-- Fourteen bytes are their places read out in turn.
spread :
    (bs : Bytes)
    → length bs ≡ 14
    → let d = λ (i : ℕ). get_or bs i 0 in
      d 0 ∷ d 1 ∷ d 2 ∷ d 3 ∷ d 4 ∷ d 5 ∷ d 6 ∷ d 7 ∷ d 8 ∷ d 9 ∷ d 10 ∷ d 11 ∷ d 12 ∷ d 13 ∷ []
      ≡ bs
unfolding from_fn
spread bs l =
    subst (λ n. from_fn n 0 (λ i. get_or bs i 0) ≡ bs) l
      (tabulate bs 0 (λ i. get_or bs i 0) (λ k. ap (λ m. get_or bs m 0) (zero-add k)))

meaningful-append :
    (s t : Text) → All (InClass alphanumeric) s → meaningful (s ++ t) ≡ s ++ meaningful t
unfolding meaningful
meaningful-append [] t h = refl
meaningful-append (c ∷ s) t h = rw (plain c h.0, meaningful-append s t h.1)

-- A mark between two pieces goes.
across :
    (mark : ℕ) (s t u : Text)
    → is_formatting_char mark ≡ true
    → All (InClass alphanumeric) s
    → meaningful t ≡ u
    → meaningful (s ++ (mark ∷ t)) ≡ s ++ u
unfolding meaningful
across mark s t u m h e = meaningful-append s (mark ∷ t) h ∙ ap (λ r. s ++ r) (rw m e)

meaningful-formatted : (x : Cnpj) → IsCnpj x.bytes → meaningful (formatted x) ≡ x.bytes
unfolding formatted
meaningful-formatted x h =
    across b'.' (d 0 ∷ d 1 ∷ []) _ _ dot (p 0 (omega arith), (p 1 (omega arith), tt))
      (across b'.' (d 2 ∷ d 3 ∷ d 4 ∷ []) _ _ dot
        (p 2 (omega arith), (p 3 (omega arith), (p 4 (omega arith), tt)))
        (across b'/' (d 5 ∷ d 6 ∷ d 7 ∷ []) _ _ slash
          (p 5 (omega arith), (p 6 (omega arith), (p 7 (omega arith), tt)))
          (across b'-' (d 8 ∷ d 9 ∷ d 10 ∷ d 11 ∷ []) _ _ dash
            (p 8 (omega arith), (p 9 (omega arith), (p 10 (omega arith), (p 11 (omega arith), tt))))
            (meaningful_plain (d 12 ∷ d 13 ∷ []) (p 12 (omega arith), (p 13 (omega arith), tt))))))
    ∙ spread x.bytes l
  where
    l : length x.bytes ≡ 14
    l = length-Fits format x.bytes h.0

    d : ℕ → ℕ
    d i = get_or x.bytes i 0

    p : (i : ℕ) → i < 14 → InClass alphanumeric (get_or x.bytes i 0)
    p i lt = All-get_or x.bytes i (Fits-alphanumeric format x.bytes h.0) (rw l lt)

    dot : is_formatting_char b'.' ≡ true
    dot = unfold is_formatting_char in refl

    slash : is_formatting_char b'/' ≡ true
    slash = unfold is_formatting_char in refl

    dash : is_formatting_char b'-' ≡ true
    dash = unfold is_formatting_char in refl

formatted-ne-nil : (x : Cnpj) → formatted x ≢ []
unfolding formatted
formatted-ne-nil x e = cc e

-- The punctuated form of a parsed number, which is its `Display`, parses to the same number.
pub parse-formatted : (s : Text) {x : Cnpj} → parse s ≡ ok x → parse (formatted x) ≡ ok x
parse-formatted s {x} e =
    let h = parse-IsCnpj s e in
    parse_of_meaningful x (formatted x) h (formatted-ne-nil x) (meaningful-formatted x h)
