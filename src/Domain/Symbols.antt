-- ===== src/Domain/Symbols.antt =====
-- `TickerSymbol` and `CurrencyCode` of crates/core/src/domain/listing.rs.
use valqeron.Base.{
  ℕ, ◌≤◌, ◌≡◌, ◌≢◌, refl, ap, Bool, true, false, not, ◌||◌, ◌==◌, inl, inr, [], ◌∷◌, arith, map,
  ltb, if◌then◌else◌, length, length-map, map-ne-nil, is_empty, all, All, Bool-cases, Result, ok,
  err,
}
use valqeron.Text.{
  Text, Bytes, trim, trim-IsInk, IsInk, is_whitespace, to_ascii_uppercase, is_ascii_uppercase,
  is_ascii_lowercase, is_ascii_digit,
}

pub record TickerSymbol : Type 0 where
  pub value : Text

pub data TickerSymbolError : Type 0 where
  empty invalid_character : TickerSymbolError
  too_long : ℕ → TickerSymbolError

abbrev pub is_ticker_char : ℕ → Bool
is_ticker_char c = is_ascii_uppercase c || is_ascii_digit c || c == b'.' || c == b'-'

unfoldable pub ticker_symbol : Text → Result TickerSymbol TickerSymbolError
ticker_symbol value =
    let trimmed = trim value in
    let normalized = map to_ascii_uppercase trimmed in
    if is_empty trimmed
    then err empty
    else if ltb 12 (length trimmed)
    then err (too_long 12)
    else if not (all is_ticker_char normalized)
    then err invalid_character
    else ok (record { value = normalized })

-- Three bytes.
pub record CurrencyCode : Type 0 where
  pub bytes : Bytes

pub data CurrencyCodeError : Type 0 where
  empty invalid_length invalid_character : CurrencyCodeError

abbrev pub is_ascii_alphabetic : ℕ → Bool
is_ascii_alphabetic c = is_ascii_uppercase c || is_ascii_lowercase c

unfoldable pub currency_code : Text → Result CurrencyCode CurrencyCodeError
currency_code input =
    let trimmed = trim input in
    if is_empty trimmed
    then err empty
    else if not (length trimmed == 3)
    then err invalid_length
    else if not (all is_ascii_alphabetic trimmed)
    then err invalid_character
    else ok (record { bytes = map to_ascii_uppercase trimmed })

-- One to twelve capital letters, digits, dots and hyphens.
abbrev pub IsTicker : Text → Type 0
IsTicker t = (t ≢ []) × (length t ≤ 12) × (all is_ticker_char t ≡ true)

-- Three capital letters.
abbrev pub IsCurrency : Bytes → Type 0
IsCurrency b = (length b ≡ 3) × (all is_ascii_uppercase b ≡ true)

ticker_symbol-value :
    (value : Text) {symbol : TickerSymbol}
    → ticker_symbol value ≡ ok symbol
    → (symbol.value ≡ map to_ascii_uppercase (trim value))
      × (is_empty (trim value) ≡ false)
      × (length (trim value) ≤ 12)
      × (all is_ticker_char (map to_ascii_uppercase (trim value)) ≡ true)
unfolding ticker_symbol
ticker_symbol-value value {symbol} e = elim (Bool-cases (is_empty (trim value))) [
  | inl z ↦ absurd (ground arith)
  | inr nz ↦ elim (Bool-cases (all is_ticker_char (map to_ascii_uppercase (trim value)))) [
    | inr bad ↦ absurd (ground arith)
    | inl good ↦
        let l : length (trim value) ≤ 12 = ground arith in
        let v : symbol ≡ record { value = map to_ascii_uppercase (trim value) } = ground arith in
        (ap (λ (t : TickerSymbol). t.value) v, nz, l, good)
  ]
]

is_empty-ne-nil : (t : Text) → is_empty t ≡ false → t ≢ []
is_empty-ne-nil t z e = cc (z, e)

-- What the constructor accepts is a ticker.
pub ticker_symbol-IsTicker :
    (value : Text) {symbol : TickerSymbol} → ticker_symbol value ≡ ok symbol → IsTicker symbol.value
ticker_symbol-IsTicker value {symbol} e =
    let h = ticker_symbol-value value e in
    rw h.0 (
      map-ne-nil to_ascii_uppercase (trim value) (is_empty-ne-nil (trim value) h.1),
      rw (length-map to_ascii_uppercase (trim value)) h.2,
      h.3,
    )

ticker_char_upper : (c : ℕ) → is_ticker_char c ≡ true → to_ascii_uppercase c ≡ c
unfolding to_ascii_uppercase
ticker_char_upper c h = ground arith

ticker_char-IsInk : (c : ℕ) → is_ticker_char c ≡ true → IsInk c
unfolding is_whitespace
ticker_char-IsInk c h = ground arith

ticker_upper : (t : Text) → all is_ticker_char t ≡ true → map to_ascii_uppercase t ≡ t
ticker_upper [] h = refl
ticker_upper (c ∷ t) h = elim (Bool-cases (is_ticker_char c)) [
  | inl y ↦ rw (ticker_char_upper c y) (ap (◌∷◌ c) (ticker_upper t (rw y at h)))
  | inr n ↦ absurd (ground arith)
]

ticker-IsInk : (t : Text) → all is_ticker_char t ≡ true → All IsInk t
ticker-IsInk [] h = tt
ticker-IsInk (c ∷ t) h = elim (Bool-cases (is_ticker_char c)) [
  | inl y ↦ (ticker_char-IsInk c y, ticker-IsInk t (rw y at h))
  | inr n ↦ absurd (ground arith)
]

ticker_symbol_from :
    (value normalized : Text)
    → map to_ascii_uppercase (trim value) ≡ normalized
    → is_empty (trim value) ≡ false
    → length (trim value) ≤ 12
    → all is_ticker_char normalized ≡ true
    → ticker_symbol value ≡ ok (record { value = normalized })
unfolding ticker_symbol
ticker_symbol_from value normalized n z l g = rw (n, z, g) (ground arith)

-- Every ticker is accepted and kept as it is.
pub ticker_symbol_of_IsTicker :
    (t : Text) → IsTicker t → ticker_symbol t ≡ ok (record { value = t })
ticker_symbol_of_IsTicker [] h = absurd (h.0 refl)
ticker_symbol_of_IsTicker (c ∷ t) h =
    let e = trim-IsInk (c ∷ t) (ticker-IsInk (c ∷ t) h.2) in
    ticker_symbol_from (c ∷ t) (c ∷ t) (rw e (ticker_upper (c ∷ t) h.2)) (rw e refl) (rw e h.1) h.2
