-- ===== src/Text.antt =====
-- Text as the sources walk it: a `&str` is the list of its `char`s, each by its code point, and
-- a byte string the list of its bytes. The functions are those of Rust's `char` and `str`.
use valqeron.Base.{
  ℕ, ◌-◌, ◌≡◌, refl, ap, ◌∙◌, Bool, true, false, ◌&&◌, ◌||◌, List, [], ◌∷◌, ◌++◌, arith, map, ltb,
  leb, ◌==◌, if◌then◌else◌, Bool-cases, inl, inr, is_empty, All, ◌⊎◌, ◌↔◌,
}
use Prim.Native.Char.{code}
use Prim.Native.String.{String}

abbrev pub Text : Type 0
Text = List ℕ

abbrev pub Bytes : Type 0
Bytes = List ℕ

-- The code points of a literal.
abbrev pub codes : String → Text
codes String.[] = []
codes (String.◌∷◌ c s) = code c ∷ codes s

abbrev pub is_ascii : ℕ → Bool
is_ascii c = ltb c 128

abbrev pub is_ascii_digit : ℕ → Bool
is_ascii_digit c = leb b'0' c && leb c b'9'

abbrev pub is_ascii_uppercase : ℕ → Bool
is_ascii_uppercase c = leb b'A' c && leb c b'Z'

abbrev pub is_ascii_lowercase : ℕ → Bool
is_ascii_lowercase c = leb b'a' c && leb c b'z'

abbrev pub is_alphanumeric : ℕ → Bool
is_alphanumeric c = is_ascii_digit c || is_ascii_uppercase c

unfoldable pub to_ascii_uppercase : ℕ → ℕ
to_ascii_uppercase c = if is_ascii_lowercase c then c - 32 else c

-- `char::is_whitespace`: the Unicode property White_Space.
unfoldable pub is_whitespace : ℕ → Bool
is_whitespace c =
    (leb 9 c && leb c 13)
    || c == 32
    || c == 0x85
    || c == 0xA0
    || c == 0x1680
    || (leb 0x2000 c && leb c 0x200A)
    || c == 0x2028
    || c == 0x2029
    || c == 0x202F
    || c == 0x205F
    || c == 0x3000

unfoldable pub trim_start : Text → Text
trim_start [] = []
trim_start (c ∷ s) = let rest = trim_start s in if is_whitespace c then rest else c ∷ s

unfoldable pub trim_end : Text → Text
trim_end [] = []
trim_end (c ∷ s) =
    let rest = trim_end s in if is_whitespace c && is_empty rest then [] else c ∷ rest

-- `str::trim`
unfoldable pub trim : Text → Text
trim s = trim_end (trim_start s)

abbrev pub IsWhitespace : ℕ → Type 0
IsWhitespace c = is_whitespace c ≡ true

abbrev pub IsInk : ℕ → Type 0
IsInk c = is_whitespace c ≡ false

trim_start-append : (w s : Text) → All IsWhitespace w → trim_start (w ++ s) ≡ trim_start s
unfolding trim_start
trim_start-append [] s h = refl
trim_start-append (c ∷ w) s h = rw h.0 (trim_start-append w s h.1)

trim_end-IsWhitespace : (w : Text) → All IsWhitespace w → trim_end w ≡ []
unfolding trim_end
trim_end-IsWhitespace [] h = refl
trim_end-IsWhitespace (c ∷ w) h = rw (h.0, trim_end-IsWhitespace w h.1)

trim_end-append : (s w : Text) → All IsWhitespace w → trim_end (s ++ w) ≡ trim_end s
unfolding trim_end
trim_end-append [] w h = trim_end-IsWhitespace w h
trim_end-append (c ∷ s) w h = rw (trim_end-append s w h)

-- Trailing white space is seen by neither pass, wherever the text begins.
trim-append_end : (s w : Text) → All IsWhitespace w → trim (s ++ w) ≡ trim s
unfolding trim trim_start
trim-append_end [] w h = rw (trim_start-all w h)
  where
    trim_start-all : (v : Text) → All IsWhitespace v → trim_start v ≡ []
    trim_start-all [] k = refl
    trim_start-all (c ∷ v) k = rw k.0 (trim_start-all v k.1)
trim-append_end (c ∷ s) w h = elim (Bool-cases (is_whitespace c)) [
  | inl blank ↦ rw blank (trim-append_end s w h)
  | inr ink ↦ rw ink (trim_end-append (c ∷ s) w h)
]

-- White space around a text does not change its trimmed form.
pub trim_padded :
    (v s w : Text) → All IsWhitespace v → All IsWhitespace w → trim (v ++ (s ++ w)) ≡ trim s
unfolding trim
trim_padded v s w h k = ap trim_end (trim_start-append v (s ++ w) h) ∙ trim-append_end s w k

trim_end-IsInk : (s : Text) → All IsInk s → trim_end s ≡ s
unfolding trim_end
trim_end-IsInk [] h = refl
trim_end-IsInk (c ∷ s) h = rw (h.0, trim_end-IsInk s h.1)

-- A text with no white space is its own trimmed form.
pub trim-IsInk : (s : Text) → All IsInk s → trim s ≡ s
unfolding trim trim_start
trim-IsInk [] h = unfold trim_end in refl
trim-IsInk (c ∷ s) h = rw h.0 (trim_end-IsInk (c ∷ s) h)

pub to_ascii_uppercase-whitespace : (c : ℕ) → is_whitespace (to_ascii_uppercase c) ≡ is_whitespace c
unfolding is_whitespace to_ascii_uppercase
to_ascii_uppercase-whitespace c = ground arith

pub to_ascii_uppercase_idem :
    (c : ℕ) → to_ascii_uppercase (to_ascii_uppercase c) ≡ to_ascii_uppercase c
unfolding to_ascii_uppercase
to_ascii_uppercase_idem c = ground arith

-- Upper case keeps ASCII ASCII, and leaves everything else alone.
pub to_ascii_uppercase-is_ascii : (c : ℕ) → is_ascii (to_ascii_uppercase c) ≡ is_ascii c
unfolding to_ascii_uppercase
to_ascii_uppercase-is_ascii c = ground arith

pub to_ascii_uppercase_other : (c : ℕ) → is_ascii c ≡ false → to_ascii_uppercase c ≡ c
unfolding to_ascii_uppercase
to_ascii_uppercase_other c h = ground arith

trim_start-map :
    (s : Text) → trim_start (map to_ascii_uppercase s) ≡ map to_ascii_uppercase (trim_start s)
unfolding trim_start
trim_start-map [] = refl
trim_start-map (c ∷ s) = elim (Bool-cases (is_whitespace c)) [
  | inl blank ↦ rw (to_ascii_uppercase-whitespace, blank) (trim_start-map s)
  | inr ink ↦ rw (to_ascii_uppercase-whitespace, ink) refl
]

is_empty-map : (s : Text) → is_empty (map to_ascii_uppercase s) ≡ is_empty s
is_empty-map [] = refl
is_empty-map (c ∷ s) = refl

trim_end-map :
    (s : Text) → trim_end (map to_ascii_uppercase s) ≡ map to_ascii_uppercase (trim_end s)
unfolding trim_end
trim_end-map [] = refl
trim_end-map (c ∷ s) = elim (Bool-cases (is_whitespace c && is_empty (trim_end s))) [
  | inl blank ↦ rw (to_ascii_uppercase-whitespace, trim_end-map s, is_empty-map, blank) refl
  | inr ink ↦ rw (to_ascii_uppercase-whitespace, trim_end-map s, is_empty-map, ink) refl
]

-- Trimming and upper case commute.
pub trim-map : (s : Text) → trim (map to_ascii_uppercase s) ≡ map to_ascii_uppercase (trim s)
unfolding trim
trim-map s = rw trim_start-map (trim_end-map (trim_start s))

-- Trimmed text begins and ends with no white space.
trim_end-trim_end : (s : Text) → trim_end (trim_end s) ≡ trim_end s
unfolding trim_end
trim_end-trim_end [] = refl
trim_end-trim_end (c ∷ s) = elim (Bool-cases (is_whitespace c && is_empty (trim_end s))) [
  | inl blank ↦ rw blank
  | inr ink ↦ rw ink (rw (trim_end-trim_end s, ink))
]

trim_start-trim_end :
    (c : ℕ) (s : Text) → is_whitespace c ≡ false → trim_start (trim_end (c ∷ s)) ≡ trim_end (c ∷ s)
unfolding trim_start trim_end
trim_start-trim_end c s h = rw h (rw h refl)

trim_start-cases :
    (s : Text)
    → (trim_start s ≡ [])
      ⊎ ((c : ℕ) × (r : Text) × (trim_start s ≡ c ∷ r) × (is_whitespace c ≡ false))
unfolding trim_start
trim_start-cases [] = inl refl
trim_start-cases (c ∷ s) = elim (Bool-cases (is_whitespace c)) [
  | inl blank ↦ rw blank (trim_start-cases s)
  | inr ink ↦ rw ink (inr (c, s, refl, ink))
]

-- Trimming twice is trimming once.
pub trim-trim : (s : Text) → trim (trim s) ≡ trim s
unfolding trim
trim-trim s = elim (trim_start-cases s) [
  | inl none_left ↦ rw none_left (unfold trim_end trim_start in refl)
  | inr (c, r, e, ink) ↦
      rw e (ap trim_end (trim_start-trim_end c r ink) ∙ trim_end-trim_end (c ∷ r))
]

-- `str == str`
unfoldable pub text_eq : Text → Text → Bool
text_eq [] [] = true
text_eq (x ∷ xs) (y ∷ ys) = x == y && text_eq xs ys
text_eq _ _ = false

pub text_eq_iff : (s t : Text) → (text_eq s t ≡ true) ↔ (s ≡ t)
unfolding text_eq
text_eq_iff (x ∷ xs) (y ∷ ys) = ground (arith, text_eq_iff xs ys)
text_eq_iff _ _ = ground arith
