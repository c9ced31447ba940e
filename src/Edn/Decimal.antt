-- ===== src/Edn/Decimal.antt =====
-- Decimal digits, and how `int` reads them back.
-- that holds a given value. Words are printed as strings, and elements are followed by a space.
use protocol_robustness_fram.Prelude.{
  ℕ, zero, suc, ◌+◌, ◌-◌, ◌*◌, ◌/◌, ◌%◌, ◌≤◌, ◌<◌, ◌≡◌, refl, sym, ap, ◌∙◌, Bool, true, false, ◌||◌,
  List, [], ◌∷◌, ◌++◌, some, all, not, arith, inl, inr, Bool-cases, is_empty, ltb, ◌==◌,
  if◌then◌else◌, if_eq_true, if_eq_false,
}
use protocol_robustness_fram.Prelude.Int.{ℤ, pos, negsuc, ◌-ℤ◌, int_laws}
use protocol_robustness_fram.Prelude.Result.{ok, err}
use protocol_robustness_fram.Edn.{
  number, unexpected_character, atom, is_token_char, take_token, is_digit, read_digits, int_of,
  token_value, read_token,
}

-- The decimal digits of a number before some more characters.
abbrev pub digits : ℕ → ℕ → List ℕ → List ℕ
digits zero n more = (b'0' + n % 10) ∷ more
digits (suc f) n more = elim (ltb n 10) [
  | true ↦ (b'0' + n) ∷ more
  | false ↦ digits f (n / 10) ((b'0' + n % 10) ∷ more)
]

abbrev pub number_token : ℤ → List ℕ
number_token (pos n) = digits n n []
number_token (negsuc n) = b'-' ∷ digits (suc n) (suc n) []

digits_small :
    (f n : ℕ) (more : List ℕ) → ltb n 10 ≡ true → digits (suc f) n more ≡ (b'0' + n) ∷ more
digits_small f n more h = ground (arith, h)

digits_large :
    (f n : ℕ) (more : List ℕ)
    → ltb n 10 ≡ false
    → digits (suc f) n more ≡ digits f (n / 10) ((b'0' + n % 10) ∷ more)
digits_large f n more h = ground (arith, h)

read_digits_digit :
    (d acc : ℕ) (more : List ℕ) (after_digit : Bool)
    → d < 10
    → read_digits after_digit acc ((b'0' + d) ∷ more) ≡ read_digits true (10 * acc + d) more
unfolding read_digits
read_digits_digit d acc more b h = ground (arith, h)
  where
    sum : (b'0' + d) - b'0' ≡ d
    sum = omega arith

read_digits-digits :
    (f n : ℕ) (more : List ℕ) (after_digit : Bool)
    → n ≤ f
    → read_digits after_digit 0 (digits f n more) ≡ read_digits true n more
read_digits-digits zero n more b h =
    read_digits_digit (n % 10) 0 more b (omega arith)
    ∙ ap (λ (k : ℕ). read_digits true k more) (omega arith)
read_digits-digits (suc f) n more b h = elim (Bool-cases (ltb n 10)) [
  | inl small ↦
      ap (read_digits b 0) (digits_small f n more small)
      ∙ read_digits_digit n 0 more b (ground (arith, small))
      ∙ ap (λ (k : ℕ). read_digits true k more) (omega arith)
  | inr large ↦
      ap (read_digits b 0) (digits_large f n more large)
      ∙ read_digits-digits f (n / 10) ((b'0' + n % 10) ∷ more) b (ground (arith, h, large))
      ∙ read_digits_digit (n % 10) (n / 10) more true (omega arith)
      ∙ ap (λ (k : ℕ). read_digits true k more) (omega arith)
]

digits-is_digit :
    (f n : ℕ) (more : List ℕ)
    → n ≤ f
    → all is_digit more ≡ true
    → all is_digit (digits f n more) ≡ true
digits-is_digit zero n more h a = ground (arith, h, a)
digits-is_digit (suc f) n more h a = elim (Bool-cases (ltb n 10)) [
  | inl small ↦ ap (all is_digit) (digits_small f n more small) ∙ ground (arith, small, a)
  | inr large ↦
      ap (all is_digit) (digits_large f n more large)
      ∙ digits-is_digit f (n / 10) ((b'0' + n % 10) ∷ more) (ground (arith, h, large))
          (ground (arith, a))
]

digit_token_char : (c : ℕ) → is_digit c ≡ true → is_token_char c ≡ true
digit_token_char c h = ground (arith, h)

all_token_chars : (s : List ℕ) → all is_digit s ≡ true → all is_token_char s ≡ true
all_token_chars [] h = refl
all_token_chars (c ∷ s) h = elim (Bool-cases (is_digit c)) [
  | inl digit ↦ cc (digit_token_char c digit, all_token_chars s (ground (arith, h, digit)))
  | inr no_digit ↦ absurd (ground (arith, h, no_digit))
]

-- A text that cannot continue a token.
abbrev pub stops : List ℕ → Bool
stops [] = true
stops (c ∷ s) = not (is_token_char c)

take_token-append :
    (token rest : List ℕ)
    → all is_token_char token ≡ true
    → stops rest ≡ true
    → take_token (token ++ rest) ≡ (token, rest)
unfolding take_token
take_token-append [] [] h e = refl
take_token-append [] (c ∷ s) h e = elim (Bool-cases (is_token_char c)) [
  | inl t ↦ absurd (ground (arith, e, t))
  | inr t ↦ if_eq_false (is_token_char c) _ _ t
]
take_token-append (c ∷ s) rest h e = elim (Bool-cases (is_token_char c)) [
  | inl t ↦
      if_eq_true (is_token_char c) _ _ t
      ∙ ap (λ (r : List ℕ × List ℕ). (c ∷ r.0, r.1))
          (take_token-append s rest (ground (arith, h, t)) e)
  | inr t ↦ absurd (ground (arith, h, t))
]

digits-first :
    (f n : ℕ) (more : List ℕ)
    → n ≤ f
    → (c : ℕ) × (s : List ℕ) × (digits f n more ≡ c ∷ s) × (is_digit c ≡ true)
digits-first zero n more h = (b'0' + n % 10, more, refl, ground (arith, h))
digits-first (suc f) n more h = elim (Bool-cases (ltb n 10)) [
  | inl small ↦ (b'0' + n, more, digits_small f n more small, ground (arith, small))
  | inr large ↦
      let (c, s, e, digit) =
        digits-first f (n / 10) ((b'0' + n % 10) ∷ more) (ground (arith, h, large)) in
      (c, s, digits_large f n more large ∙ e, digit)
]

int_of_digit :
    (c : ℕ) (s : List ℕ) {n : ℕ}
    → is_digit c ≡ true
    → read_digits false 0 (c ∷ s) ≡ some n
    → int_of (c ∷ s) ≡ some (pos n)
unfolding int_of
int_of_digit c s d e = ground (arith, d, e)

int_of_minus :
    (s : List ℕ) {n : ℕ}
    → read_digits false 0 s ≡ some n
    → int_of (b'-' ∷ s) ≡ some (pos 0 -ℤ pos n)
unfolding int_of
int_of_minus s e = ground (arith, e)

read_digits_end : (n : ℕ) → read_digits true n [] ≡ some n
unfolding read_digits
read_digits_end n = refl

pub int_of-number_token : (n : ℤ) → int_of (number_token n) ≡ some n
unfolding ◌-ℤ◌
int_of-number_token (pos n) =
    let (c, s, e, digit) = digits-first n n [] (omega arith) in
    let read = read_digits-digits n n [] false (omega arith) ∙ read_digits_end n in
    ap int_of e ∙ int_of_digit c s digit (ap (read_digits false 0) (sym e) ∙ read)
int_of-number_token (negsuc n) =
    int_of_minus (digits (suc n) (suc n) [])
      (read_digits-digits (suc n) (suc n) [] false (omega arith) ∙ read_digits_end (suc n))
    ∙ ap some (grind int_laws)

-- The first character of a token, which starts no other value.
abbrev pub is_first : ℕ → Bool
is_first c = is_digit c || c == b'-'

pub number_token-first :
    (n : ℤ) → (c : ℕ) × (s : List ℕ) × (number_token n ≡ c ∷ s) × (is_first c ≡ true)
number_token-first (pos n) =
    let (c, s, e, digit) = digits-first n n [] (omega arith) in (c, s, e, ground (arith, digit))
number_token-first (negsuc n) = (b'-', digits (suc n) (suc n) [], refl, refl)

number_token-chars : (n : ℤ) → all is_token_char (number_token n) ≡ true
number_token-chars (pos n) =
    all_token_chars (digits n n []) (digits-is_digit n n [] (omega arith) refl)
number_token-chars (negsuc n) =
    all_token_chars (digits (suc n) (suc n) [])
      (digits-is_digit (suc n) (suc n) [] (omega arith) refl)

-- A printed number is read back as one token.
pub read_token-number :
    (n : ℤ) (rest : List ℕ)
    → stops rest ≡ true
    → read_token (number_token n ++ rest) ≡ ok (atom (number n), rest)
unfolding read_token token_value
read_token-number n rest h =
    let (c, s, e, first) = number_token-first n in
    ap
      (λ (p : List ℕ × List ℕ).
        if is_empty p.0 then err unexpected_character else ok (token_value p.0, p.1))
      (take_token-append (number_token n) rest (number_token-chars n) h)
    ∙ if_eq_false (is_empty (number_token n)) _ _ (ap is_empty e)
    ∙ ground (arith, int_of-number_token n)
