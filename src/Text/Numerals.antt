-- ===== src/Text/Numerals.antt =====
-- std::stoi reads back what std::to_string has written.
use native.Mathlib.Nat.{pow-suc}
use dr_shadow_stack.Base.{
  ℕ, zero, suc, ◌+◌, ◌-◌, ◌*◌, ◌/◌, ◌%◌, ◌^◌, ◌<◌, ◌≡◌, refl, sym, ap, ◌∙◌, subst, Bool, true,
  false, some, List, [], ◌∷◌, ltb, ◌==◌, if◌then◌else◌, arith, Bool-cases, inl, inr,
}
use dr_shadow_stack.Text.{
  digit, digits_on, numeral, numeral_on, is_space, value, is_digit, skip_space, read_digits, in_int,
  signed, stoi,
}

-- A list of decimal digits with at least one of them.
abbrev Digits : List ℕ → Type 0
Digits [] = Unit {0}
Digits (c ∷ cs) = (is_digit c ≡ true) × Digits cs

digit-decimal : (d : ℕ) → d < 10 → digit d ≡ d + 48
unfolding digit
digit-decimal d h = ground arith

digit-is_digit : (d : ℕ) → d < 10 → is_digit (digit d) ≡ true
digit-is_digit d h = let e : digit d ≡ d + 48 = digit-decimal d h in ground arith

pub digits_on-zero : (f : ℕ) (acc : List ℕ) → digits_on f 10 0 acc ≡ acc
unfolding digits_on
digits_on-zero zero acc = refl
digits_on-zero (suc f) acc = refl

pub digits_on-step :
    (f n : ℕ) (acc : List ℕ)
    → (n == 0) ≡ false
    → digits_on (suc f) 10 n acc ≡ digits_on f 10 (n / 10) (digit (n % 10) ∷ acc)
unfolding digits_on
digits_on-step f n acc h = rw h refl

digits_on-Digits : (f n : ℕ) (acc : List ℕ) → Digits acc → Digits (digits_on f 10 n acc)
unfolding digits_on
digits_on-Digits zero n acc d = d
digits_on-Digits (suc f) n acc d = elim (Bool-cases (n == 0)) [
  | inl y ↦ rw y d
  | inr h ↦ subst Digits (sym (digits_on-step f n acc h)) (
      digits_on-Digits f (n / 10) (digit (n % 10) ∷ acc) (digit-is_digit (n % 10) (omega arith), d))
]

read_digits-digit :
    (d n : ℕ) (cs : List ℕ) (any : Bool)
    → d < 10
    → read_digits (digit d ∷ cs) n any ≡ read_digits cs (10 * n + d) true
unfolding read_digits
read_digits-digit d n cs any h =
    let e : digit d - 48 ≡ d = omega (arith, digit-decimal d h) in rw (digit-is_digit d h, e) refl

-- Reading goes on behind the digits with their number.
read_digits-digits_on :
    (f n : ℕ) (acc : List ℕ)
    → n < 10 ^ f
    → 0 < n
    → read_digits (digits_on f 10 n acc) 0 false ≡ read_digits acc n true
read_digits-digits_on zero n acc h pos = absurd (omega arith)
read_digits-digits_on (suc f) n acc h pos =
    let nonzero : (n == 0) ≡ false = ground arith in
    ap (λ ds. read_digits ds 0 false) (digits_on-step f n acc nonzero)
    ∙ elim (Bool-cases (n / 10 == 0)) [
      | inl y ↦
          let none_left : n / 10 ≡ 0 = ground arith in
          ap (λ m. read_digits (digits_on f 10 m (digit (n % 10) ∷ acc)) 0 false) none_left
          ∙ ap (λ ds. read_digits ds 0 false) (digits_on-zero f (digit (n % 10) ∷ acc))
          ∙ read_digits-digit (n % 10) 0 acc false (omega arith)
          ∙ ap (λ m. read_digits acc m true) (omega arith)
      | inr g ↦
          let more : 0 < n / 10 = ground arith in
          let fewer : n / 10 < 10 ^ f = omega (arith, pow-suc 10 f) in
          read_digits-digits_on f (n / 10) (digit (n % 10) ∷ acc) fewer more
          ∙ read_digits-digit (n % 10) (n / 10) acc true (omega arith)
          ∙ ap (λ m. read_digits acc m true) (omega arith)
    ]

not_signed : (c : ℕ) → is_digit c ≡ true → ((c == b'+') ≡ false) × ((c == b'-') ≡ false)
not_signed c h = ground arith

not_space : (c : ℕ) → is_digit c ≡ true → is_space c ≡ false
not_space c h = ground arith

-- A text of digits has no space in front, and no sign.
stoi-Digits :
    (c : ℕ) (cs : List ℕ)
    → is_digit c ≡ true
    → stoi (c ∷ cs) ≡ in_int (read_digits (c ∷ cs) 0 false)
unfolding stoi skip_space signed
stoi-Digits c cs d = let (plus, minus) = not_signed c d in rw (not_space c d, plus, minus) refl

module _ (f n : ℕ) (h : n < 10 ^ f) where
  -- What has few enough digits is written with all of them.
  read_digits-numeral_on : read_digits (numeral_on f 10 n) 0 false ≡ some n
  unfolding numeral_on read_digits
  read_digits-numeral_on = elim (Bool-cases (n == 0)) [
    | inl y ↦ let e : n ≡ 0 = ground arith in rw y (ap some (sym e))
    | inr g ↦
        ap (λ b. read_digits (if b then b'0' ∷ [] else digits_on f 10 n []) 0 false) g
        ∙ read_digits-digits_on f n [] h (ground arith)
  ]

  numeral_on-Digits : Digits (numeral_on f 10 n)
  unfolding numeral_on
  numeral_on-Digits = elim (Bool-cases (n == 0)) [
    | inl y ↦ rw y (refl, tt)
    | inr g ↦ rw g (digits_on-Digits f n [] tt)
  ]

  stoi-numeral_on : stoi (numeral_on f 10 n) ≡ in_int (some n)
  unfolding read_digits
  stoi-numeral_on = go (numeral_on f 10 n) read_digits-numeral_on numeral_on-Digits
    where
      go : (ds : List ℕ) → read_digits ds 0 false ≡ some n → Digits ds → stoi ds ≡ in_int (some n)
      go [] e d = cc
      go (c ∷ cs) e d = stoi-Digits c cs d.0 ∙ ap in_int e

in_int-fits : (n : ℕ) → n < 2147483648 → in_int (some n) ≡ value n
unfolding in_int
in_int-fits n h = let y : ltb n 2147483648 ≡ true = ground arith in rw y refl

-- std::stoi gives back every number that an int can hold from the digits in which it is written.
pub stoi-numeral : (n : ℕ) → n < 2147483648 → stoi (numeral 10 n) ≡ value n
unfolding numeral
stoi-numeral n h = stoi-numeral_on 64 n (omega arith) ∙ in_int-fits n h
