-- ===== src/TestPrograms/Toy.antt =====
-- What toy.c prints: its macro PNT writes a number into a buffer of 16 bytes, from the end on.
use native.Mathlib.Nat.{pow-suc}
use dr_shadow_stack.Base.{
  ℕ, zero, suc, ◌+◌, ◌-◌, ◌/◌, ◌%◌, ◌^◌, ◌<◌, ◌≤◌, ◌≡◌, refl, sym, ap, ◌∙◌, true, false, Option,
  none, some, List, [], subst, ◌∷◌, ◌++◌, codes, ltb, ◌==◌, if◌then◌else◌, Bool-cases, inl, inr,
  arith,
}
use dr_shadow_stack.Text.Numerals.{digits_on-step, digits_on-zero}
use dr_shadow_stack.Text.{digit, digits_on, numeral, numeral_on}

-- The cells that are still free, `indx + 1` of them, and the bytes behind them.
abbrev pub Buffer : Type 0
Buffer = ℕ × List ℕ

-- `arr[indx--] = c`; `none` is a write in front of the array.
unfoldable pub push : ℕ → Buffer → Option Buffer
push c (free, bs) = if free == 0 then none else some (free - 1, c ∷ bs)

infixl 5 ◌>>=◌
abbrev ◌>>=◌ {ℓ κ} : {A : Type ℓ} {B : Type κ} → Option A → (A → Option B) → Option B
none >>= f = none
some a >>= f = f a

-- `while ( val )`, on fuel.
unfoldable pub push_digits : ℕ → ℕ → Buffer → Option Buffer
unfolding push
push_digits zero val b = none
push_digits (suc f) val b =
    let rest = push (digit (val % 10)) b >>= push_digits f (val / 10) in
    if val == 0 then some b else rest

-- `int val = n`, of an unsigned word; a negative one makes an index that is out of range.
abbrev int_of : ℕ → Option ℕ
int_of n = let m = n % 2 ^ 32 in if ltb m (2 ^ 31) then some m else none

-- The bytes in front of the digits, and the write of what there is.
unfoldable pub push_rest : Buffer → Option (List ℕ)
unfolding push
push_rest b = do b ← push b'(' b; b ← push b'r' b; b ← push b't' b; b ← push b'I' b; some b.1

-- What PNT( n ) writes.
unfoldable pub pnt : ℕ → Option (List ℕ)
unfolding push_digits push_rest
pnt n = do
  b ← push b'\n' (16, [])
  b ← push b')' b
  val ← int_of n
  b ← push_digits 64 val b
  b ← if n == 0 then push b'0' b else some b
  push_rest b

-- What `itr( n )` writes in all.
unfoldable pub itr_output : ℕ → Option (List ℕ)
unfolding pnt
itr_output zero = pnt 0
itr_output (suc n) = do line ← pnt (suc n); rest ← itr_output n; some (line ++ rest)

-- The line that it means to write.
abbrev pub line_of : ℕ → List ℕ
line_of n = codes "Itr(" ++ (numeral 10 n ++ codes ")\n")

-- A line for each call of itr.
abbrev pub lines_of : ℕ → List ℕ
lines_of zero = line_of 0
lines_of (suc n) = line_of (suc n) ++ lines_of n

push-some : (c free : ℕ) (bs : List ℕ) → push c (suc free, bs) ≡ some (free, c ∷ bs)
unfolding push
push-some c free bs =
    let z : (suc free == 0) ≡ false = ground arith in
    let m : suc free - 1 ≡ free = omega arith in rw z (λ i. some (m i, c ∷ bs))

digits_on-append :
    (f n : ℕ) (xs ys : List ℕ) → digits_on f 10 n (xs ++ ys) ≡ digits_on f 10 n xs ++ ys
unfolding digits_on
digits_on-append zero n xs ys = refl
digits_on-append (suc f) n xs ys = elim (Bool-cases (n == 0)) [
  | inl y ↦ rw y refl
  | inr z ↦ rw z (digits_on-append f (n / 10) (digit (n % 10) ∷ xs) ys)
]

push_digits-zero : (f : ℕ) (b : Buffer) → push_digits (suc f) 0 b ≡ some b
unfolding push_digits
push_digits-zero f b = refl

push_digits-step :
    (f val free : ℕ) (acc : List ℕ)
    → (val == 0) ≡ false
    → push_digits (suc f) val (suc free, acc)
      ≡ push_digits f (val / 10) (free, digit (val % 10) ∷ acc)
unfolding push_digits
push_digits-step f val free acc h =
    rw h (ap (λ o. o >>= push_digits f (val / 10)) (push-some (digit (val % 10)) free acc))

-- k digits need k cells at most.
push_digits_lem :
    (k f g val free : ℕ) (acc : List ℕ)
    → val < 10 ^ k
    → k < f
    → k ≤ g
    → k ≤ free
    → (left : ℕ) × (push_digits f val (free, acc) ≡ some (left, digits_on g 10 val acc))
      × (free ≤ left + k)
push_digits_lem k zero g val free acc h i j l = absurd (omega arith)
push_digits_lem zero (suc f) g val free acc h i j l =
    let z : 0 ≡ val = omega arith in
    (
      free,
      subst (λ n. push_digits (suc f) n (free, acc) ≡ some (free, digits_on g 10 n acc)) z
          (push_digits-zero f (free, acc) ∙ (λ x. some (free, sym (digits_on-zero g acc) x))),
      omega arith,
    )
push_digits_lem (suc k) (suc f) zero val free acc h i j l = absurd (omega arith)
push_digits_lem (suc k) (suc f) (suc g) val zero acc h i j l = absurd (omega arith)
push_digits_lem (suc k) (suc f) (suc g) val (suc free) acc h i j l = elim (Bool-cases (val == 0)) [
  | inl y ↦
      let z : 0 ≡ val = ground arith in
      (
        suc free,
        subst
            (λ n.
              push_digits (suc f) n (suc free, acc) ≡ some (suc free, digits_on (suc g) 10 n acc))
            z
            (push_digits-zero f (suc free, acc)
              ∙ (λ x. some (suc free, sym (digits_on-zero (suc g) acc) x))),
        omega arith,
      )
  | inr n ↦
      let smaller : val / 10 < 10 ^ k = omega (arith, pow-suc 10 k) in
      let (left, e, r) =
        push_digits_lem k f g (val / 10) free (digit (val % 10) ∷ acc) smaller (omega arith)
          (omega arith) (omega arith) in
      (
        left,
        push_digits-step f val free acc n
            ∙ e
            ∙ (λ x. some (left, sym (digits_on-step g val acc n) x)),
        omega arith,
      )
]

push_rest_lem :
    (left : ℕ) (bs : List ℕ) → 4 ≤ left → push_rest (left, bs) ≡ some (codes "Itr(" ++ bs)
unfolding push_rest
push_rest_lem zero bs h = absurd (omega arith)
push_rest_lem (suc zero) bs h = absurd (omega arith)
push_rest_lem (suc (suc zero)) bs h = absurd (omega arith)
push_rest_lem (suc (suc (suc zero))) bs h = absurd (omega arith)
push_rest_lem (suc (suc (suc (suc left)))) bs h = rw (push-some b'(' (suc (suc (suc left))) bs) (
    rw (push-some b'r' (suc (suc left)) (b'(' ∷ bs)) (
      rw (push-some b't' (suc left) (b'r' ∷ b'(' ∷ bs))
        (rw (push-some b'I' left (b't' ∷ b'r' ∷ b'(' ∷ bs)) refl)))

int_of-fits : (n : ℕ) → n < 2147483648 → int_of n ≡ some n
int_of-fits n h =
    let m : n % 4294967296 ≡ n = omega arith in
    let y : ltb n 2147483648 ≡ true = ground arith in rw (m, y) refl

module _ (f n : ℕ) where
  numeral_on-zero : (n == 0) ≡ true → numeral_on f 10 n ≡ b'0' ∷ []
  unfolding numeral_on
  numeral_on-zero y = rw y refl

  numeral_on-digits_on : (n == 0) ≡ false → numeral_on f 10 n ≡ digits_on f 10 n []
  unfolding numeral_on
  numeral_on-digits_on z = rw z refl

  -- The digits, or the one zero, which needs one cell more.
  number_lem :
      (left : ℕ) (tail : List ℕ)
      → 4 ≤ left
      → ((n == 0) ≡ true → 5 ≤ left)
      → ((if n == 0
            then push b'0' (left, digits_on f 10 n tail)
            else some (left, digits_on f 10 n tail))
          >>= push_rest)
        ≡ some (codes "Itr(" ++ (numeral_on f 10 n ++ tail))
  number_lem zero tail h k = absurd (omega arith)
  number_lem (suc left) tail h k = elim (Bool-cases (n == 0)) [
    | inl y ↦
        let z : n ≡ 0 = ground arith in
        let ds : digits_on f 10 n tail ≡ tail =
          ap (λ m. digits_on f 10 m tail) z ∙ digits_on-zero f tail in
        rw (y, ds, numeral_on-zero y, push-some b'0' left tail)
          (push_rest_lem left (b'0' ∷ tail) (omega (arith, k y)))
    | inr z ↦ rw z (
        push_rest_lem (suc left) _ (omega arith)
        ∙ ap (λ ds. some (codes "Itr(" ++ ds))
            (digits_on-append f n [] tail ∙ ap (λ ds. ds ++ tail) (sym (numeral_on-digits_on z))))
  ]

  pnt_start :
      (o : Option Buffer)
      → int_of n ≡ some n
      → push_digits 64 n (14, codes ")\n") ≡ o
      → pnt n ≡ (o >>= λ b. (if n == 0 then push b'0' b else some b) >>= push_rest)
  unfolding pnt push
  pnt_start o e g = rw (e, g) refl

-- Ten digits fill the buffer.
digits_room :
    (n : ℕ)
    → n < 2147483648
    → (left : ℕ) × (push_digits 64 n (14, codes ")\n")
        ≡ some (left, digits_on 64 10 n (codes ")\n")))
      × (4 ≤ left)
      × ((n == 0) ≡ true → 5 ≤ left)
digits_room n h = elim (Bool-cases (n == 0)) [
  | inl y ↦
      let z : n < 1 = ground arith in
      let (left, e, room) =
        push_digits_lem 0 64 64 n 14 (codes ")\n") (omega arith) (omega arith) (omega arith)
          (omega arith) in
      (left, e, omega (arith, room), λ k. omega (arith, room))
  | inr z ↦
      let (left, e, room) =
        push_digits_lem 10 64 64 n 14 (codes ")\n") (omega arith) (omega arith) (omega arith)
          (omega arith) in
      (left, e, omega (arith, room), λ k. cc)
]

-- For a positive int or zero: PNT stays inside its buffer and writes the line.
pub pnt_lem : (n : ℕ) → n < 2147483648 → pnt n ≡ some (line_of n)
unfolding numeral
pnt_lem n h =
    let (left, e, room, zero_room) = digits_room n h in
    pnt_start 64 n _ (int_of-fits n h) e ∙ number_lem 64 n left (codes ")\n") room zero_room

-- For every number that an int can hold, from zero on: itr of toy.c writes the lines of the numbers
-- from it down to zero, and its macro PNT never writes outside its buffer of 16 bytes.
pub itr_output_lem : (n : ℕ) → n < 2147483648 → itr_output n ≡ some (lines_of n)
unfolding itr_output
itr_output_lem zero h = pnt_lem 0 h
itr_output_lem (suc n) h = rw (pnt_lem (suc n) h, itr_output_lem n (omega arith)) refl
