-- ===== src/Mode/Flags.antt =====
-- str_equal of ss_mode.hpp, and the static assertions that it stands in.
use dr_shadow_stack.Base.{
  ℕ, ◌≡◌, ◌≢◌, refl, sym, Bool, true, false, not, Option, none, some, List, [], ◌∷◌, ◌++◌, map,
  bytes_eq, ◌==◌, if◌then◌else◌, Bool-cases, inl, inr, arith,
}
use dr_shadow_stack.Mode.{internal_mode_flag, prot_internal_mode_flag, external_mode_flag}

-- Two strings in memory, from their first characters on; `none` is a read past what is there.
unfoldable pub str_equal : List ℕ → List ℕ → Option Bool
str_equal [] t = none
str_equal (c ∷ s) [] = none
str_equal (c ∷ s) (d ∷ t) =
    let rest = str_equal s t in
    if not (c == d) then some false else (if c == 0 then some true else rest)

-- A literal in memory.
abbrev pub literal : List ℕ → List ℕ
literal s = s ++ 0 ∷ []

-- The conditions of the three assertions.
unfoldable pub static_asserts : List (Option Bool)
static_asserts =
    map (λ (s, t). elim (str_equal (literal s) (literal t)) [ none ↦ none | some b ↦ some (not b) ])
      ((internal_mode_flag, external_mode_flag)
        ∷ (internal_mode_flag, prot_internal_mode_flag)
        ∷ (prot_internal_mode_flag, external_mode_flag)
        ∷ [])

abbrev pub HasNoNul : List ℕ → Type 0
HasNoNul [] = Unit {0}
HasNoNul (c ∷ s) = (c ≢ 0) × HasNoNul s

differ : (a b : ℕ) → a ≢ b → (a == b) ≡ false
differ a b n = ground arith

-- For strings without a NUL, str_equal is equality, and it reads no byte past either literal.
pub str_equal_lem :
    (s t : List ℕ)
    → HasNoNul s
    → HasNoNul t
    → str_equal (literal s) (literal t) ≡ some (bytes_eq s t)
unfolding str_equal
str_equal_lem [] [] h k = refl
str_equal_lem [] (d ∷ t) h k = let e : (0 == d) ≡ false = differ 0 d (λ x. k.0 (sym x)) in rw e refl
str_equal_lem (c ∷ s) [] h k = let e : (c == 0) ≡ false = differ c 0 h.0 in rw e refl
str_equal_lem (c ∷ s) (d ∷ t) h k = elim (Bool-cases (c == d)) [
  | inl y ↦ let e : (c == 0) ≡ false = differ c 0 h.0 in rw (y, e) (str_equal_lem s t h.1 k.1)
  | inr n ↦ rw n refl
]

static_asserts-hold : static_asserts ≡ some true ∷ some true ∷ some true ∷ []
unfolding static_asserts str_equal
static_asserts-hold = refl
