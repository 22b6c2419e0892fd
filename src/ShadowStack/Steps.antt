-- ===== src/ShadowStack/Steps.antt =====
-- Single steps of the abstract shadow stack: which returns it allows, and what it says of the others.
use dr_shadow_stack.Base.{
  ℕ, ◌≡◌, refl, Bool, true, false, none, some, List, [], ◌∷◌, ◌==◌, if◌then◌else◌, arith,
}
use dr_shadow_stack.ShadowStack.{Event, allows, check}

pub allows_of_wildcard : (w t a : ℕ) → (t == w) ≡ true → allows w t a ≡ true
unfolding allows
allows_of_wildcard w t a e = ground arith

pub allows_of_eq : (w t a : ℕ) → (a == t) ≡ true → allows w t a ≡ true
unfolding allows
allows_of_eq w t a e = ground arith

pub check-ret :
    (w t a : ℕ) (stk : List ℕ) → allows w t a ≡ true → check w (t ∷ stk) (Event.ret a) ≡ some stk
unfolding check
check-ret w t a stk m = rw m

pub allows_of_check :
    (w t a : ℕ) (stk s : List ℕ) → check w (t ∷ stk) (Event.ret a) ≡ some s → allows w t a ≡ true
unfolding check
allows_of_check w t a stk s h = go (allows w t a) h
  where
    go : (b : Bool) → (if b then some stk else none) ≡ some s → b ≡ true
    go true k = refl
    go false k = cc

pub not_allows : (w t a : ℕ) → (t == w) ≡ false → (a == t) ≡ false → allows w t a ≡ false
unfolding allows
not_allows w t a e g = ground arith

pub no_ret : (w a : ℕ) (s : List ℕ) → check w [] (Event.ret a) ≡ some s → ⊥
unfolding check
no_ret w a s h = cc
