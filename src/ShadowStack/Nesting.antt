-- ===== src/ShadowStack/Nesting.antt =====
-- The histories that a shadow stack lets pass, told with no stack: those in which every return closes
-- the frame that its call, or a signal's delivery, has opened.
use dr_shadow_stack.Base.{
  ℕ, ◌≡◌, refl, sym, ap, ◌∙◌, true, false, none, some, List, [], ◌∷◌, ◌++◌, append_assoc, arith,
  inl, inr, ◌↔◌, Bool-cases, Option-cases, ==_refl,
}
use dr_shadow_stack.ShadowStack.{Event, call, ret, signal, execve, allows, check, run}

pub data WellNested (wildcard : ℕ) : List Event → Type 0 where
  done : WellNested wildcard []
  frame :
      (a b : ℕ) (body rest : List Event) {es : List Event}
      → allows wildcard a b ≡ true
      → WellNested wildcard body
      → WellNested wildcard rest
      → es ≡ call a ∷ (body ++ ret b ∷ rest)
      → WellNested wildcard es
  handler :
      (b : ℕ) (body rest : List Event) {es : List Event}
      → WellNested wildcard body
      → WellNested wildcard rest
      → es ≡ signal ∷ (body ++ ret b ∷ rest)
      → WellNested wildcard es

-- A history without exec, which would forget all open frames.
abbrev pub HasNoExecve : List Event → Type 0
HasNoExecve [] = Unit {0}
HasNoExecve (execve ∷ es) = ⊥
HasNoExecve (_ ∷ es) = HasNoExecve es

-- The history splits into a well-nested part for each open frame, each closed by its return, and a
-- well-nested rest.
abbrev Closes : ℕ → List ℕ → List Event → Type 0
Closes wildcard [] es = WellNested wildcard es
Closes wildcard (top ∷ stk) es =
    (body : List Event) × (b : ℕ) × (rest : List Event) × (es ≡ body ++ ret b ∷ rest)
    × (allows wildcard top b ≡ true)
    × WellNested wildcard body
    × Closes wildcard stk rest

module _ (wildcard : ℕ) where
  pub run-nil : (stk : List ℕ) → run wildcard stk [] ≡ some stk
  unfolding run
  run-nil stk = refl

  pub run-step :
      (stk s : List ℕ) (e : Event) (es : List Event)
      → check wildcard stk e ≡ some s
      → run wildcard stk (e ∷ es) ≡ run wildcard s es
  unfolding run
  run-step stk s e es c = rw (c, run)

  pub run-stop :
      (stk : List ℕ) (e : Event) (es : List Event)
      → check wildcard stk e ≡ none
      → run wildcard stk (e ∷ es) ≡ none
  unfolding run
  run-stop stk e es c = rw (c, run)

  pub run-some :
      (stk t : List ℕ) (e : Event) (es : List Event)
      → run wildcard stk (e ∷ es) ≡ some t
      → (s : List ℕ) × (check wildcard stk e ≡ some s) × (run wildcard s es ≡ some t)
  run-some stk t e es h = elim (Option-cases (check wildcard stk e)) [
    | inl c ↦ let c' : run wildcard stk (e ∷ es) ≡ none = run-stop stk e es c in cc
    | inr (s, c) ↦ (s, c, sym (run-step stk s e es c) ∙ h)
  ]

  pub run-append :
      (stk mid : List ℕ) (es fs : List Event)
      → run wildcard stk es ≡ some mid
      → run wildcard stk (es ++ fs) ≡ run wildcard mid fs
  unfolding run
  run-append stk mid [] fs h = ap (λ s. run wildcard s fs) (ground arith)
  run-append stk mid (e ∷ es) fs h =
      let (s, c, k) = run-some stk mid e es h in
      run-step stk s e (es ++ fs) c ∙ run-append s mid es fs k

  check-ret :
      (top b : ℕ) (stk : List ℕ)
      → allows wildcard top b ≡ true
      → check wildcard (top ∷ stk) (ret b) ≡ some stk
  unfolding check
  check-ret top b stk m = rw m

  pub check-ret_not :
      (top b : ℕ) (stk : List ℕ)
      → allows wildcard top b ≡ false
      → check wildcard (top ∷ stk) (ret b) ≡ none
  unfolding check
  check-ret_not top b stk m = rw m

  allows-wildcard : (b : ℕ) → allows wildcard wildcard b ≡ true
  unfolding allows
  allows-wildcard b = ground (arith, ==_refl wildcard)

  close :
      (top b : ℕ) (stk : List ℕ) (body rest : List Event)
      → allows wildcard top b ≡ true
      → run wildcard (top ∷ stk) body ≡ some (top ∷ stk)
      → run wildcard stk rest ≡ some stk
      → run wildcard (top ∷ stk) (body ++ ret b ∷ rest) ≡ some stk
  close top b stk body rest m x y =
      run-append _ _ body (ret b ∷ rest) x ∙ run-step _ _ (ret b) rest (check-ret top b stk m) ∙ y

  -- A well-nested history passes, and leaves the stack as it found it.
  pub WellNested-run :
      {es : List Event} → WellNested wildcard es → (stk : List ℕ) → run wildcard stk es ≡ some stk
  unfolding run check
  WellNested-run done stk = refl
  WellNested-run (frame a b body rest m x y e) stk =
      rw e (close a b stk body rest m (WellNested-run x (a ∷ stk)) (WellNested-run y stk))
  WellNested-run (handler b body rest x y e) stk = rw e (
      close wildcard b stk body rest (allows-wildcard b) (WellNested-run x (wildcard ∷ stk))
        (WellNested-run y stk))

  -- What a push puts before a closing history: one more frame, closed first.
  module _ (top : ℕ) (push : Event)
      (nest : (b : ℕ) (body rest : List Event)
        → allows wildcard top b ≡ true
        → WellNested wildcard body
        → WellNested wildcard rest
        → WellNested wildcard (push ∷ (body ++ ret b ∷ rest))) where
    Closes-push :
        (stk : List ℕ) (es : List Event)
        → Closes wildcard (top ∷ stk) es
        → Closes wildcard stk (push ∷ es)
    Closes-push [] es (body, b, rest, e, m, x, y) = rw e (nest b body rest m x y)
    Closes-push (t ∷ stk) es (body, b, rest, e, m, x, (body', c, rest', e', m', x', y)) =
        (push ∷ (body ++ ret b ∷ body'), c, rest', joined, m', nest b body body' m x x', y)
      where
        joined : push ∷ es ≡ push ∷ (body ++ ret b ∷ body') ++ ret c ∷ rest'
        joined =
            ap (λ es. push ∷ es)
              (e
                ∙ ap (λ r. body ++ ret b ∷ r) e'
                ∙ sym (append_assoc body (ret b ∷ body') (ret c ∷ rest')))

  Closes-of_run :
      (stk : List ℕ) (es : List Event)
      → HasNoExecve es
      → run wildcard stk es ≡ some []
      → Closes wildcard stk es
  unfolding run check
  Closes-of_run [] [] n h = done
  Closes-of_run (t ∷ stk) [] n h = cc
  Closes-of_run stk (call a ∷ es) n h =
      Closes-push a (call a) (λ b body rest m x y. frame a b body rest m x y refl) stk es
        (Closes-of_run (a ∷ stk) es n h)
  Closes-of_run stk (signal ∷ es) n h =
      Closes-push wildcard signal (λ b body rest m x y. handler b body rest x y refl) stk es
        (Closes-of_run (wildcard ∷ stk) es n h)
  Closes-of_run stk (execve ∷ es) n h = elim n [ ]
  Closes-of_run [] (ret b ∷ es) n h = cc
  Closes-of_run (top ∷ stk) (ret b ∷ es) n h = elim (Bool-cases (allows wildcard top b)) [
    | inl m ↦ (
      [],
      b,
      es,
      refl,
      m,
      done,
      Closes-of_run stk es n
          (sym (run-step (top ∷ stk) stk (ret b) es (check-ret top b stk m)) ∙ h),
    )
    | inr m ↦ let stop = run-stop (top ∷ stk) (ret b) es (check-ret_not top b stk m) in cc
  ]

  -- Exactly the well-nested histories bring an empty stack back to an empty stack.
  pub run-WellNested :
      (es : List Event) → HasNoExecve es → (run wildcard [] es ≡ some []) ↔ WellNested wildcard es
  run-WellNested es n = (Closes-of_run [] es n, λ w. WellNested-run w [])
