-- ===== src/Mode.antt =====
-- ss_mode.hpp and ss_mode.cpp: the mode that the user has asked for.
pub mod Flags
use dr_shadow_stack.Base.{
  ap, ℕ, ◌+◌, ◌≡◌, subst, if◌then◌else◌, refl, sym, ◌∙◌, Bool, true, false, not, ◌||◌, some, List,
  [], ◌∷◌, codes, bytes_eq, eq_of_bytes_eq, Bool-cases, inl, inr,
}
use dr_shadow_stack.Text.{text}
use dr_shadow_stack.Platform.{Platform, World, M, strdup, syscall, pure, ◌>>=◌, ◌>>◌}
use dr_shadow_stack.Platform.Post.{Ends, Ends-and_then}
use dr_shadow_stack.Runtime.{assert}
use dr_shadow_stack.Runtime.Termination.{Ends-checked}
use dr_shadow_stack.Group.{failed}

pub record SsMode : Type 0 where
  pub str : List ℕ
  pub is_internal : Bool
  pub is_protected_internal : Bool
  pub is_external : Bool
  pub is_valid_mode : Bool

abbrev pub internal_mode_flag : List ℕ
internal_mode_flag = codes "int"

abbrev pub prot_internal_mode_flag : List ℕ
prot_internal_mode_flag = codes "prot_int"

abbrev pub external_mode_flag : List ℕ
external_mode_flag = codes "ext"

-- The members' initialisers, on the copy of the string.
unfoldable pub mode_of : List ℕ → SsMode
mode_of str = record {
  str = str;
  is_internal = bytes_eq str internal_mode_flag;
  is_protected_internal = bytes_eq str prot_internal_mode_flag;
  is_external = bytes_eq str external_mode_flag;
  is_valid_mode =
      bytes_eq str internal_mode_flag
      || bytes_eq str prot_internal_mode_flag
      || bytes_eq str external_mode_flag;
}

module _ (p : Platform) where
  unfoldable pub safe_strdup : List ℕ → M (List ℕ)
  safe_strdup s = do
    r ← syscall p (strdup s)
    assert p (not (failed r)) (some (text "strdup() failed." ∷ []))
    pure s

  -- The constructor.
  unfoldable pub ss_mode : List ℕ → M SsMode
  unfolding safe_strdup mode_of
  ss_mode m = do str ← safe_strdup m; pure (mode_of str)

abbrev bit : Bool → ℕ
bit true = 1
bit false = 0

-- How many flags are set.
abbrev pub flags_set : SsMode → ℕ
flags_set m = bit m.is_internal + bit m.is_protected_internal + bit m.is_external

mode_of-flags : (s : List ℕ) → flags_set (mode_of s) ≡ bit (mode_of s).is_valid_mode
unfolding mode_of
mode_of-flags s = elim (Bool-cases (bytes_eq s internal_mode_flag)) [
  | inl y ↦ from_flag internal_mode_flag (eq_of_bytes_eq s internal_mode_flag y) refl
  | inr n ↦ elim (Bool-cases (bytes_eq s prot_internal_mode_flag)) [
    | inl y ↦ from_flag prot_internal_mode_flag (eq_of_bytes_eq s prot_internal_mode_flag y) refl
    | inr m ↦ elim (Bool-cases (bytes_eq s external_mode_flag)) [
      | inl y ↦ from_flag external_mode_flag (eq_of_bytes_eq s external_mode_flag y) refl
      | inr k ↦ rw (n, m, k) refl
    ]
  ]
]
  where
    Count : List ℕ → Type 0
    Count x = flags_set (mode_of x) ≡ bit (mode_of x).is_valid_mode

    from_flag : (flag : List ℕ) → s ≡ flag → Count flag → Count s
    from_flag flag e c = subst Count (sym e) c

module _ (p : Platform) where
  -- On any kernel: the constructor of SSMode ends, by a return or with the group killed; a mode that
  -- it returns has the text that it was given, and exactly one of its three flags is set if it is
  -- valid, none if it is not.
  pub ss_mode-mode_of :
      (s : List ℕ) (w : World)
      → Ends
          (λ m v. (m ≡ mode_of s) × (v ≡ record w { trace = strdup s ∷ w.trace }))
          (ss_mode p s w)
  unfolding ss_mode safe_strdup
  ss_mode-mode_of s w =
      Ends-and_then (λ x v. (x ≡ s) × (v ≡ record w { trace = strdup s ∷ w.trace })) _
        (safe_strdup p s w) _
        (Ends-checked p (λ x v. (x ≡ s) × (v ≡ record w { trace = strdup s ∷ w.trace })) _ _ _ _
          (λ e. (refl, refl)))
        λ x v (e, g). (ap mode_of e, g)

  -- On any kernel: the constructor of SSMode ends, by a return or with the group killed; a mode that
  -- it returns has the text that it was given, and exactly one of its three flags is set if it is
  -- valid, none if it is not.
  pub ss_mode-Ends :
      (s : List ℕ) (w : World)
      → Ends
          (λ m _. (m.str ≡ s) × (flags_set m ≡ (if m.is_valid_mode then 1 else 0)))
          (ss_mode p s w)
  unfolding ss_mode safe_strdup mode_of
  ss_mode-Ends s w =
      Ends-and_then (λ x _. x ≡ s) _ (safe_strdup p s w) _
        (Ends-checked p (λ x _. x ≡ s) _ _ _ _ (λ e. refl))
        λ x v e. (e, mode_of-flags x ∙ bit_if (mode_of x).is_valid_mode)
    where
      bit_if : (b : Bool) → bit b ≡ (if b then 1 else 0)
      bit_if true = refl
      bit_if false = refl
