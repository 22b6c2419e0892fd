-- ===== src/Environment.antt =====
-- The environment of a process as main and the clients use it (shadow_stack.cpp,
-- dr_external_ss_events.cpp): getenv, setenv and unsetenv of the C library, on a list of variables.
use dr_shadow_stack.Base.{
  false, sym, ap, ◌∙◌, bytes_eq_refl, eq_of_bytes_eq, ℕ, ◌≡◌, refl, Option, none, some, List, [],
  ◌∷◌, bytes_eq, if◌then◌else◌, Bool-cases, inl, inr, codes,
}

abbrev pub Environ : Type 0
Environ = List (List ℕ × List ℕ)

-- DR_SS_ENV_SOCK and DR_SS_ENV_FD of constants.hpp.
abbrev pub dr_ss_env_sock : List ℕ
dr_ss_env_sock = codes "DR_SS_ENV_SOCK_VAR"

abbrev pub dr_ss_env_fd : List ℕ
dr_ss_env_fd = codes "DR_SS_ENV_FD_VAR"

unfoldable pub getenv : List ℕ → Environ → Option (List ℕ)
getenv name [] = none
getenv name ((k, v) ∷ env) = if bytes_eq k name then some v else getenv name env

-- Every definition of the name goes.
unfoldable pub unsetenv : List ℕ → Environ → Environ
unsetenv name [] = []
unsetenv name ((k, v) ∷ env) =
    if bytes_eq k name then unsetenv name env else (k, v) ∷ unsetenv name env

-- With a nonzero `overwrite`.
unfoldable pub setenv : List ℕ → List ℕ → Environ → Environ
setenv name value [] = (name, value) ∷ []
setenv name value ((k, v) ∷ env) =
    if bytes_eq k name then (name, value) ∷ env else (k, v) ∷ setenv name value env

-- A variable that has been unset is found no more, however often it was defined.
pub getenv-unsetenv : (name : List ℕ) (env : Environ) → getenv name (unsetenv name env) ≡ none
unfolding getenv unsetenv
getenv-unsetenv name [] = refl
getenv-unsetenv name ((k, v) ∷ env) = elim (Bool-cases (bytes_eq k name)) [
  | inl y ↦ rw y (getenv-unsetenv name env)
  | inr n ↦ rw (n, getenv, n) (getenv-unsetenv name env)
]

pub getenv-setenv :
    (name value : List ℕ) (env : Environ) → getenv name (setenv name value env) ≡ some value
unfolding getenv setenv
getenv-setenv name value [] = rw (bytes_eq_refl name) refl
getenv-setenv name value ((k, v) ∷ env) = elim (Bool-cases (bytes_eq k name)) [
  | inl y ↦ rw (y, getenv, bytes_eq_refl name) refl
  | inr n ↦ rw (n, getenv, n) (getenv-setenv name value env)
]

-- Other variables keep their values.
pub getenv-setenv_other :
    (name other value : List ℕ) (env : Environ)
    → bytes_eq other name ≡ false
    → getenv name (setenv other value env) ≡ getenv name env
unfolding getenv setenv
getenv-setenv_other name other value [] d = rw d refl
getenv-setenv_other name other value ((k, v) ∷ env) d = elim (Bool-cases (bytes_eq k other)) [
  | inl y ↦
      rw (y, getenv, d)
        (ap (λ b. if b then some v else getenv name env)
          (sym (ap (λ x. bytes_eq x name) (eq_of_bytes_eq k other y) ∙ d)))
  | inr n ↦
      rw n (
        ap (λ o. if bytes_eq k name then some v else o)
          (getenv-setenv_other name other value env d))
]
