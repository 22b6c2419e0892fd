-- ===== src/Client/Execve.antt =====
-- `on_execve` of the external client (dr_external_ss_events.cpp): which entry of envp it overwrites, and
-- what the new program finds there.
use dr_shadow_stack.Base.{
  Option, ℕ, ◌≡◌, refl, sym, ap, ◌∙◌, subst, true, false, some, List, [], ◌∷◌, ◌++◌, codes,
  bytes_eq, bytes_eq_refl, Bool-cases, inl, inr, take-append,
}
use dr_shadow_stack.Environment.{dr_ss_env_fd}
use dr_shadow_stack.Client.{put_entry, starts_with, replace_fd, next_of, fd_entry}

-- No entry of the list defines DR_SS_ENV_FD or a longer name.
abbrev pub NoneStarts : List (List ℕ) → Type 0
NoneStarts [] = Unit {0}
NoneStarts (s ∷ env) = (starts_with s dr_ss_env_fd ≡ false) × NoneStarts env

-- The first entry whose name starts with DR_SS_ENV_FD gives way to `entry`, or the list ends before it.
pub record Replaced (env env' : List (List ℕ)) (entry : Option (List ℕ)) : Type 0 where
  pub before : List (List ℕ)
  pub old : List ℕ
  pub after : List (List ℕ)
  pub was : env ≡ before ++ old ∷ after
  pub now : env' ≡ before ++ put_entry entry after
  pub first : NoneStarts before
  pub matches : starts_with old dr_ss_env_fd ≡ true

replace_fd-hit :
    (s : List ℕ) (env : List (List ℕ)) (entry : Option (List ℕ))
    → starts_with s dr_ss_env_fd ≡ true
    → replace_fd (s ∷ env) entry ≡ some (put_entry entry env)
unfolding replace_fd
replace_fd-hit s env entry y = rw (y, replace_fd)

replace_fd-miss :
    (s : List ℕ) (env env' : List (List ℕ)) (entry : Option (List ℕ))
    → starts_with s dr_ss_env_fd ≡ false
    → replace_fd env entry ≡ some env'
    → replace_fd (s ∷ env) entry ≡ some (s ∷ env')
unfolding replace_fd
replace_fd-miss s env env' entry n e = rw (n, e, replace_fd)

next_of-hit :
    (s : List ℕ) (env : List (List ℕ))
    → starts_with s dr_ss_env_fd ≡ true
    → next_of (s ∷ env) ≡ some s
unfolding next_of
next_of-hit s env y = rw y

next_of-miss :
    (s : List ℕ) (env : List (List ℕ))
    → starts_with s dr_ss_env_fd ≡ false
    → next_of (s ∷ env) ≡ next_of env
unfolding next_of
next_of-miss s env n = rw n

-- If the search finds an entry whose name starts with DR_SS_ENV_FD, the replacement succeeds and
-- changes the first such entry and no other.
pub replace_fd_lem :
    (env : List (List ℕ)) (entry : Option (List ℕ)) (s : List ℕ)
    → next_of env ≡ some s
    → (env' : List (List ℕ)) × (replace_fd env entry ≡ some env') × Replaced env env' entry
unfolding next_of
replace_fd_lem [] entry s h = cc
replace_fd_lem (x ∷ env) entry s h = elim (Bool-cases (starts_with x dr_ss_env_fd)) [
  | inl y ↦ (
    put_entry entry env,
    replace_fd-hit x env entry y,
    record { before = []; old = x; after = env; was = refl; now = refl; first = tt; matches = y },
  )
  | inr n ↦
      let (env', e, r) = replace_fd_lem env entry s (sym (next_of-miss x env n) ∙ h) in
      (
        x ∷ env',
        replace_fd-miss x env env' entry n e,
        record {
          before = x ∷ r.before;
          old = r.old;
          after = r.after;
          was = ap (◌∷◌ x) r.was;
          now = ap (◌∷◌ x) r.now;
          first = (n, r.first);
          matches = r.matches;
        },
      )
]

next_of-append :
    (before after : List (List ℕ)) (entry : List ℕ)
    → NoneStarts before
    → starts_with entry dr_ss_env_fd ≡ true
    → next_of (before ++ entry ∷ after) ≡ some entry
next_of-append [] after entry h y = next_of-hit entry after y
next_of-append (x ∷ before) after entry h y =
    next_of-miss x (before ++ entry ∷ after) h.0 ∙ next_of-append before after entry h.1 y

starts_with-fd_entry : (fd : List ℕ) → starts_with (fd_entry fd) dr_ss_env_fd ≡ true
starts_with-fd_entry fd =
    subst (λ xs. bytes_eq xs dr_ss_env_fd ≡ true)
      (sym (take-append dr_ss_env_fd (codes "=" ++ fd) refl)) (bytes_eq_refl dr_ss_env_fd)

-- If an envp has been changed by on_execve's rule to hold a descriptor, the same search in the new
-- envp stops at that descriptor's entry.
pub next_of-Replaced :
    (env env' : List (List ℕ)) (fd : List ℕ)
    → Replaced env env' (some (fd_entry fd))
    → next_of env' ≡ some (fd_entry fd)
next_of-Replaced env env' fd r =
    ap next_of r.now
    ∙ next_of-append r.before r.after (fd_entry fd) r.first (starts_with-fd_entry fd)
