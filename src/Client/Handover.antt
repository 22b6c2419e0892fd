-- ===== src/Client/Handover.antt =====
-- The socket across an exec (on_execve and ExternalSS::setup of dr_external_ss_events.cpp): the new
-- program's client finds the descriptor of the old one in the environment that on_execve has left.
use mathlib.Core.Bool.{false≢true}
use dr_shadow_stack.Base.{
  ◌⊎◌, if◌then◌else◌, ℕ, ◌<◌, ◌≡◌, refl, sym, ap, ◌∙◌, true, false, Option, none, some, List, [],
  ◌∷◌, ◌++◌, ◌==◌, bytes_eq, bytes_eq_refl, eq_of_bytes_eq, Bool-cases, inl, inr, take-append,
  ==_iff,
}
use dr_shadow_stack.Text.{numeral}
use dr_shadow_stack.Platform.{Platform, World, strdup}
use dr_shadow_stack.Platform.Post.{Ends-of_Kills, Ends, IsNoLog, Ends-mono}
use dr_shadow_stack.Environment.{Environ, getenv, dr_ss_env_fd}
use dr_shadow_stack.Client.{copy_of, next_of, on_execve, starts_with, fd_entry, setup}
use dr_shadow_stack.Client.Execve.{NoneStarts, Replaced}
use dr_shadow_stack.Client.Session.{on_execve-Replaced}
use dr_shadow_stack.Client.Setup.{setup-inherits, setup-unset}

-- How getenv reads the entries of envp: the name up to the first '=', then the value. An entry
-- without one defines nothing.
abbrev cons_entry : ℕ → Option (List ℕ × List ℕ) → Option (List ℕ × List ℕ)
cons_entry c none = none
cons_entry c (some (k, v)) = some (c ∷ k, v)

unfoldable pub split_entry : List ℕ → Option (List ℕ × List ℕ)
split_entry [] = none
split_entry (c ∷ s) =
    let rest = split_entry s in if c == b'=' then some ([], s) else cons_entry c rest

abbrev define : Option (List ℕ × List ℕ) → Environ → Environ
define none env = env
define (some (k, v)) env = (k, v) ∷ env

unfoldable pub environ_of : List (List ℕ) → Environ
environ_of [] = []
environ_of (s ∷ env) = define (split_entry s) (environ_of env)

-- An entry that defines a name starts with the name.
split_entry-append : (s k v : List ℕ) → split_entry s ≡ some (k, v) → s ≡ k ++ b'=' ∷ v
unfolding split_entry
split_entry-append [] k v h = cc
split_entry-append (c ∷ s) k v h = elim (Bool-cases (c == b'=')) [
  | inl y ↦
      let e : some ([], s) ≡ some (k, v) = sym (rw y refl) ∙ h in
      let c' : c ≡ b'=' = (==_iff c b'=').0 y in cc
  | inr n ↦ consed (split_entry s) (λ k' v' m. split_entry-append s k' v' m) (sym (rw n refl) ∙ h)
]
  where
    consed :
        (o : Option (List ℕ × List ℕ))
        → ((k' v' : List ℕ) → o ≡ some (k', v') → s ≡ k' ++ b'=' ∷ v')
        → cons_entry c o ≡ some (k, v)
        → c ∷ s ≡ k ++ b'=' ∷ v
    consed none m e = cc
    consed (some (k', v')) m e =
        let i : s ≡ k' ++ b'=' ∷ v' = m k' v' refl in
        let j : k ≡ c ∷ k' = cc in
        let l : v ≡ v' = cc in ap (◌∷◌ c) i ∙ (λ x. sym j x ++ b'=' ∷ sym l x)

starts_with-append : (v : List ℕ) → starts_with (dr_ss_env_fd ++ b'=' ∷ v) dr_ss_env_fd ≡ true
starts_with-append v =
    ap (λ x. bytes_eq x dr_ss_env_fd) (take-append dr_ss_env_fd (b'=' ∷ v) refl)
    ∙ bytes_eq_refl dr_ss_env_fd

-- An entry that on_execve passes over does not define DR_SS_ENV_FD.
getenv-passed :
    (s : List ℕ) (env : List (List ℕ))
    → starts_with s dr_ss_env_fd ≡ false
    → getenv dr_ss_env_fd (environ_of (s ∷ env)) ≡ getenv dr_ss_env_fd (environ_of env)
unfolding environ_of getenv
getenv-passed s env h = go (split_entry s) refl
  where
    go :
        (o : Option (List ℕ × List ℕ))
        → split_entry s ≡ o
        → getenv dr_ss_env_fd (define o (environ_of env)) ≡ getenv dr_ss_env_fd (environ_of env)
    go none e = refl
    go (some (k, v)) e = elim (Bool-cases (bytes_eq k dr_ss_env_fd)) [
      | inl y ↦ absurd (
          false≢true (
            sym h
            ∙ ap (λ x. starts_with x dr_ss_env_fd)
                (split_entry-append s k v e
                  ∙ ap (λ x. x ++ b'=' ∷ v) (eq_of_bytes_eq k dr_ss_env_fd y))
            ∙ starts_with-append v))
      | inr n ↦ rw n refl
    ]

getenv-fd_entry :
    (before after : List (List ℕ)) (fd : List ℕ)
    → NoneStarts before
    → getenv dr_ss_env_fd (environ_of (before ++ fd_entry fd ∷ after)) ≡ some fd
unfolding environ_of getenv split_entry
getenv-fd_entry [] after fd h = refl
getenv-fd_entry (s ∷ before) after fd h =
    getenv-passed s (before ++ fd_entry fd ∷ after) h.0 ∙ getenv-fd_entry before after fd h.1

getenv-cut :
    (before : List (List ℕ))
    → NoneStarts before
    → getenv dr_ss_env_fd (environ_of (before ++ [])) ≡ none
unfolding environ_of getenv
getenv-cut [] h = refl
getenv-cut (s ∷ before) h = getenv-passed s (before ++ []) h.0 ∙ getenv-cut before h.1

-- The variable in the new envp, which is missing if strdup has failed.
getenv-Replaced :
    (env env' : List (List ℕ)) (fd : List ℕ) (r : Option ℕ)
    → Replaced env env' (copy_of (fd_entry fd) r)
    → (getenv dr_ss_env_fd (environ_of env') ≡ some fd)
      ⊎ (getenv dr_ss_env_fd (environ_of env') ≡ none)
getenv-Replaced env env' fd none r =
    inr (ap (λ e. getenv dr_ss_env_fd (environ_of e)) r.now ∙ getenv-cut r.before r.first)
getenv-Replaced env env' fd (some k) r = inl (
    ap (λ e. getenv dr_ss_env_fd (environ_of e)) r.now
    ∙ getenv-fd_entry r.before r.after fd r.first)

-- On any kernel, for an envp that has an entry whose name starts with DR_SS_ENV_FD, a socket that is
-- no log descriptor, and a client whose variable spells a descriptor that an int can hold: on_execve
-- ends, by a return or with the group killed, and after a return ExternalSS::setup in any process
-- with the environment of the new envp ends too, and if it returns it has chosen the same
-- descriptor.
pub on_execve-setup :
    (p : Platform) (sock n : ℕ) (env : List (List ℕ)) (s path : List ℕ) (w w' : World)
    → next_of env ≡ some s
    → IsNoLog w sock
    → getenv dr_ss_env_fd w.environ ≡ some (numeral 10 n)
    → n < 2147483648
    → Ends
        (λ env' _.
          Ends (λ s' _. s' ≡ some n) (setup p path (record w' { environ = environ_of env' })))
        (on_execve p sock env w)
on_execve-setup p sock n env s path w w' h apart g small =
    Ends-mono _ _ (on_execve p sock env w) (on_execve-Replaced p sock env s w h apart)
      λ env' v (fd, is, h', r, _).
        let same : fd ≡ numeral 10 n = let q : some fd ≡ some (numeral 10 n) = sym is ∙ g in cc in
        let found = getenv-Replaced env env' fd (p.result h' (strdup (fd_entry fd))) r in
        elim found [
          | inl e ↦
              Ends-mono _ _ (setup p path (after env'))
                (setup-inherits p path n (after env') small (e ∙ ap some same)) λ s' _ q. q.0
          | inr e ↦ Ends-of_Kills _ (setup p path (after env')) (setup-unset p path (after env') e)
        ]
  where
    after : List (List ℕ) → World
    after env' = record w' { environ = environ_of env' }
