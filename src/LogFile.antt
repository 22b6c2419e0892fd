-- ===== src/LogFile.antt =====
-- Utilities::setup and get_fd of utilities.cpp: the opening of the log, whose failure ends the process
-- and not the group.
use dr_shadow_stack.Base.{
  ==_iff, Bool-cases, arith, ◌⊎◌, ℕ, ◌≡◌, refl, ap, Bool, true, false, not, ◌&&◌, Option, none,
  some, List, [], ◌∷◌, ◌==◌, if◌then◌else◌, inl, inr,
}
use dr_shadow_stack.Text.{Arg, text}
use dr_shadow_stack.Platform.{
  Platform, World, M, Outcome, Syscall, unlink_log, open_log, fileno, syscall, skip, pure, exited,
  returns, and_then, ◌>>=◌, ◌>>◌,
}
use dr_shadow_stack.Platform.Post.{Returns-inv, Frame}
use dr_shadow_stack.Runtime.{log_error}
use dr_shadow_stack.Runtime.Logging.{Works, log_error-Returns}
use dr_shadow_stack.Group.{failed}

abbrev pub enoent : ℕ
enoent = 2

module _ (p : Platform) where
  -- fileno's result, with its error check.
  abbrev pub checked_fd : Option ℕ → M (Option ℕ)
  checked_fd none w = exited 1 w
  checked_fd (some fd) w = returns (some fd) w

  -- `get_fd`, whose argument is only compared with nullptr.
  unfoldable pub get_fd : Bool → M (Option ℕ)
  get_fd is_null = if is_null then pure none else (do ret ← syscall p fileno; checked_fd ret)

  -- `log_error( ... ); exit( EXIT_FAILURE );`
  abbrev pub give_up : List Arg → M (Unit {0})
  give_up args = do log_error p args; λ w. exited 1 w

  -- The test of unlink's result, with errno.
  unfoldable pub check_unlink : Option ℕ → M (Unit {0})
  check_unlink r w =
      (if failed r && not (p.errno w.trace == enoent)
          then give_up (text "unlink() failed." ∷ [])
          else skip)
        w

  unfoldable pub remove_log : Bool → M (Unit {0})
  unfolding check_unlink
  remove_log clear_log = if clear_log then (do r ← syscall p unlink_log; check_unlink r) else skip

  unfoldable pub store_log : Option ℕ → M (Unit {0})
  store_log none = give_up (text "open() failed." ∷ [])
  store_log (some fd) = λ w. skip (record w { log_fd = some fd })

  -- `Utilities::setup`; `has_log_file` says whether the build defines LOG_FILE.
  unfoldable pub open_log_file : Bool → Bool → M (Unit {0})
  unfolding remove_log store_log
  open_log_file has_log_file clear_log =
      if has_log_file
      then (do remove_log clear_log; fd ← syscall p open_log; store_log fd)
      else skip

-- The old log is gone, or need not go.
abbrev pub MayOpen : Platform → Bool → World → Type 0
MayOpen p clear_log w =
    (clear_log ≡ false)
    ⊎ (failed (p.result w.trace unlink_log) ≡ false)
    ⊎ (p.errno (unlink_log ∷ w.trace) ≡ enoent)

-- The calls before that of open.
abbrev pub before_open : Bool → World → List Syscall
before_open clear_log w = if clear_log then unlink_log ∷ w.trace else w.trace

-- How the setup of a build with a log ends: with the descriptor that open has given, or with status 1.
pub data Opened (p : Platform) (clear_log : Bool) (w : World) (o : Outcome (Unit {0}))
    : Type 0 where
  opened :
      (fd : ℕ)
      → MayOpen p clear_log w
      → p.result (before_open clear_log w) open_log ≡ some fd
      → o ≡ returns tt (record w { trace = open_log ∷ before_open clear_log w; log_fd = some fd })
      → Opened p clear_log w o
  not_opened :
      (v : World)
      → MayOpen p clear_log w
      → p.result (before_open clear_log w) open_log ≡ none
      → o ≡ exited 1 v
      → Frame (record w { trace = open_log ∷ before_open clear_log w }) v
      → Opened p clear_log w o
  not_cleared :
      (v : World)
      → ¬ MayOpen p clear_log w
      → o ≡ exited 1 v
      → Frame (record w { trace = unlink_log ∷ w.trace }) v
      → Opened p clear_log w o

module _ (p : Platform) (ok : Works p) where
  give_up-exits :
      (args : List Arg) (w : World) → (v : World) × (give_up p args w ≡ exited 1 v) × Frame w v
  give_up-exits args w =
      let (_, v, e, q) =
        Returns-inv (λ _ v. Frame w v) (log_error p args w) (log_error-Returns p ok args w) in
      (v, ap (λ o. and_then o (λ _ u. exited 1 u)) e, q)

  store_log-Opened :
      (clear_log : Bool) (w : World) (r : Option ℕ)
      → MayOpen p clear_log w
      → p.result (before_open clear_log w) open_log ≡ r
      → Opened p clear_log w
          (store_log p r (record w { trace = open_log ∷ before_open clear_log w }))
  unfolding store_log
  store_log-Opened clear_log w (some fd) may g = opened fd may g refl
  store_log-Opened clear_log w none may g =
      let (v, x, q) =
        give_up-exits (text "open() failed." ∷ [])
          (record w { trace = open_log ∷ before_open clear_log w }) in
      not_opened v may g x q

  -- On a kernel on which write, gettid, recv and the setting of thread fields succeed, in a build
  -- with a log: Utilities::setup ends in one of three ways. Where the log need not be cleared, or
  -- unlink succeeds or fails with ENOENT, it calls open: if that succeeds, it returns with its
  -- descriptor as the log's and nothing else changed but the calls made; if it fails, the process
  -- exits with status 1. Where the log has to be cleared and unlink fails otherwise, open is not
  -- called and the process exits with status 1. Before an exit it has only logged, and the group is
  -- not killed.
  pub open_log_file-Opened :
      (clear_log : Bool) (w : World) → Opened p clear_log w (open_log_file p true clear_log w)
  unfolding open_log_file remove_log check_unlink
  open_log_file-Opened false w = store_log-Opened false w _ (inl refl) refl
  open_log_file-Opened true w = elim (Bool-cases (failed (p.result w.trace unlink_log))) [
    | inl y ↦ elim (Bool-cases (p.errno (unlink_log ∷ w.trace) == enoent)) [
      | inl z ↦ rw (y, z) (store_log-Opened true w _ (inr (inr ((==_iff _ enoent).0 z))) refl)
      | inr n ↦
          let (v, x, q) =
            give_up-exits (text "unlink() failed." ∷ [])
              (record w { trace = unlink_log ∷ w.trace }) in
          rw (y, n)
            (not_cleared v (refused y n)
              (ap (λ o. and_then o (λ _. do fd ← syscall p open_log; store_log p fd)) x) q)
    ]
    | inr m ↦ rw m (store_log-Opened true w _ (inr (inl m)) refl)
  ]
    where
      refused :
          failed (p.result w.trace unlink_log) ≡ true
          → (p.errno (unlink_log ∷ w.trace) == enoent) ≡ false
          → ¬ MayOpen p true w
      refused y n (inl e) = cc
      refused y n (inr (inl e)) = cc
      refused y n (inr (inr e)) = ground arith
