-- ===== src/Group.antt =====
-- The setup half of group.cpp: the process group of DrShadowStack and its signal handlers.
pub mod Setup
use dr_shadow_stack.Base.{
  ℕ, zero, suc, Bool, true, false, not, ◌&&◌, ◌||◌, Option, none, some, List, [], ◌∷◌, ◌==◌,
  if◌then◌else◌,
}
use dr_shadow_stack.Text.{Arg, text, bytes, number}
use dr_shadow_stack.Platform.{
  Platform, World, M, Disposition, default_signal_handler, setsid, getpgrp, signal, syscall, skip,
  ◌>>=◌, ◌>>◌,
}
use dr_shadow_stack.Runtime.{
  strerror_now, log, log_error, terminate, TerminateOnDestruction, tod, disable, destroy,
}

-- SIGKILL, SIGSTOP, SIGURG, SIGCONT, SIGCHLD, SIGIO and SIGWINCH by their numbers on Linux, and 0.
unfoldable pub no_change : List ℕ
no_change = 9 ∷ 19 ∷ 23 ∷ 18 ∷ 17 ∷ 29 ∷ 28 ∷ 0 ∷ []

-- `no_change.find( i ) != no_change.end()`
unfoldable pub in_set : ℕ → List ℕ → Bool
in_set i [] = false
in_set i (x ∷ xs) = x == i || in_set i xs

-- _NSIG and EINVAL on Linux.
abbrev pub nsig : ℕ
nsig = 65

abbrev pub einval : ℕ
einval = 22

abbrev pub failed : Option ℕ → Bool
failed none = true
failed (some r) = false

abbrev pub value_of : Option ℕ → ℕ
value_of none = 0
value_of (some r) = r

module _ (p : Platform) where
  -- The handler that most signals get.
  unfoldable pub handle_signal : ℕ → M (Unit {0})
  handle_signal sig = do
    log_error p (
        text "\nSignal "
        ∷ number sig
        ∷ text " ("
        ∷ bytes (p.strsignal sig)
        ∷ text ") caught.\nTerminating process group..."
        ∷ [])
    terminate p none true

  -- The second half of the test on a call of signal: errno, once the call has failed.
  abbrev pub failure_report : ℕ → World → List Arg
  failure_report i w =
      text "failed to change signal handler of signal: "
      ∷ number i
      ∷ text "\nstrerror returns: "
      ∷ bytes (strerror_now p w)
      ∷ []

  unfoldable pub check_changed : ℕ → Option ℕ → M (Unit {0})
  check_changed i r w =
      (if failed r && not (p.errno w.trace == einval)
          then (do log_error p (failure_report i w); terminate p none true)
          else skip)
        w

  -- The body of the loop.
  unfoldable pub change_handler : ℕ → M (Unit {0})
  unfolding check_changed
  change_handler i =
      if in_set i no_change
      then skip
      else (do r ← syscall p (signal i default_signal_handler); check_changed i r)

  -- The rest of the loop: `n` signals from `i` on.
  unfoldable pub change_handlers : ℕ → ℕ → M (Unit {0})
  unfolding change_handler
  change_handlers zero i = skip
  change_handlers (suc n) i = do change_handler i; change_handlers n (suc i)

  unfoldable pub set_default_signal_handler : M (Unit {0})
  unfolding change_handlers
  set_default_signal_handler = change_handlers nsig 1

  -- The first branch of `Group::setup`, and its whole.
  unfoldable pub set_up_group : M (Unit {0})
  unfolding set_default_signal_handler
  set_up_group = do
    λ v. skip (record v { setup_complete = true })
    _ ← syscall p setsid
    id ← syscall p getpgrp
    log p (text "Setup group with group id: " ∷ number (value_of id) ∷ [])
    set_default_signal_handler
    log p (text "Remapped signal handlers" ∷ [])

  unfoldable pub setup : M (Unit {0})
  unfolding set_up_group
  setup = do
    λ w.
        (if not w.setup_complete
            then set_up_group
            else terminate p
                (some (text "ERROR: setup is complete already.\n\tTerminating program...\n" ∷ []))
                true)
          w
    destroy p (disable tod)
