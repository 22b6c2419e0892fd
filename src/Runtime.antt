-- ===== src/Runtime.antt =====
-- utilities.hpp, utilities.cpp and the termination half of group.cpp. Logging, error checks and
-- group termination call one another, so they stand in one block, on fuel: each call takes one unit
-- of it, and Runtime/Termination shows that sixteen are never used up.
pub mod Termination
pub mod Fuel
pub mod Logging
pub mod Failure
use dr_shadow_stack.Base.{
  ℕ, zero, suc, Bool, true, false, Option, none, some, List, [], ◌∷◌, ◌++◌, codes, length, ◌==◌,
  if◌then◌else◌,
}
use dr_shadow_stack.Text.{Arg, text, bytes, write_log_helper}
use dr_shadow_stack.Platform.{
  Platform, World, M, write, gettid, fflush, killpg, killed, returns, out_of_fuel, syscall, skip,
  pure, ◌>>=◌, ◌>>◌,
}

abbrev pub tid_failed : List Arg
tid_failed = text "get_tid() failed." ∷ []

-- `kill_9_group`: it does not return.
abbrev pub kill_9_group {ℓ} : {A : Type ℓ} → M A
kill_9_group w = killed (record w { trace = killpg ∷ w.trace })

-- `write( fd, str, len ) == (ssize_t) len`
abbrev pub wrote_all : Option ℕ → ℕ → Bool
wrote_all none n = false
wrote_all (some r) n = r == n

abbrev exhausted {ℓ} : {A : Type ℓ} → M A
exhausted w = out_of_fuel

module _ (p : Platform) where
  abbrev pub strerror_now : World → List ℕ
  strerror_now w = p.strerror (p.errno w.trace)

  unfoldable mutual
    -- `Group::terminate`. A message is passed as the streamed arguments, `none` for nullptr.
    pub terminate_on : ℕ → Option (List Arg) → Bool → M (Unit {0})
    terminate_on zero msg is_error = exhausted
    terminate_on (suc f) msg is_error = λ w. elim w.terminate_already_called [
      | true ↦ kill_9_group w
      | false ↦
          (do announce_on f msg is_error; _ ← syscall p fflush; kill_9_group)
            (record w { terminate_already_called = true })
    ]

    -- The choice of log function in `Group::terminate`.
    pub announce_on : ℕ → Option (List Arg) → Bool → M (Unit {0})
    announce_on zero msg is_error = exhausted
    announce_on (suc f) none is_error = skip
    announce_on (suc f) (some s) true = log_error_on f s
    announce_on (suc f) (some s) false = message_on f s

    pub log_error_on : ℕ → List Arg → M (Unit {0})
    log_error_on zero args = exhausted
    log_error_on (suc f) args = do
      λ w. write_log_on f w.log_fd args w
      λ w. write_log_on f w.error_fd args w

    pub message_on : ℕ → List Arg → M (Unit {0})
    message_on zero args = exhausted
    message_on (suc f) args = do
      λ w. write_log_on f w.log_fd args w
      λ w. write_log_on f w.stdout_fd args w

    pub write_log_on : ℕ → Option ℕ → List Arg → M (Unit {0})
    write_log_on zero fd args = exhausted
    write_log_on (suc f) none args = skip
    write_log_on (suc f) (some fd) args = do
      prefix ← tid_prefix_on f
      let str = prefix ++ write_log_helper args ++ codes "\n"
      r ← syscall p (write fd str)
      assert_on f (wrote_all r (length str)) none

    -- `if ( is_multi_thread_or_proccess ) stream << get_tid() << ": "`
    pub tid_prefix_on : ℕ → M (List ℕ)
    tid_prefix_on zero = exhausted
    tid_prefix_on (suc f) = λ w.
        (if w.is_multi_thread_or_process
            then (do tid ← get_tid_on f; pure (write_log_helper (Arg.number tid ∷ text ": " ∷ [])))
            else pure [])
          w

    pub get_tid_on : ℕ → M ℕ
    get_tid_on zero = exhausted
    get_tid_on (suc f) = do
      r ← syscall p gettid
      elim r [
        | some tid ↦ pure tid
        | none ↦ λ w.
            (do terminate_on f (some tid_failed) true; pure 0)
              (record w { is_multi_thread_or_process = false })
      ]

    -- `Utilities::assert` and `Utilities::err`.
    pub assert_on : ℕ → Bool → Option (List Arg) → M (Unit {0})
    assert_on zero b s = exhausted
    assert_on (suc f) true s = skip
    assert_on (suc f) false s = err_on f s

    pub err_on : ℕ → Option (List Arg) → M (Unit {0})
    err_on zero s = exhausted
    err_on (suc f) none = terminate_on f none true
    err_on (suc f) (some s) = do
      λ w. log_error_on f (s ++ text "\nMessage from strerror: " ∷ bytes (strerror_now w) ∷ []) w
      terminate_on f none true

  -- The entry points: sixteen units are more than any run uses.
  unfoldable pub terminate : Option (List Arg) → Bool → M (Unit {0})
  terminate = terminate_on 16

  unfoldable pub err : Option (List Arg) → M (Unit {0})
  err = err_on 16

  unfoldable pub assert : Bool → Option (List Arg) → M (Unit {0})
  assert = assert_on 16

  unfoldable pub log : List Arg → M (Unit {0})
  log args w = write_log_on 16 w.log_fd args w

  unfoldable pub log_error : List Arg → M (Unit {0})
  log_error = log_error_on 16

  unfoldable pub message : List Arg → M (Unit {0})
  message = message_on 16

  unfoldable pub get_tid : M ℕ
  get_tid = get_tid_on 16

  -- It logs in a build with DEBUG_MODE and VERBOSE only.
  unfoldable pub verbose_log : List Arg → M (Unit {0})
  unfolding log
  verbose_log args = if p.verbose then log args else skip

  unfoldable pub enable_multi_thread_or_process_mode : M (Unit {0})
  unfolding log
  enable_multi_thread_or_process_mode w =
      log (text "Multi-process/threading logging enabled" ∷ [])
        (record w { is_multi_thread_or_process = true })

-- A `TerminateOnDestruction` on the stack: its constructor, `disable` and destructor.
pub record TerminateOnDestruction : Type 0 where
  pub enabled : Bool

abbrev pub tod : TerminateOnDestruction
tod = record { enabled = true }

unfoldable pub disable : TerminateOnDestruction → TerminateOnDestruction
disable t = record t { enabled = false }

unfoldable pub destroy : Platform → TerminateOnDestruction → M (Unit {0})
unfolding terminate
destroy p t =
    if t.enabled
    then terminate p (some (text "TerminateOnDestruction destructor called" ∷ [])) true
    else skip
