-- ===== src/Platform.antt =====
-- What the program takes from outside: the kernel's answers to its system calls, the texts of
-- strerror, the numbers of system calls and the build's settings, as a parameter. Then the state of one process, the monad of
-- code that runs in it, and the postconditions by which proofs about that code are composed.
pub mod Post
pub mod Calls
use dr_shadow_stack.Base.{
  ℕ, ◌≡◌, Bool, Option, none, some, List, [], ◌∷◌, ◌++◌, take, drop, min, length, ◌==◌,
  if◌then◌else◌,
}

-- What `signal` is told to do with a signal.
pub data Disposition : Type 0 where
  default_signal_handler sig_ign : Disposition

-- The calls of which the kernel's answer or the order matters.
pub data Syscall : Type 0 where
  write : ℕ → List ℕ → Syscall
  recv : ℕ → ℕ → Syscall
  gettid : Syscall
  fflush : Syscall
  killpg : Syscall
  setsid : Syscall
  unlink_log : Syscall
  open_log : Syscall
  fileno : Syscall
  getpgrp : Syscall
  signal : ℕ → Disposition → Syscall
  socket : Syscall
  bind : ℕ → List ℕ → Syscall
  listen : ℕ → ℕ → Syscall
  connect : ℕ → List ℕ → Syscall
  accept : ℕ → Syscall
  fork : Syscall
  strdup : List ℕ → Syscall
  execvp : List ℕ → List (List ℕ) → Syscall
  set_variable : List ℕ → List ℕ → Syscall
  drmgr_init : Syscall
  drmgr_exit : Syscall
  drmgr_unregister_bb_insertion_event : Syscall
  drmgr_register_tls_field : Syscall
  drsym_init : Syscall
  drsym_exit : Syscall
  set_tls_field : ℕ → Syscall

-- What dr_lookup_module and drsym_lookup_address of DynamoRIO find.
pub record ModuleData : Type 0 where
  pub start : ℕ
  pub full_path : List ℕ
  pub preferred_name : Option (List ℕ)

pub data SymError : Type 0 where
  success line_not_available symbol_not_found : SymError
  other : ℕ → SymError

pub record SymInfo : Type 0 where
  pub error : SymError
  pub name : List ℕ
  pub start_offs : ℕ
  pub file : List ℕ
  pub line : ℕ
  pub line_offs : ℕ

-- `result` answers a call, given the calls before it, newest first: `none` is -1. The answer of
-- recv is an upper bound on the bytes it hands over. `past_literal` is the memory that follows a
-- string literal's terminating NUL. `errno` and `strerror` are read after a failure. The paths of drrun
-- and of the client are set by the build; `has_temp_directory` says whether boost's
-- temp_directory_path finds `temp_directory` or throws; `unique_path` is that of boost, `none` an exception.
pub record Platform : Type 0 where
  pub result : List Syscall → Syscall → Option ℕ
  pub errno : List Syscall → ℕ
  pub strerror : ℕ → List ℕ
  pub verbose : Bool
  pub pointer_size : ℕ
  pub sys_execve : ℕ
  pub past_literal : List ℕ → ℕ → ℕ
  pub strsignal : ℕ → List ℕ
  pub drrun_path : List ℕ
  pub dynamorio_client_so : List ℕ
  pub debug_log_level : Option (List ℕ)
  pub has_temp_directory : Bool
  pub temp_directory : List ℕ
  pub unique_path : List ℕ → Option (List ℕ)
  pub lookup_module : ℕ → Option ModuleData
  pub lookup_address : ModuleData → ℕ → SymInfo

-- The process: its static variables, its environment, the bytes that wait on its socket, the calls made so far, and
-- the shadow stack in each thread's local storage.
-- A file descriptor `none` is `invalid_fd`.
pub record World : Type 0 where
  pub trace : List Syscall
  pub incoming : List ℕ
  pub is_multi_thread_or_process : Bool
  pub log_fd : Option ℕ
  pub stdout_fd : Option ℕ
  pub error_fd : Option ℕ
  pub terminate_already_called : Bool
  pub setup_complete : Bool
  pub sym_setup : Bool
  pub environ : List (List ℕ × List ℕ)
  pub tls : ℕ → Option (List ℕ)

-- How a piece of code ends: it returns, the process group was killed, exit() was called, the code
-- did what C++ leaves undefined, or the model's fuel ran out.
pub data Outcome {ℓ} (A : Type ℓ) : Type ℓ where
  returns : A → World → Outcome A
  killed : World → Outcome A
  exited : ℕ → World → Outcome A
  undefined : World → Outcome A
  out_of_fuel : Outcome A

abbrev pub M {ℓ} : Type ℓ → Type ℓ
M A = World → Outcome A

abbrev pub pure {ℓ} : {A : Type ℓ} → A → M A
pure a w = returns a w

abbrev pub skip : M (Unit {0})
skip w = returns tt w

abbrev pub and_then {ℓ κ} : {A : Type ℓ} {B : Type κ} → Outcome A → (A → M B) → Outcome B
and_then (returns a w) f = f a w
and_then (killed w) f = killed w
and_then (exited n w) f = exited n w
and_then (undefined w) f = undefined w
and_then out_of_fuel f = out_of_fuel

infixl 5 ◌>>=◌ ◌>>◌
abbrev pub ◌>>=◌ {ℓ κ} : {A : Type ℓ} {B : Type κ} → M A → (A → M B) → M B
◌>>=◌ m f w = and_then (m w) f

abbrev pub ◌>>◌ {ℓ} : {B : Type ℓ} → M (Unit {0}) → M B → M B
m >> k = m >>= λ _. k

-- The answer to a recv, and the bytes that it takes from those that wait.
abbrev pub deliver : ℕ → ℕ → Option ℕ → M (Option (List ℕ))
deliver sock n none w = returns none (record w { trace = recv sock n ∷ w.trace })
deliver sock n (some k) w =
    returns (some (take (min n k) w.incoming))
      (record w { trace = recv sock n ∷ w.trace; incoming = drop (min n k) w.incoming })

module _ (p : Platform) where
  abbrev pub syscall : Syscall → M (Option ℕ)
  syscall c w = returns (p.result w.trace c) (record w { trace = c ∷ w.trace })

  -- recv( sock, buffer, n, MSG_WAITALL ): the bytes received, `none` on an error.
  abbrev pub receive : ℕ → ℕ → M (Option (List ℕ))
  receive sock n w = deliver sock n (p.result w.trace (recv sock n)) w

-- What was written to a descriptor, newest first.
unfoldable pub sent : ℕ → List Syscall → List (List ℕ)
sent fd [] = []
sent fd (write d bs ∷ t) = if d == fd then bs ∷ sent fd t else sent fd t
sent fd (_ ∷ t) = sent fd t

-- The calls other than those of logging, newest first.
unfoldable pub steps : List Syscall → List Syscall
steps [] = []
steps (write fd bs ∷ t) = steps t
steps (gettid ∷ t) = steps t
steps (c ∷ t) = c ∷ steps t
