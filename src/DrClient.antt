-- ===== src/DrClient.antt =====
-- dr_shadow_stack_client.cpp, with InternalSS::setup of dr_internal_ss_events.cpp: what the DynamoRIO
-- client inserts into the target's code, its answer to signals, and its main function.
pub mod Events
pub mod Instrumented
pub mod Launch
pub mod Ready
pub mod Session
pub mod Told
pub mod Transfers
use dr_shadow_stack.Base.{
  ℕ, ◌+◌, ◌%◌, ◌^◌, Bool, true, false, not, ◌&&◌, Option, none, some, List, [], ◌∷◌, ◌++◌, length,
  ◌==◌, if◌then◌else◌,
}
use dr_shadow_stack.Text.{text, bytes, number, pointer}
use dr_shadow_stack.Platform.{
  Platform, World, M, drmgr_exit, drmgr_unregister_bb_insertion_event, drmgr_init,
  drmgr_register_tls_field, syscall, pure, skip, returns, undefined, ◌>>=◌, ◌>>◌,
}
use dr_shadow_stack.Runtime.{
  assert, log, verbose_log, terminate, enable_multi_thread_or_process_mode,
}
use dr_shadow_stack.Environment.{getenv, dr_ss_env_sock}
use dr_shadow_stack.Group.{failed}
use dr_shadow_stack.Mode.{SsMode, ss_mode}
use dr_shadow_stack.Sym
use dr_shadow_stack.Internal
use dr_shadow_stack.Client

-- Which file's functions the pointers of an SSHandlers stand for; that of external mode has its socket.
pub data Functions : Type 0 where
  internal : Functions
  external : Option ℕ → Functions

-- The three function pointers, `none` for nullptr.
pub record SsHandlers : Type 0 where
  pub on_call : Option Functions
  pub on_ret : Option Functions
  pub on_signal : Option Functions

abbrev pub non_null : Option Functions → Bool
non_null none = false
non_null (some f) = true

unfoldable pub is_valid : SsHandlers → Bool
is_valid h = non_null h.on_call && non_null h.on_ret && non_null h.on_signal

abbrev pub all_from : Functions → SsHandlers
all_from f = record { on_call = some f; on_ret = some f; on_signal = some f }

-- What DynamoRIO tells of an instruction.
pub record Instr : Type 0 where
  pub is_call : Bool
  pub is_return : Bool
  pub app_pc : ℕ
  pub size : ℕ

-- What is inserted before it: a clean call of `on_call` with an address, or the instrumentation of a
-- return, which calls `on_ret` with the address that the return goes to.
pub data Inserted : Type 0 where
  clean_call : ℕ → Inserted
  mbr_instrumentation : Inserted

-- What DynamoRIO tells of a transfer by the kernel.
pub record KernelXferInfo : Type 0 where
  pub is_signal_delivery : Bool
  pub sig : ℕ
  pub target_pc : ℕ

module _ (p : Platform) where
  unfoldable pub event_app_instruction : Instr → List Inserted
  event_app_instruction instr =
      (if instr.is_call
        then clean_call ((instr.app_pc + instr.size) % 256 ^ p.pointer_size) ∷ []
        else [])
      ++ (if instr.is_return then mbr_instrumentation ∷ [] else [])

  -- `handlers->on_signal()` in thread `t`.
  unfoldable pub call_on_signal : Option Functions → ℕ → M (Unit {0})
  call_on_signal none t = λ w. undefined w
  call_on_signal (some internal) t = Internal.on_signal p t
  call_on_signal (some (external none)) t = assert p false (some (text "write() failed!" ∷ []))
  call_on_signal (some (external (some sock))) t = Client.on_signal p sock

  unfoldable pub kernel_xfer_event_handler : SsHandlers → ℕ → KernelXferInfo → M (Unit {0})
  unfolding call_on_signal
  kernel_xfer_event_handler handlers t info =
      if info.is_signal_delivery
      then (do
        verbose_log p (
            text "Caught sig "
            ∷ number info.sig
            ∷ text " - "
            ∷ bytes (p.strsignal info.sig)
            ∷ text "\t\n- Handler address = "
            ∷ pointer info.target_pc
            ∷ [])
        call_on_signal handlers.on_signal t)
      else skip

  unfoldable pub exit_event : M (Unit {0})
  exit_event = do
    r ← syscall p drmgr_unregister_bb_insertion_event
    assert p (not (failed r)) (some (text "client process returned improperly." ∷ []))
    _ ← syscall p drmgr_exit
    skip

  -- `run_before_everything`, from the log's opening on.
  unfoldable pub run_before_everything : M (Unit {0})
  run_before_everything = do
    enable_multi_thread_or_process_mode p
    log p (text "DynamoRIO client started" ∷ [])
    log p (text "Client 'DrShadowStack' initializing..." ∷ [])
    r ← syscall p drmgr_init
    assert p (not (failed r)) (some (text "drmgr_init() failed." ∷ []))

  -- `InternalSS::setup`, with the constructor of TLS.
  unfoldable pub internal_setup : M SsHandlers
  internal_setup = do
    Sym.init p
    tls_index ← syscall p drmgr_register_tls_field
    assert p (not (failed tls_index)) (some (text "drmgr_register_tls_field() failed." ∷ []))
    log p (text "Hooking syscalls..." ∷ [])
    pure (all_from internal)

  -- The call of the mode's setup.
  unfoldable pub set_up_mode : SsMode → List ℕ → M SsHandlers
  unfolding internal_setup
  set_up_mode mode socket_path =
      if mode.is_internal
      then internal_setup
      else (if mode.is_external
          then (do sock ← Client.setup p socket_path; pure (all_from (external sock)))
          else (do
            terminate p (some (text "Unimplemented mode passed to the client" ∷ [])) true
            pure (record { on_call = none; on_ret = none; on_signal = none })))

  -- `argv[1]`
  abbrev pub second : List (List ℕ) → M (List ℕ)
  second (a ∷ b ∷ argv) = pure b
  second _ = λ w. undefined w

  abbrev pub is_set : Option (List ℕ) → Bool
  is_set none = false
  is_set (some s) = true

  abbrev pub value_of : Option (List ℕ) → List ℕ
  value_of none = []
  value_of (some s) = s

  unfoldable pub dr_client_main : List (List ℕ) → M SsHandlers
  unfolding run_before_everything set_up_mode is_valid
  dr_client_main argv = do
    run_before_everything
    assert p (length argv == 2)
        (some (text "Incorrect usage of dr_client_main\nExpected args: <Mode>" ∷ []))
    socket_path ← λ w. returns (getenv dr_ss_env_sock w.environ) w
    assert p (is_set socket_path) (some (text "getenv() failed." ∷ []))
    log p (
        text "DR_SS_ENV_SOCK_VAR environment variable has value: \""
        ∷ bytes (value_of socket_path)
        ∷ text "\""
        ∷ [])
    flag ← second argv
    mode ← ss_mode p flag
    assert p mode.is_valid_mode (some (text "Invalid mode given to the client" ∷ []))
    handlers ← set_up_mode mode (value_of socket_path)
    assert p (is_valid handlers) (some (text "SSHandlers setup incomplete" ∷ []))
    log p (text "Registering events..." ∷ [])
    pure handlers
