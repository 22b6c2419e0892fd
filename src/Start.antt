-- ===== src/Start.antt =====
-- shadow_stack.cpp: how DrShadowStack starts the target, and the server in external mode. A run that
-- returns is one in which execvp has replaced the process by drrun, on the arguments that it returns.
pub mod Target
pub mod Run
pub mod Overflow
pub mod Kept
use dr_shadow_stack.Base.{
  ℕ, zero, suc, Bool, true, false, not, Option, none, some, List, [], ◌∷◌, ◌++◌, codes, ◌==◌,
  if◌then◌else◌,
}
use dr_shadow_stack.Text.{Arg, text, bytes}
use dr_shadow_stack.Platform.{
  Platform, World, M, fork, execvp, fflush, signal, sig_ign, set_variable, syscall, pure, skip,
  returns, out_of_fuel, ◌>>=◌, ◌>>◌,
}
use dr_shadow_stack.Runtime.{assert, err, log, terminate, enable_multi_thread_or_process_mode}
use dr_shadow_stack.Environment.{getenv, setenv, unsetenv, dr_ss_env_sock, dr_ss_env_fd}
use dr_shadow_stack.Mode.{SsMode}
use dr_shadow_stack.Group.{failed, value_of}
use dr_shadow_stack.Sockets.{create_server, accept_client, temp_name, is_zero}
use dr_shadow_stack.Server.{start_external_shadow_stack}

pub record Args : Type 0 where
  pub mode : SsMode
  pub target : List ℕ
  pub target_args : List (List ℕ)

-- The options for a log of DynamoRIO's own, which a debug build may set.
abbrev pub debug_args : Option (List ℕ) → List (List ℕ)
debug_args none = []
debug_args (some level) = codes "-debug" ∷ codes "-ops" ∷ (codes "-loglevel " ++ level) ∷ []

-- `for ( ... ) pnt << exec_args[i] << ' ';`
abbrev pub spaced : List (List ℕ) → List ℕ
spaced [] = []
spaced (a ∷ args) = a ++ b' ' ∷ spaced args

-- The environment after a setenv that has returned `r`.
abbrev pub set_if : Option ℕ → List ℕ → List ℕ → World → World
set_if r name value w = record w {
  environ = if is_zero r then setenv name value w.environ else w.environ;
}

module _ (p : Platform) where
  -- The vector `exec_args`, without the null pointer at its end.
  unfoldable pub exec_args : Args → List (List ℕ)
  exec_args args =
      p.drrun_path
      ∷ (debug_args p.debug_log_level
          ++ codes "-c"
            ∷ p.dynamorio_client_so
            ∷ args.mode.str
            ∷ codes "--"
            ∷ args.target
            ∷ args.target_args)

  -- `Utilities::assert( setenv( name, value, true ) == 0, failure )`
  unfoldable pub set_env : List ℕ → List ℕ → List ℕ → M (Unit {0})
  set_env failure name value = do
    r ← syscall p (set_variable name value)
    λ w. skip (set_if r name value w)
    assert p (is_zero r) (some (bytes failure ∷ []))

  -- What execvp leaves to do: nothing, if it has succeeded.
  unfoldable pub after_execvp : List (List ℕ) → Option ℕ → M (List (List ℕ))
  after_execvp argv none = do err p (some (text "execvp() failed." ∷ [])); pure []
  after_execvp argv (some r) = pure argv

  unfoldable pub start_program : Args → List ℕ → M (List (List ℕ))
  unfolding set_env exec_args after_execvp
  start_program args socket_path = do
    set_env (codes "setenv() failed") dr_ss_env_sock socket_path
    log p (
        text "DR_SS_ENV_SOCK_VAR environment variable set to \""
        ∷ bytes socket_path
        ∷ text "\""
        ∷ [])
    set_env (codes "setenv() failed") dr_ss_env_fd []
    log p (text "DR_SS_ENV_FD_VAR environment variable set to \"\"" ∷ [])
    log p (bytes (codes "Starting dr_run\n\tCalling execvp on: " ++ spaced (exec_args args)) ∷ [])
    _ ← syscall p fflush
    r ← syscall p (execvp p.drrun_path (exec_args args))
    after_execvp (exec_args args) r

  -- The two sides of the fork.
  unfoldable pub child : Args → List ℕ → M (List (List ℕ))
  unfolding start_program
  child args server_name = do
    log p (text "Forming drrun args..." ∷ [])
    start_program args server_name

  unfoldable pub parent : ℕ → M (List (List ℕ))
  parent sock = do
    log p (text "Waiting for client" ∷ [])
    client_sock ← accept_client p sock
    start_external_shadow_stack p client_sock
    terminate p (some (text "Program exited. Killing group" ∷ [])) false
    pure []

  unfoldable pub start_external_client : Args → M (List (List ℕ))
  unfolding child parent
  start_external_client args = do
    server_name ← temp_name p
    sock ← create_server p server_name
    log p (text "Starting initial fork..." ∷ [])
    pid ← syscall p fork
    assert p (not (failed pid)) (some (text "fork() failed" ∷ []))
    if value_of pid == 0 then child args server_name else parent sock

  -- `while ( getenv( name ) != nullptr ) unsetenv( name );`, on fuel.
  unfoldable pub delete_variable : ℕ → List ℕ → M (Unit {0})
  delete_variable zero name = λ w. out_of_fuel
  delete_variable (suc f) name = λ w. elim (getenv name w.environ) [
    | none ↦ skip w
    | some value ↦ delete_variable f name (record w { environ = unsetenv name w.environ })
  ]

  -- SIGCHLD and SIGPIPE by their numbers on Linux.
  unfoldable pub ignore : ℕ → M (Unit {0})
  ignore sig = do
    r ← syscall p (signal sig sig_ign)
    assert p (not (failed r)) (some (text "signal() failed." ∷ []))

  -- The choice at the end of main.
  unfoldable pub start : Args → M (List (List ℕ))
  unfolding start_program start_external_client
  start args =
      if args.mode.is_internal
      then start_program args []
      else (if args.mode.is_external
          then start_external_client args
          else (do terminate p (some (text "Unimplemented ss_mode called." ∷ [])) true; pure []))

  -- `main` from the deletion of the variables on. Two rounds of each loop are enough.
  unfoldable pub run_main : Args → M (List (List ℕ))
  unfolding delete_variable ignore start
  run_main args = do
    delete_variable 2 dr_ss_env_sock
    delete_variable 2 dr_ss_env_fd
    ignore 17
    ignore 13
    log p (text "Sigpipe and Sigchild ignored" ∷ [])
    log p (text "DrShadowStack initalized" ∷ [])
    enable_multi_thread_or_process_mode p
    start args
