-- ===== src/Client.antt =====
-- dr_external_ss_events.cpp: the DynamoRIO client of external mode, which tells the server each event
-- and waits for it at each return.
pub mod Protocol
pub mod Messages
pub mod Execve
pub mod Session
pub mod Setup
pub mod Handover
use dr_shadow_stack.Base.{
  ℕ, ◌+◌, Bool, true, false, Option, none, some, List, [], ◌∷◌, ◌++◌, take, codes, bytes_eq, length,
  if◌then◌else◌, ◌==◌,
}
use dr_shadow_stack.Text.{
  Arg, text, pointer, bytes, number, numeral, Stoi, value, negative, throws, stoi,
}
use dr_shadow_stack.Sockets.{create_client}
use dr_shadow_stack.Start.{set_env}
use dr_shadow_stack.Platform.{
  strdup, syscall, Platform, World, M, pure, skip, returns, exited, undefined, ◌>>=◌, ◌>>◌,
}
use dr_shadow_stack.Runtime.{assert, log, verbose_log}
use dr_shadow_stack.Environment.{getenv, dr_ss_env_fd}
use dr_shadow_stack.Message
use dr_shadow_stack.Message.{to_memory, send_msg, send_msg_with_body, recv_msg}
use dr_shadow_stack.ShadowStack.{Event}

-- `strncmp( s, t, len ) == 0` on C strings, for `t` of length `len`.
abbrev pub starts_with : List ℕ → List ℕ → Bool
starts_with s t = bytes_eq (take (length t) s) t

-- The write through `next`, of an entry or of a null pointer. Envp ends at its first null pointer, so
-- that the entries behind that one are lost.
abbrev pub put_entry : Option (List ℕ) → List (List ℕ) → List (List ℕ)
put_entry none env = []
put_entry (some entry) env = entry ∷ env

-- The search of `on_execve` through envp, and the write through `next`. The loop has no test for the
-- array's end, so `none` is a read through its null pointer.
unfoldable pub replace_fd : List (List ℕ) → Option (List ℕ) → Option (List (List ℕ))
replace_fd [] entry = none
replace_fd (s ∷ env) entry = elim (starts_with s dr_ss_env_fd) [
  | true ↦ some (put_entry entry env)
  | false ↦ elim (replace_fd env entry) [ none ↦ none | some env' ↦ some (s ∷ env') ]
]

-- The entry that the search stops at.
unfoldable pub next_of : List (List ℕ) → Option (List ℕ)
next_of [] = none
next_of (s ∷ env) = if starts_with s dr_ss_env_fd then some s else next_of env

-- `s << DR_SS_ENV_FD << "=" << fd_str`
abbrev pub fd_entry : List ℕ → List ℕ
fd_entry fd_str = dr_ss_env_fd ++ codes "=" ++ fd_str

-- The pointer that strdup returns, to a copy of `s` or null.
abbrev pub copy_of : List ℕ → Option ℕ → Option (List ℕ)
copy_of s none = none
copy_of s (some r) = some s

abbrev pub is_set : Option (List ℕ) → Bool
is_set none = false
is_set (some s) = true

abbrev pub value_of : Option (List ℕ) → List ℕ
value_of none = []
value_of (some s) = s

module _ (p : Platform) (sock : ℕ) where
  unfoldable pub on_call : ℕ → M (Unit {0})
  on_call ret_to_addr = do
    verbose_log p (text "(client) Call @ " ∷ pointer ret_to_addr ∷ text " - 0x5" ∷ [])
    send_msg_with_body p Message.call sock (to_memory p.pointer_size ret_to_addr)

  -- The part of `on_ret` up to its wait.
  unfoldable pub tell_ret : ℕ → M (Unit {0})
  tell_ret target_addr = do
    verbose_log p (text "(client) Ret to " ∷ pointer target_addr ∷ [])
    send_msg_with_body p Message.ret sock (to_memory p.pointer_size target_addr)

  unfoldable pub on_ret : ℕ → M (Unit {0})
  on_ret target_addr = do tell_ret target_addr; recv_msg p Message.continue sock

  unfoldable pub on_signal : M (Unit {0})
  on_signal = send_msg p Message.new_signal sock

  -- The loop's end: it has found its entry, or it has run past the array.
  abbrev pub found {ℓ} : {A : Type ℓ} → Option A → M A
  found none = λ w. undefined w
  found (some a) = pure a

  -- `on_execve`, from the envp of the call to the one that it is given.
  unfoldable pub on_execve : List (List ℕ) → M (List (List ℕ))
  on_execve env = do
    send_msg p Message.execve sock
    next ← found (next_of env)
    fd_str ← λ w. returns (getenv dr_ss_env_fd w.environ) w
    assert p (is_set fd_str) (some (text "DR_SS_ENV_FD not set on call to execve" ∷ []))
    r ← syscall p (strdup (fd_entry (value_of fd_str)))
    found (replace_fd env (copy_of (fd_entry (value_of fd_str)) r))

module _ (p : Platform) (sock : ℕ) (env : List (List ℕ)) where
  unfoldable pub syscall_filter : ℕ → Bool
  syscall_filter sysnum = if sysnum == p.sys_execve then true else false

  -- From the envp of the call to the one it is given. `pre` is passed on, and looked at by nobody.
  unfoldable pub syscall_event : ℕ → Bool → M (List (List ℕ))
  syscall_event sysnum pre = if sysnum == p.sys_execve then on_execve p sock env else pure env

  unfoldable pub pre_syscall_event : ℕ → M (Bool × List (List ℕ))
  unfolding syscall_event
  pre_syscall_event sysnum = do env' ← syscall_event sysnum true; pure (true, env')

  unfoldable pub post_syscall_event : ℕ → M (List (List ℕ))
  unfolding syscall_event
  post_syscall_event sysnum = syscall_event sysnum false

  -- The handler of an event; `env` is the envp of the program's execve calls.
  unfoldable pub on_event : Event → M (Unit {0})
  on_event (Event.call a) = on_call p sock a
  on_event (Event.ret a) = on_ret p sock a
  on_event Event.signal = on_signal p sock
  on_event Event.execve = do _ ← on_execve p sock env; skip

  unfoldable pub run_events : List Event → M (Unit {0})
  unfolding on_event
  run_events [] = skip
  run_events (e ∷ es) = do on_event e; run_events es

-- What is streamed for an int.
abbrev pub int_arg : Stoi → Arg
int_arg (value n) = number n
int_arg (negative n) = bytes (b'-' ∷ numeral 10 n)
int_arg throws = bytes []

-- The socket; a negative one is no descriptor of any file.
abbrev pub sock_of : Stoi → Option ℕ
sock_of (value n) = some n
sock_of _ = none

-- `sock = stoi( ... )`: nobody catches its exception, so that the process aborts.
abbrev pub or_abort : Stoi → M Stoi
or_abort throws = λ w. exited 134 w
or_abort s = pure s

module _ (p : Platform) (socket_path : List ℕ) where
  -- The branch of `ExternalSS::setup` for a connection that exists.
  unfoldable pub use_existing : List ℕ → M (Option ℕ)
  use_existing fd_str = do
    log p (text "Existing socket connected detected: " ∷ bytes socket_path ∷ [])
    s ← or_abort (stoi fd_str)
    log p (
        text "\t- Using file descriptor "
        ∷ int_arg s
        ∷ text " as socket fd, as it is already connected..."
        ∷ [])
    pure (sock_of s)

  -- The other branch.
  unfoldable pub connect_new : M (Option ℕ)
  connect_new = do
    log p (text "Client connecting to " ∷ bytes socket_path ∷ [])
    sock ← create_client p socket_path
    set_env p (codes "setenv() failed.") dr_ss_env_fd (numeral 10 sock)
    log p (text "Set environment variable DR_SS_ENV_FD_VAR to " ∷ bytes (numeral 10 sock) ∷ [])
    pure (some sock)

  abbrev pub choose_socket : List ℕ → M (Option ℕ)
  choose_socket [] = connect_new
  choose_socket (c ∷ cs) = use_existing (c ∷ cs)

  -- `ExternalSS::setup`, but for the handlers that it stores and registers.
  unfoldable pub setup : M (Option ℕ)
  unfolding use_existing connect_new
  setup = do
    fd_str ← λ w. returns (getenv dr_ss_env_fd w.environ) w
    assert p (is_set fd_str) (some (text "getenv() failed." ∷ []))
    sock ← choose_socket (value_of fd_str)
    log p (text "Hooking syscalls..." ∷ [])
    pure sock
