-- ===== src/Tests.antt =====
-- Concrete processes, kernels and histories, on which the theorems' hypotheses hold and the code runs.
mod Properties
mod Startup
mod Sessions
mod Programs
mod Toys
mod Overflow
use dr_shadow_stack.Environment.{dr_ss_env_fd}
use dr_shadow_stack.Base.{
  ℕ, ◌≡◌, ◌≢◌, refl, Bool, true, false, Option, none, some, List, [], ◌∷◌, ◌++◌, codes, length,
}
use dr_shadow_stack.Platform.{
  Syscall, write, recv, gettid, set_tls_field, Platform, World, ModuleData, SymInfo, success,
}
use dr_shadow_stack.Platform.Post.{IsNoLog}
use dr_shadow_stack.Runtime.Logging.{Works}
use dr_shadow_stack.Message.{Message, header, to_memory, from_memory}
use dr_shadow_stack.Message.Events.{Encodes, Stream, end, more}
use dr_shadow_stack.ShadowStack.{Event}

pub some-inj {ℓ} : {A : Type ℓ} {a b : A} → some a ≡ some b → a ≡ b
some-inj e = cc

-- A kernel that does all that it is asked for.
abbrev answers : List Syscall → Syscall → Option ℕ
answers h (write fd bs) = some (length bs)
answers h (recv fd n) = some n
answers h gettid = some 7
answers h (set_tls_field t) = some 1
answers h _ = some 0

abbrev no_symbol : SymInfo
no_symbol = record {
  error = success;
  name = [];
  start_offs = 0;
  file = [];
  line = 0;
  line_offs = 0;
}

abbrev pub helpful : Platform
helpful = record {
  result = answers;
  errno = λ h. 0;
  strerror = λ n. codes "Success";
  verbose = false;
  pointer_size = 8;
  sys_execve = 59;
  past_literal = λ s i. 0;
  strsignal = λ n. codes "Signal";
  drrun_path = codes "/opt/dr/drrun";
  dynamorio_client_so = codes "/opt/dr/client.so";
  debug_log_level = none;
  has_temp_directory = true;
  temp_directory = codes "/tmp";
  unique_path = λ m. some (codes "/tmp/a");
  lookup_module = λ a. none;
  lookup_address = λ m a. no_symbol;
}

-- A kernel on which every call fails.
abbrev pub failing : Platform
failing = record helpful { result = λ h c. none }

pub helpful-Works : Works helpful
helpful-Works = record {
  writes = λ h fd bs. refl;
  tid = λ h. 7;
  tids = λ h. refl;
  stores = λ h t. refl;
  waits = λ h fd n. refl;
}

-- A process that logs to descriptors 1 and 2, with its peer's bytes and its environment.
abbrev pub process : List ℕ → List (List ℕ × List ℕ) → World
process incoming environ = record {
  trace = [];
  incoming = incoming;
  is_multi_thread_or_process = true;
  log_fd = none;
  stdout_fd = some 1;
  error_fd = some 2;
  terminate_already_called = false;
  setup_complete = true;
  sym_setup = true;
  environ = environ;
  tls = λ t. none;
}

pub process-IsNoLog :
    (incoming : List ℕ) (environ : List (List ℕ × List ℕ)) → IsNoLog (process incoming environ) 5
process-IsNoLog incoming environ = record {
  not_log = λ e. cc;
  not_stdout = λ e. cc;
  not_error = λ e. cc;
}

-- A call, a signal inside it, the handler's return to an address of the kernel's, the call's return.
abbrev pub history : List Event
history = Event.call 4096 ∷ Event.signal ∷ Event.ret 77 ∷ Event.ret 4096 ∷ []

-- The same with an attack: the last return goes elsewhere.
abbrev pub attack : List Event
attack = Event.call 4096 ∷ Event.signal ∷ Event.ret 77 ∷ Event.ret 666 ∷ []

abbrev pub chunk_of : Event → List ℕ
chunk_of (Event.call a) = codes "CALL" ++ to_memory 8 a
chunk_of (Event.ret a) = codes "RET-" ++ to_memory 8 a
chunk_of Event.signal = codes "NEWS" ++ to_memory 8 0
chunk_of Event.execve = codes "EXEC" ++ to_memory 8 0

abbrev pub bytes_of : List Event → List ℕ
bytes_of [] = []
bytes_of (e ∷ es) = chunk_of e ++ bytes_of es

pub message_then :
    (e : Event) (es : List Event)
    → Encodes helpful e (chunk_of e)
    → Stream helpful [] es (bytes_of es)
    → Stream helpful [] (e ∷ es) (bytes_of (e ∷ es))
message_then e es c s = more e (chunk_of e) (bytes_of es) c refl s

pub history-Stream : Stream helpful [] history (bytes_of history)
unfolding header to_memory from_memory
history-Stream =
    message_then (Event.call 4096) _ (record { full = refl; head = refl; body = refl })
      (message_then Event.signal _ (record { full = refl; head = refl; body = tt })
        (message_then (Event.ret 77) _ (record { full = refl; head = refl; body = refl })
          (message_then (Event.ret 4096) _ (record { full = refl; head = refl; body = refl })
            (end refl))))

pub attack-Stream : Stream helpful [] attack (bytes_of attack)
unfolding header to_memory from_memory
attack-Stream =
    message_then (Event.call 4096) _ (record { full = refl; head = refl; body = refl })
      (message_then Event.signal _ (record { full = refl; head = refl; body = tt })
        (message_then (Event.ret 77) _ (record { full = refl; head = refl; body = refl })
          (message_then (Event.ret 666) _ (record { full = refl; head = refl; body = refl })
            (end refl))))

-- The environment of the program under protection, and the client's variable.
abbrev pub environment : List (List ℕ)
environment = codes "HOME=/root" ∷ codes "DR_SS_ENV_FD_VAR=" ∷ []

abbrev pub client : World
client = process [] ((dr_ss_env_fd, codes "5") ∷ [])
