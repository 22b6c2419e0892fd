-- ===== src/Lockstep.antt =====
-- External mode as two processes: the client of dr_external_ss_events.cpp and the server of
-- external_stack_server.cpp, joined by a stream socket. Each runs in its own time; what one writes
-- waits for the other in the order in which it was written.
pub mod Messages
pub mod Channel
pub mod Invariant
pub mod Safety
pub mod Progress
pub mod Rounds
pub mod Liveness
pub mod Completion
pub mod Counting
pub mod Team
use dr_shadow_stack.Base.{ℕ, ◌-◌, ◌≡◌, Option, some, List, [], ◌∷◌, ◌++◌, take, length}
use dr_shadow_stack.Platform.{Platform, World, M, returns, sent, receive, skip, ◌>>=◌, ◌>>◌}
use dr_shadow_stack.Message
use dr_shadow_stack.Message.{message_size, recv_msg}
use dr_shadow_stack.ShadowStack.{Event}
use dr_shadow_stack.Server.{HandlerMap, call_correct_function, dispatch}
use dr_shadow_stack.Client.{on_call, tell_ret, on_signal, on_execve}
use dr_shadow_stack.Client.Protocol.{stream_of}

-- The client is between two handlers, or in the second half of one.
pub data Phase : Type 0 where
  running : Phase
  answering : Event → Phase

-- The event whose handler has not returned.
abbrev pub open_event : Phase → List Event
open_event running = []
open_event (answering e) = e ∷ []

-- Both processes. `passed` are the events whose handlers have returned, so that the program has made
-- them; `todo` are those that it is going to make.
pub record Session : Type 0 where
  pub client : World
  pub phase : Phase
  pub passed : List Event
  pub todo : List Event
  pub server : World
  pub stack : List ℕ
  pub handlers : HandlerMap

-- The bytes that a process has written to a descriptor between two states.
unfoldable pub written : ℕ → World → World → List ℕ
written sock w v =
    stream_of (take (length (sent sock v.trace) - length (sent sock w.trace)) (sent sock v.trace))

-- The bytes that wait for a process, with those that the other has written.
abbrev pub deliver_to : World → List ℕ → World
deliver_to w bs = record w { incoming = w.incoming ++ bs }

module _ (p : Platform) (env : List (List ℕ)) (sock : ℕ) where
  -- A handler of the client up to its wait, and its wait.
  unfoldable pub tell : Event → M (Unit {0})
  tell (Event.call a) = on_call p sock a
  tell (Event.ret a) = tell_ret p sock a
  tell Event.signal = on_signal p sock
  tell Event.execve = do _ ← on_execve p sock env; skip

  unfoldable pub hear : Event → M (Unit {0})
  hear (Event.ret a) = recv_msg p Message.continue sock
  hear _ = skip

module _ (p : Platform) (env : List (List ℕ)) (sock sock' : ℕ) where
  -- `sock` is the client's descriptor and `sock'` the server's. A recv that waits makes no step.
  pub data Step (s : Session) : Session → Type 0 where
    tells :
        (e : Event) (es : List Event) {w : World}
        → s.phase ≡ running
        → s.todo ≡ e ∷ es
        → tell p env sock e s.client ≡ returns tt w
        → Step s (record s {
          client = w;
          phase = answering e;
          todo = es;
          server = deliver_to s.server (written sock s.client w);
        })
    hears :
        (e : Event) {w : World}
        → s.phase ≡ answering e
        → hear p env sock e s.client ≡ returns tt w
        → Step s (record s { client = w; phase = running; passed = s.passed ++ e ∷ [] })
    serves :
        (chunk stk : List ℕ) (m : HandlerMap) {w v : World}
        → receive p sock' (message_size p) s.server ≡ returns (some chunk) w
        → length chunk ≡ message_size p
        → dispatch p s.handlers s.stack chunk sock' w ≡ returns (stk, m) v
        → Step s (record s {
          client = deliver_to s.client (written sock' w v);
          server = v;
          stack = stk;
          handlers = m;
        })

  -- The server starts with an empty stack and its own map, and no bytes are on their way.
  abbrev pub init : List Event → World → World → Session
  init es w v = record {
    client = record w { incoming = [] };
    phase = running;
    passed = [];
    todo = es;
    server = record v { incoming = [] };
    stack = [];
    handlers = call_correct_function;
  }

  pub data Reach (s : Session) : Session → Type 0 where
    start : Reach s s
    later : {t u : Session} → Reach s t → Step t u → Reach s u
