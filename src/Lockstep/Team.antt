-- ===== src/Lockstep/Team.antt =====
-- Several processes or threads of the target on one socket (dr_external_ss_events.cpp): the descriptor
-- is inherited by a fork, and threads share it, so that any of them may take the bytes that wait.
pub mod Release
use dr_shadow_stack.Base.{ℕ, ◌≡◌, some, List, [], ◌∷◌, ◌++◌, length, ◌==◌, if◌then◌else◌}
use dr_shadow_stack.Platform.{Platform, World, returns, receive}
use dr_shadow_stack.Message.{message_size}
use dr_shadow_stack.ShadowStack.{Event}
use dr_shadow_stack.Server.{HandlerMap, call_correct_function, dispatch}
use dr_shadow_stack.Lockstep.{Phase, running, answering, tell, hear, written}

-- One of the processes, with its own variables.
pub record Member : Type 0 where
  pub process : World
  pub phase : Phase
  pub passed : List Event
  pub todo : List Event

abbrev pub update {ℓ} : {A : Type ℓ} → (ℕ → A) → ℕ → A → ℕ → A
update f i a j = if i == j then a else f j

-- All of them, the bytes that wait for whoever reads first, and their server.
pub record Team : Type 0 where
  pub members : ℕ → Member
  pub answers : List ℕ
  pub server : World
  pub stack : List ℕ
  pub handlers : HandlerMap

module _ (p : Platform) (env : List (List ℕ)) (sock sock' : ℕ) where
  pub data TeamStep (s : Team) : Team → Type 0 where
    tells :
        (i : ℕ) (e : Event) (es : List Event) {w : World}
        → (s.members i).phase ≡ running
        → (s.members i).todo ≡ e ∷ es
        → tell p env sock e (record (s.members i).process { incoming = s.answers }) ≡ returns tt w
        → TeamStep s (record s {
          members =
              update s.members i
                (record (s.members i) { process = w; phase = answering e; todo = es });
          answers = w.incoming;
          server = record s.server {
            incoming =
                s.server.incoming
                ++ written sock (record (s.members i).process { incoming = s.answers }) w;
          };
        })
    hears :
        (i : ℕ) (e : Event) {w : World}
        → (s.members i).phase ≡ answering e
        → hear p env sock e (record (s.members i).process { incoming = s.answers }) ≡ returns tt w
        → TeamStep s (record s {
          members = update s.members i (record (s.members i) {
            process = w;
            phase = running;
            passed = (s.members i).passed ++ e ∷ [];
          });
          answers = w.incoming;
        })
    serves :
        (chunk stk : List ℕ) (m : HandlerMap) {w v : World}
        → receive p sock' (message_size p) s.server ≡ returns (some chunk) w
        → length chunk ≡ message_size p
        → dispatch p s.handlers s.stack chunk sock' w ≡ returns (stk, m) v
        → TeamStep s (record s {
          answers = s.answers ++ written sock' w v;
          server = v;
          stack = stk;
          handlers = m;
        })

  pub data TeamReach (s : Team) : Team → Type 0 where
    start : TeamReach s s
    later : {t u : Team} → TeamReach s t → TeamStep t u → TeamReach s u

-- A process about to make some events.
abbrev pub newcomer : World → List Event → Member
newcomer w es = record { process = w; phase = running; passed = []; todo = es }

-- Nothing is on its way, and the server's stack is empty.
abbrev pub assembled : (ℕ → Member) → World → Team
assembled members v = record {
  members = members;
  answers = [];
  server = record v { incoming = [] };
  stack = [];
  handlers = call_correct_function;
}
