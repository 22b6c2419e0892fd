-- ===== src/Tests/Sessions.antt =====
-- A session of client and server of external mode, step by step.
use dr_shadow_stack.Lockstep.Rounds.{RoundKills}
use dr_shadow_stack.Lockstep.Team.{Team, TeamReach, assembled}
use dr_shadow_stack.Lockstep.Team.Release.{pair, attacked, released}
use dr_shadow_stack.Base.{
  take, none, ℕ, ◌+◌, ◌*◌, ◌≤◌, ◌≡◌, refl, some, List, [], ◌∷◌, ◌++◌, length, arith, codes,
}
use dr_shadow_stack.Platform.{sent}
use dr_shadow_stack.ShadowStack.{returns_in, Event, run}
use dr_shadow_stack.Message.{with_body, from_memory, header, to_memory, message_size, wildcard}
use dr_shadow_stack.Client.{on_call, tell_ret}
use dr_shadow_stack.Message.{
  send_msg_with_body, recv_msg, is_a_valid, header_only_message, set_length,
}
use dr_shadow_stack.Server.{dispatch, handle, on_ret, at, call_correct_function}
use dr_shadow_stack.Server
use dr_shadow_stack.Runtime.{verbose_log, assert, assert_on}
use dr_shadow_stack.Lockstep.Completion.{Decided, decides}
use dr_shadow_stack.Lockstep.Counting.{count, count_lem}
use dr_shadow_stack.Lockstep.Invariant.{Consistent}
use dr_shadow_stack.Lockstep.Safety.{passed-allowed, Reach-Consistent}
use dr_shadow_stack.Environment.{getenv, dr_ss_env_fd}
use dr_shadow_stack.Platform.Post.{IsNoLog}
use dr_shadow_stack.Client.Messages.{InRange}
use dr_shadow_stack.Client.{next_of}
use dr_shadow_stack.Lockstep.{open_event}
use dr_shadow_stack.Lockstep.{
  written, hear, tell, Session, tells, hears, serves, Reach, start, later, init,
}
use dr_shadow_stack.Tests.{helpful, helpful-Works, process, process-IsNoLog, environment, client}

-- A call and its return.
abbrev short : List Event
short = Event.call 4096 ∷ Event.ret 4096 ∷ []

abbrev begin : Session
begin = init helpful environment 5 5 short client (process [] [])

abbrev chunk_of_call : List ℕ
chunk_of_call = codes "CALL" ++ to_memory 8 4096

answered_all : (s : Session) × Reach helpful environment 5 5 begin s
unfolding tell hear written header to_memory from_memory with_body on_call tell_ret
    send_msg_with_body sent verbose_log assert assert_on recv_msg is_a_valid header_only_message
    set_length dispatch handle on_ret at call_correct_function Server.on_call
answered_all = (
  _,
  later
      (later
        (later
          (later
            (later (later start (tells (Event.call 4096) _ refl refl refl))
              (hears (Event.call 4096) refl refl))
            (tells (Event.ret 4096) _ refl refl refl))
          (serves _ _ _ refl refl refl))
        (serves _ _ _ refl refl refl))
      (hears (Event.ret 4096) refl refl),
)

abbrev short-InRange : InRange helpful short
short-InRange = (omega arith, (omega arith, tt))

abbrev client-IsNoLog : IsNoLog client 5
client-IsNoLog = process-IsNoLog [] ((dr_ss_env_fd, codes "5") ∷ [])

passed-allowed_example :
    (stk : List ℕ) × (run (wildcard helpful) [] answered_all.0.passed ≡ some stk)
    × (answered_all.0.passed ++ (open_event answered_all.0.phase ++ answered_all.0.todo) ≡ short)
unfolding next_of
passed-allowed_example =
    passed-allowed helpful environment (codes "DR_SS_ENV_FD_VAR=") 5 5 short client (process [] [])
      refl short-InRange client-IsNoLog (process-IsNoLog [] []) answered_all.1

Reach-Consistent_example : Consistent helpful 5 5 short client.environ answered_all.0
unfolding next_of
Reach-Consistent_example =
    Reach-Consistent helpful environment (codes "DR_SS_ENV_FD_VAR=") 5 5 short client
      (process [] []) refl short-InRange client-IsNoLog (process-IsNoLog [] []) answered_all.1

count_lem_example :
    (served : ℕ) × (count answered_all.1
      ≡ 2 * length answered_all.0.passed + length (open_event answered_all.0.phase) + served)
    × (count answered_all.1 ≤ 3 * length short)
    × (length answered_all.0.server.incoming + message_size helpful * served
        ≡ message_size helpful
          * (length answered_all.0.passed + length (open_event answered_all.0.phase)))
    × (length answered_all.0.client.incoming
          + message_size helpful * returns_in answered_all.0.passed
        ≡ message_size helpful * returns_in (take served short))
unfolding next_of
count_lem_example =
    count_lem helpful environment (codes "DR_SS_ENV_FD_VAR=") 5 5 short client (process [] []) refl
      short-InRange client-IsNoLog (process-IsNoLog [] []) answered_all.1

decides_example : (u : Session) × Reach helpful environment 5 5 begin u × Decided helpful 5 short u
unfolding next_of getenv
decides_example =
    decides helpful environment 5 5 (codes "DR_SS_ENV_FD_VAR=") short client (process [] []) refl
      short-InRange client-IsNoLog (process-IsNoLog [] []) helpful-Works (codes "5") refl start

released_example :
    (s : Team) × TeamReach helpful environment 5 5
      (assembled (pair client client 4096 5120 666) (process [] []))
      s
    × ((s.members 0).passed ≡ attacked 5120 666)
    × (run (wildcard helpful) [] (attacked 5120 666) ≡ none)
    × RoundKills helpful 5 s.handlers s.stack s.server
unfolding next_of getenv
released_example =
    released helpful helpful-Works environment (codes "DR_SS_ENV_FD_VAR=") (codes "5") 5 5 client
      client (process [] []) 4096 5120 666 refl (omega arith) (omega arith) (omega arith)
      client-IsNoLog client-IsNoLog (process-IsNoLog [] []) refl refl (λ e. omega arith)
      (λ e. omega arith)
