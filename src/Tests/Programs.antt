-- ===== src/Tests/Programs.antt =====
-- Instructions of a target, threads that cross, and single messages.
use dr_shadow_stack.DrClient.Ready.{Ready}
use dr_shadow_stack.DrClient.Told.{ToldSince, instrumented-Told}
use dr_shadow_stack.DrClient.Session.{instrumented, instrumented_lem}
use dr_shadow_stack.Mode.{internal_mode_flag, external_mode_flag}
use dr_shadow_stack.Text.{text}
use dr_shadow_stack.Runtime.{log, log_error, message}
use dr_shadow_stack.Runtime.Failure.{log-Kills}
use dr_shadow_stack.Message.Unique.{Stream-unique}
use dr_shadow_stack.Base.{subst, ℕ, ◌≡◌, refl, true, false, some, List, [], ◌∷◌, ◌++◌, codes, arith}
use dr_shadow_stack.Text.{numeral}
use dr_shadow_stack.Platform.Post.{IsNoLog, Ends, Kills, Returns}
use dr_shadow_stack.Environment.{getenv, dr_ss_env_sock, dr_ss_env_fd}
use dr_shadow_stack.Message.{Message, header, to_memory, from_memory, send_msg, tabulate}
use dr_shadow_stack.Message.Events.{Stream, end}
use dr_shadow_stack.ShadowStack.{Event}
use dr_shadow_stack.Server.{start_external_shadow_stack, dispatch, call_correct_function}
use dr_shadow_stack.Server.Bounds.{AllBelow, pointers, dispatch-bounded}
use dr_shadow_stack.Internal.{run_events}
use dr_shadow_stack.Internal.Stacks.{stack_of}
use dr_shadow_stack.Client
use dr_shadow_stack.Client.{next_of}
use dr_shadow_stack.Client.Messages.{Sent, send_msg-Literal}
use dr_shadow_stack.Client.Handover.{on_execve-setup, environ_of}
use dr_shadow_stack.Modes.{in_thread}
use dr_shadow_stack.Modes.Threads.{crossing, crossed, modes_differ}
use dr_shadow_stack.DrClient.{Instr, event_app_instruction}
use dr_shadow_stack.DrClient.Instrumented.{
  Executed, Execution, finished, plain, subroutine, events_in, hijacked, hijacked-Kills,
}
use dr_shadow_stack.Tests.{
  some-inj, World, history, history-Stream, helpful, failing, helpful-Works, process,
  process-IsNoLog, environment, client, chunk_of, bytes_of, message_then,
}

-- call 0x1000, of five bytes; nop; ret.
abbrev call_instr : Instr
call_instr = record { is_call = true; is_return = false; app_pc = 4091; size = 5 }

abbrev nop_instr : Instr
nop_instr = record { is_call = false; is_return = false; app_pc = 8192; size = 1 }

abbrev ret_instr : Instr
ret_instr = record { is_call = false; is_return = true; app_pc = 8193; size = 1 }

abbrev target : List Executed
target = (call_instr, 8192) ∷ (nop_instr, 8193) ∷ (ret_instr, 4096) ∷ []

abbrev nop-Execution : Execution helpful ((nop_instr, 8193) ∷ [])
nop-Execution = plain nop_instr 8193 [] (refl, refl) finished refl

target-Execution : Execution helpful target
target-Execution =
    subroutine call_instr ret_instr 8192 ((nop_instr, 8193) ∷ []) [] (refl, refl) (refl, refl)
      nop-Execution finished refl

abbrev exploit : List Executed
exploit = hijacked helpful [] call_instr 8192 ((nop_instr, 8193) ∷ []) ret_instr 666 []

abbrev exploit_events : List Event
exploit_events = Event.call 4096 ∷ Event.ret 666 ∷ []

exploit-Stream : Stream helpful [] (events_in helpful exploit) (bytes_of exploit_events)
unfolding header to_memory from_memory events_in event_app_instruction
exploit-Stream =
    message_then (Event.call 4096) _ (record { full = refl; head = refl; body = refl })
      (message_then (Event.ret 666) _ (record { full = refl; head = refl; body = refl }) (end refl))

hijacked-Kills_example :
    Kills (run_events helpful (in_thread 3 (events_in helpful exploit)) (process [] []))
    × Kills (start_external_shadow_stack helpful 5 (process (bytes_of exploit_events) []))
hijacked-Kills_example =
    hijacked-Kills helpful helpful-Works 3 5 [] ((nop_instr, 8193) ∷ []) [] call_instr ret_instr
      8192 666 (process [] []) (process (bytes_of exploit_events) []) finished (refl, refl)
      nop-Execution (refl, refl) (λ e. omega arith) (λ e. omega arith) refl
      (process-IsNoLog (bytes_of exploit_events) []) exploit-Stream

-- A process with the environment that DrShadowStack leaves in external mode.
abbrev attached : World
attached = process [] ((dr_ss_env_sock, codes "/tmp/a") ∷ (dr_ss_env_fd, []) ∷ [])

zero-IsNoLog : (s : ℕ) → some 0 ≡ some s → IsNoLog attached s
zero-IsNoLog s e = subst (IsNoLog attached) (some-inj e) (record {
  not_log = λ q. cc;
  not_stdout = λ q. omega (arith, some-inj q);
  not_error = λ q. omega (arith, some-inj q);
})

instrumented-Told_example :
    Ends
      (λ _ v. ToldSince helpful attached target v)
      (instrumented helpful (codes "client.so" ∷ external_mode_flag ∷ []) 3 target attached)
unfolding getenv
instrumented-Told_example =
    instrumented-Told helpful (codes "client.so") (codes "/tmp/a") 3 target attached refl
      (omega arith) refl (λ g s e. zero-IsNoLog s e) (omega arith, (omega arith, (omega arith, tt)))

helpful-Ready : Ready helpful
helpful-Ready = record {
  init = λ h. refl;
  sym_init = λ h. refl;
  register = λ h. refl;
  copies = λ h s. refl;
}

-- A process that drrun has just taken over.
abbrev unprepared : World
unprepared = record attached { sym_setup = false }

instrumented_lem_example :
    Returns
      (λ _ v. stack_of v 3 ≡ [])
      (instrumented helpful (codes "client.so" ∷ internal_mode_flag ∷ []) 3 target unprepared)
    × Kills (
        instrumented helpful
          (codes "client.so" ∷ internal_mode_flag ∷ [])
          3
          (hijacked helpful target call_instr 8192 ((nop_instr, 8193) ∷ []) ret_instr 666 [])
          unprepared)
unfolding getenv
instrumented_lem_example =
    instrumented_lem helpful helpful-Works (codes "client.so") (codes "/tmp/a") 3 target
      ((nop_instr, 8193) ∷ []) [] call_instr ret_instr 8192 666 unprepared helpful-Ready refl refl
      target-Execution (refl, refl) nop-Execution (refl, refl) (λ e. omega arith) (λ e. omega arith)
      refl

crossed-Stream : Stream helpful [] (crossed 4096 5120) (bytes_of (crossed 4096 5120))
unfolding header to_memory from_memory
crossed-Stream =
    message_then (Event.call 4096) _ (record { full = refl; head = refl; body = refl })
      (message_then (Event.call 5120) _ (record { full = refl; head = refl; body = refl })
        (message_then (Event.ret 4096) _ (record { full = refl; head = refl; body = refl })
          (end refl)))

modes_differ_example :
    Kills (start_external_shadow_stack helpful 5 (process (bytes_of (crossed 4096 5120)) []))
    × Returns (λ _ _. Unit {0}) (run_events helpful (crossing 3 4 4096 5120) (process [] []))
modes_differ_example =
    modes_differ helpful helpful-Works 3 4 4096 5120 5 (process (bytes_of (crossed 4096 5120)) [])
      (process [] []) (λ e. omega arith) (λ e. omega arith) (λ e. omega arith)
      (process-IsNoLog (bytes_of (crossed 4096 5120)) []) crossed-Stream

dispatch-bounded_example :
    Ends
      (λ r _. AllBelow (pointers failing) r.0)
      (dispatch failing call_correct_function [] (chunk_of (Event.call 4096)) 5 (process [] []))
unfolding to_memory
dispatch-bounded_example =
    dispatch-bounded failing [] (chunk_of (Event.call 4096)) 5 (process [] [])
      (
        omega arith,
        (
          omega arith,
          (
            omega arith,
            (
              omega arith,
              (
                omega arith,
                (
                  omega arith,
                  (
                    omega arith,
                    (omega arith, (omega arith, (omega arith, (omega arith, (omega arith, tt))))),
                  ),
                ),
              ),
            ),
          ),
        ),
      )
      refl (process-IsNoLog [] []) tt

send_msg-Literal_example :
    Ends
      (λ _ v.
        Sent 5
          (header Message.execve ++ 0 ∷ tabulate 7 (failing.past_literal (header Message.execve)))
          client
          v)
      (send_msg failing Message.execve 5 client)
send_msg-Literal_example =
    send_msg-Literal failing Message.execve 7 5 client refl
      (process-IsNoLog [] ((dr_ss_env_fd, codes "5") ∷ []))

on_execve-setup_example :
    Ends
      (λ env' _.
        Ends
          (λ s' _. s' ≡ some 5)
          (Client.setup helpful
            (codes "/tmp/a")
            (record (process [] []) { environ = environ_of env' })))
      (Client.on_execve helpful 5 environment client)
unfolding next_of getenv numeral
on_execve-setup_example =
    on_execve-setup helpful 5 5 environment (codes "DR_SS_ENV_FD_VAR=") (codes "/tmp/a") client
      (process [] []) refl (process-IsNoLog [] ((dr_ss_env_fd, codes "5") ∷ [])) refl (omega arith)

-- A process whose log is open.
abbrev logged : World
logged = record (process [] []) { log_fd = some 3 }

log-Kills_example :
    Kills (log failing (text "Stop." ∷ []) logged)
    × Kills (log_error failing (text "Stop." ∷ []) logged)
    × Kills (message failing (text "Stop." ∷ []) logged)
log-Kills_example = log-Kills failing (λ h fd bs e. cc) 3 (text "Stop." ∷ []) logged refl

-- The first history spells only itself.
Stream-unique_example : history ≡ history
Stream-unique_example =
    Stream-unique helpful history history (bytes_of history) history-Stream history-Stream
