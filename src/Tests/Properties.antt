-- ===== src/Tests/Properties.antt =====
-- The theorems at concrete inputs.
use mathlib.Core.Bool.{false≢true}
use dr_shadow_stack.Base.{
  Bool-cases, inl, inr, ◌==◌, ap, bytes_eq, ℕ, ◌≡◌, ◌↔◌, refl, arith, true, some, List, [], ◌∷◌,
  ◌++◌, codes,
}
use dr_shadow_stack.Text.{text}
use dr_shadow_stack.Platform.{Syscall, strdup, sent}
use dr_shadow_stack.Platform.Post.{Ends, Kills, Returns}
use dr_shadow_stack.Runtime.{terminate}
use dr_shadow_stack.Runtime.Termination.{terminate-Kills}
use dr_shadow_stack.Message.{Message, header, wildcard, recv_msg_and_body}
use dr_shadow_stack.Message.Receive.{recv_msg_and_body-Kills}
use dr_shadow_stack.ShadowStack.{Event, allows, check, run}
use dr_shadow_stack.ShadowStack.Nesting.{WellNested}
use dr_shadow_stack.Server.{start_external_shadow_stack}
use dr_shadow_stack.Server.Loop.{Accepted, start_external_shadow_stack-Ends}
use dr_shadow_stack.Server.Verdict.{
  Replied, start_external_shadow_stack-Returns, start_external_shadow_stack-Kills,
}
use dr_shadow_stack.Internal.{run_events}
use dr_shadow_stack.Internal.Stacks.{stack_of}
use dr_shadow_stack.Internal.Threads.{
  events_of, failed_execve, run_events-Ends, run_events-Kills, failed_execve-Kills,
}
use dr_shadow_stack.Internal.Verdict.{run_events-Returns}
use dr_shadow_stack.Modes.{in_thread, modes_agree}
use dr_shadow_stack.Protection.{in_thread-WellNested, external_mode_agrees}
use dr_shadow_stack.Environment.{dr_ss_env_fd, getenv}
use dr_shadow_stack.Client
use dr_shadow_stack.Client.{next_of, replace_fd, fd_entry, copy_of}
use dr_shadow_stack.Client.Execve.{Replaced}
use dr_shadow_stack.Client.Protocol.{Told, stream_of}
use dr_shadow_stack.Client.Session.{run_events-Told, on_execve-Replaced}
use dr_shadow_stack.Tests.{
  environment, client, helpful, failing, helpful-Works, process, process-IsNoLog, history, attack,
  bytes_of, history-Stream, attack-Stream,
}

modes_agree_example :
    Kills (start_external_shadow_stack helpful 5 (process (bytes_of attack) []))
    ↔ Kills (run_events helpful (in_thread 3 attack) (process [] []))
modes_agree_example =
    modes_agree helpful helpful-Works 3 5 attack (process (bytes_of attack) []) (process [] [])
      (process-IsNoLog (bytes_of attack) []) attack-Stream refl

external_mode_agrees_example :
    Ends
      (λ _ w'.
        (chunks : List (List ℕ)) × (sent 5 w'.trace ≡ chunks ++ sent 5 client.trace)
        × (Kills (
              start_external_shadow_stack helpful 5
                (record (process [] []) { incoming = stream_of chunks }))
            ↔ Kills (run_events helpful (in_thread 3 attack) (process [] []))))
      (Client.run_events helpful 5 environment attack client)
unfolding next_of
external_mode_agrees_example =
    external_mode_agrees helpful helpful-Works environment (codes "DR_SS_ENV_FD_VAR=") 3 5 5 attack
      client (process [] []) (process [] []) refl (omega arith, (omega arith, (omega arith, tt)))
      (process-IsNoLog [] ((dr_ss_env_fd, codes "5") ∷ [])) (process-IsNoLog [] []) refl

in_thread-WellNested_example :
    Returns (λ _ v. stack_of v 3 ≡ []) (run_events helpful (in_thread 3 history) (process [] []))
    ↔ WellNested (wildcard helpful) history
in_thread-WellNested_example =
    in_thread-WellNested helpful helpful-Works 3 history (process [] []) tt refl

start_external_shadow_stack-Ends_example :
    Ends
      (λ _ v. Accepted failing [] 5 (process (bytes_of attack) []) v)
      (start_external_shadow_stack failing 5 (process (bytes_of attack) []))
start_external_shadow_stack-Ends_example =
    start_external_shadow_stack-Ends failing 5 (process (bytes_of attack) [])
      (process-IsNoLog (bytes_of attack) [])

start_external_shadow_stack-Returns_example :
    Returns
      (λ _ v. Replied helpful 5 history (process (bytes_of history) []) v)
      (start_external_shadow_stack helpful 5 (process (bytes_of history) []))
unfolding run allows check
start_external_shadow_stack-Returns_example =
    start_external_shadow_stack-Returns helpful helpful-Works history [] 5
      (process (bytes_of history) []) (process-IsNoLog (bytes_of history) []) history-Stream refl

start_external_shadow_stack-Kills_example :
    Kills (start_external_shadow_stack helpful 5 (process (bytes_of attack) []))
unfolding run allows check
start_external_shadow_stack-Kills_example =
    start_external_shadow_stack-Kills helpful helpful-Works attack 5 (process (bytes_of attack) [])
      (process-IsNoLog (bytes_of attack) []) attack-Stream refl

-- Two threads, interleaved.
abbrev interleaving : List (ℕ × Event)
interleaving = (1, Event.call 10) ∷ (2, Event.call 20) ∷ (1, Event.ret 10) ∷ (2, Event.ret 21) ∷ []

run_events-Ends_example :
    Ends
      (λ _ v.
        (t : ℕ)
        → run (wildcard failing) (stack_of (process [] []) t) (events_of t interleaving)
          ≡ some (stack_of v t))
      (run_events failing interleaving (process [] []))
run_events-Ends_example = run_events-Ends failing interleaving (process [] [])

run_events-Kills_example : Kills (run_events failing interleaving (process [] []))
unfolding run allows check events_of
run_events-Kills_example = run_events-Kills failing interleaving (process [] []) 2 refl

run_events-Returns_example :
    Returns (λ _ _. Unit {0}) (run_events helpful (in_thread 3 history) (process [] []))
unfolding run allows check events_of
run_events-Returns_example =
    run_events-Returns helpful helpful-Works (in_thread 3 history) (process [] []) (λ t. [])
      all_pass
  where
    all_pass :
        (t : ℕ)
        → run (wildcard helpful) (stack_of (process [] []) t) (events_of t (in_thread 3 history))
          ≡ some []
    all_pass t = elim (Bool-cases (3 == t)) [ inl y ↦ rw y | inr n ↦ rw n ]

failed_execve-Kills_example : Kills (failed_execve helpful 3 10 (process [] []))
failed_execve-Kills_example = failed_execve-Kills helpful 3 10 (process [] [])

terminate-Kills_example : Kills (terminate failing (some (text "Stop." ∷ [])) true (process [] []))
terminate-Kills_example = terminate-Kills failing (some (text "Stop." ∷ [])) true (process [] [])

run_events-Told_example :
    Ends
      (λ _ v. Told helpful 5 history client v)
      (Client.run_events helpful 5 environment history client)
unfolding next_of
run_events-Told_example =
    run_events-Told helpful 5 environment (codes "DR_SS_ENV_FD_VAR=") history client refl
      (omega arith, (omega arith, (omega arith, tt)))
      (process-IsNoLog [] ((dr_ss_env_fd, codes "5") ∷ []))

on_execve-Replaced_example :
    Ends
      (λ env' v.
        (fd : List ℕ) × (getenv dr_ss_env_fd client.environ ≡ some fd)
        × (h : List Syscall) × Replaced environment env'
            (copy_of (fd_entry fd) (helpful.result h (strdup (fd_entry fd))))
        × Told helpful 5 (Event.execve ∷ []) client v)
      (Client.on_execve helpful 5 environment client)
unfolding next_of
on_execve-Replaced_example =
    on_execve-Replaced helpful 5 environment (codes "DR_SS_ENV_FD_VAR=") client refl
      (process-IsNoLog [] ((dr_ss_env_fd, codes "5") ∷ []))

recv_msg_and_body-Kills_example :
    Kills (recv_msg_and_body helpful Message.call 5 (process (bytes_of history) []))
unfolding header
recv_msg_and_body-Kills_example =
    recv_msg_and_body-Kills helpful Message.call 5 (process (bytes_of history) [])
      (λ e. false≢true (ap (λ bs. bytes_eq bs (header Message.continue)) e))
