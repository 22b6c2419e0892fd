-- ===== src/Tests/Startup.antt =====
-- The theorems on setup and start at concrete inputs.
use dr_shadow_stack.Program.Handoff.{Handoff, run-Handoff}
use dr_shadow_stack.Arguments.Options.{
  OptionDescription, ParseResult, ProgramOptions, target_key, command_line, usage_options,
  config_options, target_options,
}
use dr_shadow_stack.Base.{
  ◌≢◌, drop, bytes_eq, if◌then◌else◌, Option, none, length, ◌<◌, false, subst, ℕ, ◌≡◌, refl, arith,
  true, some, List, [], ◌∷◌, ◌++◌, codes, replicate,
}
use dr_shadow_stack.Platform.{
  recv, gettid, set_tls_field, setsid, getpgrp, write, steps, accept, Platform, World,
}
use dr_shadow_stack.Platform.Post.{Ends}
use dr_shadow_stack.ShadowStack.{Event}
use dr_shadow_stack.Environment.{dr_ss_env_fd, getenv}
use dr_shadow_stack.Client
use dr_shadow_stack.Client.{next_of, replace_fd, fd_entry}
use dr_shadow_stack.Group
use dr_shadow_stack.Group.{nsig}
use dr_shadow_stack.Group.Setup.{remapped, group_setup-Ends}
use dr_shadow_stack.Start.{Args, start_program, run_main}
use dr_shadow_stack.Start.Run.{Started, run_main-Ends}
use dr_shadow_stack.Start.Kept.{Fresh}
use dr_shadow_stack.Start.Target.{Launched, start_program-Ends}
use dr_shadow_stack.Client.Setup.{setup-setup}
use dr_shadow_stack.DrClient.{dr_client_main, all_from, internal, external, KernelXferInfo}
use dr_shadow_stack.DrClient.Events.{dr_client_main-Ends}
use dr_shadow_stack.DrClient.Transfers.{deliveries, transfers, transfers_lem}
use dr_shadow_stack.Internal.Stacks.{stack_of}
use dr_shadow_stack.Client.Protocol.{Told}
use dr_shadow_stack.Message.{wildcard}
use dr_shadow_stack.Runtime.Logging.{Works}
use dr_shadow_stack.Program.{NewDescriptors, dr_shadow_stack_run, run-Ends, EndsOrFails}
use dr_shadow_stack.LogFile.{Opened, open_log_file, open_log_file-Opened}
use dr_shadow_stack.Arguments.{CommandLine}
use dr_shadow_stack.Arguments.Main.{Asked}
use dr_shadow_stack.Tests.{
  process-IsNoLog, some-inj, helpful-Works, client, helpful, failing, process,
}

abbrev fresh_process : World
fresh_process = record (process [] []) { setup_complete = false }

group_setup-Ends_example :
    Ends
      (λ _ v.
        (false ≡ false)
        × (v ≡ record fresh_process { trace = v.trace; setup_complete = true })
        × (steps v.trace ≡ remapped nsig 1 ++ getpgrp ∷ setsid ∷ steps []))
      (Group.setup helpful fresh_process)
group_setup-Ends_example = group_setup-Ends helpful fresh_process

abbrev arguments : Args
arguments = record {
  mode = record {
    str = codes "ext";
    is_internal = false;
    is_protected_internal = false;
    is_external = true;
    is_valid_mode = true;
  };
  target = codes "/bin/ls";
  target_args = codes "-la" ∷ [];
}

-- Connections get descriptor 9.
abbrev forking : Platform
forking = record helpful {
  result = λ h c. elim c [ accept s ↦ some 9 | write fd bs ↦ some (length bs) | _ ↦ some 0 ];
}

forking-Fresh : Fresh forking client
forking-Fresh h s fd e = record {
  not_log = λ n. cc;
  not_stdout = λ n. absurd (omega (arith, some-inj n, some-inj e));
  not_error = λ n. absurd (omega (arith, some-inj n, some-inj e));
}

run_main-Ends_example :
    Ends (λ argv v. Started forking arguments argv v) (run_main forking arguments client)
run_main-Ends_example =
    run_main-Ends forking arguments client forking-Fresh
      λ n e. subst (λ m. length m < 108) (some-inj {a = codes "/tmp/a"} {b = n} e) (omega arith)

start_program-Ends_example :
    Ends
      (λ argv v. Launched helpful arguments (codes "/tmp/a") argv client v)
      (start_program helpful arguments (codes "/tmp/a") client)
start_program-Ends_example = start_program-Ends helpful arguments (codes "/tmp/a") client

abbrev first_client : World
first_client = process [] ((dr_ss_env_fd, []) ∷ [])

setup-setup_example :
    Ends
      (λ s v.
        Ends
          (λ s' _. s' ≡ s)
          (Client.setup forking (codes "/tmp/a") (record client { environ = v.environ })))
      (Client.setup forking (codes "/tmp/a") first_client)
unfolding getenv
setup-setup_example =
    setup-setup forking (codes "/tmp/a") (codes "/tmp/a") first_client client
      (λ h n e. subst (λ m. m < 2147483648) (some-inj e) (omega arith)) (omega arith) refl

dr_client_main-Ends_example :
    Ends
      (λ h _.
        (name : List ℕ) × (codes "client.so" ∷ codes "int" ∷ [] ≡ name ∷ codes "int" ∷ [])
        × (h ≡ all_from internal))
      (dr_client_main helpful (codes "client.so" ∷ codes "int" ∷ []) fresh_process)
dr_client_main-Ends_example =
    dr_client_main-Ends helpful (codes "client.so" ∷ codes "int" ∷ []) fresh_process refl

-- A signal, the return of its handler to the kernel, another signal.
abbrev infos : List KernelXferInfo
infos =
    record { is_signal_delivery = true; sig = 10; target_pc = 4096 }
    ∷ record { is_signal_delivery = false; sig = 10; target_pc = 77 }
    ∷ record { is_signal_delivery = true; sig = 12; target_pc = 5120 }
    ∷ []

transfers_lem_example :
    Ends
      (λ _ v.
        (stack_of v 3 ≡ replicate (deliveries infos) (wildcard failing) ++ stack_of client 3)
        × ((u : ℕ) → 3 ≢ u → stack_of v u ≡ stack_of client u))
      (transfers failing (all_from internal) 3 infos client)
    × Ends
        (λ _ v. Told failing 5 (replicate (deliveries infos) Event.signal) client v)
        (transfers failing (all_from (external (some 5))) 3 infos client)
transfers_lem_example =
    transfers_lem failing 3 5 infos client (process-IsNoLog [] ((dr_ss_env_fd, codes "5") ∷ []))

-- Connections get descriptor 9, on a kernel whose calls succeed.
abbrev starting : Platform
starting = record helpful {
  result = λ h c. elim c [
    | accept s ↦ some 9
    | write fd bs ↦ some (length bs)
    | recv fd n ↦ some n
    | gettid ↦ some 7
    | set_tls_field t ↦ some 1
    | _ ↦ some 0
  ];
}

starting-Works : Works starting
starting-Works = record {
  writes = λ h fd bs. refl;
  tid = λ h. 7;
  tids = λ h. refl;
  stores = λ h t. refl;
  waits = λ h fd n. refl;
}

-- A parser of options for one command: the first argument behind the program's name is the target.
abbrev parse_one :
    List OptionDescription → List (List ℕ × Option ℕ) → List (List ℕ) → Option ParseResult
parse_one options [] argv = some (record { value = λ k. none; collected = [] })
parse_one options (x ∷ xs) argv = some (record {
  value = λ k. if bytes_eq k target_key then some (codes "/bin/ls") else none;
  collected = drop 1 argv;
})

abbrev one_target : ProgramOptions
one_target = record { parse = parse_one; print = λ title options. title }

abbrev words : List (List ℕ)
words = codes "DrShadowStack" ∷ codes "/bin/ls" ∷ codes "-la" ∷ []

abbrev words_line : CommandLine
words_line = command_line one_target (codes "1.0") (codes "int") words

starting-NewDescriptors : NewDescriptors starting
starting-NewDescriptors = λ h h' s fd e. (
  λ g. absurd (omega (arith, some-inj e, some-inj g)),
  λ g. absurd (omega (arith, some-inj e, some-inj g)),
)

starting-short : (n : List ℕ) → some (codes "/tmp/a") ≡ some n → length n < 108
starting-short n e =
    subst (λ m. length m < 108) (some-inj {a = codes "/tmp/a"} {b = n} e) (omega arith)

run-Ends_example :
    EndsOrFails
      (λ args v. (asked : Args) × Asked words_line asked × Started starting asked args v)
      (dr_shadow_stack_run starting one_target (codes "1.0") (codes "int") true [] words)
unfolding command_line usage_options config_options target_options
run-Ends_example =
    run-Ends starting starting-Works one_target (codes "1.0") (codes "int") true [] words
      starting-NewDescriptors starting-short refl refl (λ e. cc)

run-Handoff_example :
    EndsOrFails
      (λ args v.
        (asked : Args) × Asked words_line asked
        × Handoff starting (codes "client.so") client asked args v)
      (dr_shadow_stack_run starting one_target (codes "1.0") (codes "int") true [] words)
unfolding command_line usage_options config_options target_options
run-Handoff_example =
    run-Handoff starting starting-Works one_target (codes "1.0") (codes "int") true [] words
      (codes "client.so") client starting-NewDescriptors starting-short refl refl (λ e. cc)

open_log_file-Opened_example :
    Opened helpful true fresh_process (open_log_file helpful true true fresh_process)
open_log_file-Opened_example = open_log_file-Opened helpful helpful-Works true fresh_process
