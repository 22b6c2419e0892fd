-- ===== src/DrClient/Told.antt =====
-- A run of the client in external mode: what dr_client_main and the target's instructions put on the
-- socket that ExternalSS::setup has made (dr_shadow_stack_client.cpp, dr_external_ss_events.cpp).
use native.Mathlib.Nat.{mod-lt}
use dr_shadow_stack.Base.{
  inr, true, inl, Bool-cases, false, ◌+◌, ℕ, ◌<◌, ◌%◌, ◌^◌, ◌≡◌, refl, sym, ap, ◌∙◌, subst, some,
  List, [], ◌∷◌, ◌++◌, map, length,
}
use dr_shadow_stack.Platform.{Platform, World, M, Syscall, socket, strdup, sent, ◌>>◌}
use dr_shadow_stack.Platform.Post.{
  Keeps-Frame, Keeps-trans, Keeps-quiet, Ends, Frame, Keeps, IsNoLog, Ends-and_then, Ends-mono,
}
use dr_shadow_stack.Text.{numeral}
use dr_shadow_stack.Runtime.{log}
use dr_shadow_stack.Runtime.Termination.{Ends-checked, log-Ends}
use dr_shadow_stack.ShadowStack.{Event}
use dr_shadow_stack.Mode.{SsMode, mode_of, ss_mode, ss_mode-mode_of, external_mode_flag}
use dr_shadow_stack.Environment.{getenv, dr_ss_env_sock, dr_ss_env_fd}
use dr_shadow_stack.Sockets.{sun_path_size}
use dr_shadow_stack.Client
use dr_shadow_stack.Client.{run_events, next_of}
use dr_shadow_stack.Server.Bounds.{pow-positive}
use dr_shadow_stack.Message.Events.{Stream}
use dr_shadow_stack.Client.Messages.{InRange}
use dr_shadow_stack.Client.Protocol.{stream_of}
use dr_shadow_stack.Client.Session.{run_events-Told}
use dr_shadow_stack.Client.Setup.{setup-connects}
use dr_shadow_stack.DrClient.{
  SsHandlers, Inserted, all_from, external, clean_call, mbr_instrumentation, event_app_instruction,
  run_before_everything, set_up_mode, dr_client_main,
}
use dr_shadow_stack.DrClient.Events.{StartKept, run_before_everything-Ends}
use dr_shadow_stack.DrClient.Instrumented.{Executed, handler_event, events_in}
use dr_shadow_stack.DrClient.Session.{run_inserted, execute, instrumented}

-- The addresses that are executed next fit a pointer.
abbrev pub AddressesFit : Platform → List Executed → Type 0
AddressesFit p [] = Unit {0}
AddressesFit p ((i, next) ∷ is) = (next < 256 ^ p.pointer_size) × AddressesFit p is

module _ (p : Platform) where
  InRange-events_in : (is : List Executed) → AddressesFit p is → InRange p (events_in p is)
  unfolding events_in event_app_instruction
  InRange-events_in [] h = tt
  InRange-events_in ((i, next) ∷ is) (h, k) =
      let after : (i.app_pc + i.size) % 256 ^ p.pointer_size < 256 ^ p.pointer_size =
        mod-lt (i.app_pc + i.size) (pow-positive p.pointer_size) in
      let rest = InRange-events_in is k in
      elim (Bool-cases i.is_call) [
        | inl y ↦ elim (Bool-cases i.is_return) [
          | inl z ↦ rw (y, z) (after, (h, rest))
          | inr n ↦ rw (y, n) (after, rest)
        ]
        | inr m ↦ elim (Bool-cases i.is_return) [
          | inl z ↦ rw (m, z) (h, rest)
          | inr n ↦ rw (m, n) rest
        ]
      ]

  module _ (s : ℕ) where
    -- An envp that is not looked at, since nothing calls execve here.
    abbrev some_env : List (List ℕ)
    some_env = dr_ss_env_fd ∷ []

    run_inserted-external :
        (t next : ℕ) (xs : List Inserted) (rest : M (Unit {0})) (es : List Event)
        → rest ≡ run_events p s some_env es
        → run_inserted p (all_from (external (some s))) t next xs rest
          ≡ run_events p s some_env (map (handler_event next) xs ++ es)
    unfolding run_inserted run_events
    run_inserted-external t next [] rest es e = e
    run_inserted-external t next (clean_call a ∷ xs) rest es e =
        ap (λ m. Client.on_call p s a >> m) (run_inserted-external t next xs rest es e)
    run_inserted-external t next (mbr_instrumentation ∷ xs) rest es e =
        ap (λ m. Client.on_ret p s next >> m) (run_inserted-external t next xs rest es e)

    execute-external :
        (t : ℕ) (is : List Executed)
        → execute p (all_from (external (some s))) t is ≡ run_events p s some_env (events_in p is)
    unfolding execute events_in run_events
    execute-external t [] = refl
    execute-external t ((i, next) ∷ is) =
        run_inserted-external t next (event_app_instruction p i)
          (execute p (all_from (external (some s))) t is) (events_in p is) (execute-external t is)

  -- The handlers of external mode, on a socket that socket() has given and that the variable spells.
  abbrev Attached : SsHandlers → World → Type 0
  Attached h v =
      (s : ℕ) × (g : List Syscall) × (p.result g socket ≡ some s)
      × (h ≡ all_from (external (some s)))
      × (getenv dr_ss_env_fd v.environ ≡ some (numeral 10 s))

  set_up_mode-external :
      (m : SsMode) (path : List ℕ) (w : World)
      → m.is_internal ≡ false
      → m.is_external ≡ true
      → length path < sun_path_size
      → getenv dr_ss_env_fd w.environ ≡ some []
      → Ends (λ h v. Attached h v × Keeps w v) (set_up_mode p m path w)
  unfolding set_up_mode
  set_up_mode-external m path w int ext short fd =
      rw (int, ext)
        (Ends-and_then _ _ (Client.setup p path w) _ (setup-connects p path w short fd)
          λ o d ((s, g, made, is, spelled), k).
            ((s, g, made, ap (λ x. all_from (external x)) is, spelled), k))

  -- The client of external mode.
  main-external :
      (name path : List ℕ) (w : World)
      → getenv dr_ss_env_sock w.environ ≡ some path
      → length path < sun_path_size
      → getenv dr_ss_env_fd w.environ ≡ some []
      → Ends (λ h v. Attached h v × Keeps w v) (dr_client_main p (name ∷ external_mode_flag ∷ []) w)
  unfolding dr_client_main mode_of sent
  main-external name path w sock short fd =
      Ends-and_then (λ _ a. StartKept p w a) _ (run_before_everything p w) _
        (run_before_everything-Ends p w)
        λ _ a (ea, _, ka). Ends-checked p _ _ _ a _ λ two.
          rw (ap (getenv dr_ss_env_sock) ea ∙ sock) (
            Ends-checked p _ _ _ a _ λ set.
              Ends-and_then (λ _ b. Frame a b) _ (log p _ a) _ (log-Ends p _ a)
                λ _ b q.
                  Ends-and_then _ _ (ss_mode p external_mode_flag b) _
                    (ss_mode-mode_of p external_mode_flag b)
                    λ m c (is, same). Ends-checked p _ _ _ c _ λ valid.
                      Ends-and_then (λ h d. Attached h d × Keeps c d) _ (set_up_mode p m path c) _
                        (set_up_mode-external m path c (ap (λ (x : SsMode). x.is_internal) is)
                          (ap (λ (x : SsMode). x.is_external) is) short
                          (ap (λ (x : World). getenv dr_ss_env_fd x.environ) same
                            ∙ ap (λ (x : World). getenv dr_ss_env_fd x.environ) q.same
                            ∙ ap (getenv dr_ss_env_fd) ea
                            ∙ fd))
                        λ h d ((s, g, made, all, spelled), kd). Ends-checked p _ _ _ d _ λ usable.
                          Ends-and_then (λ _ e. Frame d e) _ (log p _ d) _ (log-Ends p _ d)
                            λ _ e r. (
                              (
                                s,
                                g,
                                made,
                                all,
                                ap (λ (x : World). getenv dr_ss_env_fd x.environ) r.same ∙ spelled,
                              ),
                              Keeps-trans ka (
                                  Keeps-trans (Keeps-Frame q) (
                                    Keeps-trans (mode_keeps b c same)
                                      (Keeps-trans kd (Keeps-Frame r)))),
                            ))
    where
      mode_keeps :
          (b c : World) → c ≡ record b { trace = strdup external_mode_flag ∷ b.trace } → Keeps b c
      mode_keeps b c e =
          subst (λ x. Keeps b x) (sym e)
            (Keeps-quiet b (record b { trace = strdup external_mode_flag ∷ b.trace }) refl
              (λ fd. refl))

  some_env-next : (s : ℕ) → next_of (some_env s) ≡ some dr_ss_env_fd
  unfolding next_of
  some_env-next s = refl

  -- A socket that the variable spells, and on which the messages since `w` spell the instructions' events.
  abbrev pub ToldSince : World → List Executed → World → Type 0
  ToldSince w is v =
      (s : ℕ) × (chunks : List (List ℕ)) × (getenv dr_ss_env_fd v.environ ≡ some (numeral 10 s))
      × (sent s v.trace ≡ chunks ++ sent s w.trace)
      × Stream p [] (events_in p is) (stream_of chunks)

  -- On any kernel, for a client in external mode, where DR_SS_ENV_SOCK has a path that fits an
  -- address, DR_SS_ENV_FD is empty, socket() gives no descriptor of a log and the addresses that are
  -- executed next fit a pointer: when dr_client_main has set up the handlers and the target executes
  -- its instructions, each calling the stored handlers through the code inserted before it, the run
  -- ends, by a return or with the group killed. If it returns, DR_SS_ENV_FD spells a descriptor, and
  -- the bytes that have been written to it in the run spell the calls and returns that were
  -- executed.
  pub instrumented-Told :
      (name path : List ℕ) (t : ℕ) (is : List Executed) (w : World)
      → getenv dr_ss_env_sock w.environ ≡ some path
      → length path < sun_path_size
      → getenv dr_ss_env_fd w.environ ≡ some []
      → ((g : List Syscall) (s : ℕ) → p.result g socket ≡ some s → IsNoLog w s)
      → AddressesFit p is
      → Ends (λ _ v. ToldSince w is v) (instrumented p (name ∷ external_mode_flag ∷ []) t is w)
  unfolding instrumented
  instrumented-Told name path t is w sock short fd fresh fit =
      Ends-and_then _ _ (dr_client_main p (name ∷ external_mode_flag ∷ []) w) _
        (main-external name path w sock short fd)
        λ h v ((s, g, made, all, spelled), keeps).
          let (free, unsent) = keeps s (fresh g s made) in
          subst (λ f. Ends (λ _ u. ToldSince w is u) (execute p f t is v)) (sym all)
            (subst (λ (m : M (Unit {0})). Ends (λ _ u. ToldSince w is u) (m v))
              (sym (execute-external s t is))
              (Ends-mono _ _ (run_events p s (some_env s) (events_in p is) v)
                (run_events-Told p s (some_env s) dr_ss_env_fd (events_in p is) v (some_env-next s)
                  (InRange-events_in is fit) free)
                λ _ u told. (
                  s,
                  told.chunks,
                  ap (λ (x : World). getenv dr_ss_env_fd x.environ) told.same ∙ spelled,
                  told.out ∙ ap (◌++◌ told.chunks) unsent,
                  told.spelled,
                )))
