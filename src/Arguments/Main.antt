-- ===== src/Arguments/Main.antt =====
-- The whole of main (shadow_stack.cpp, parse_args.cpp): which command lines lead to drrun, and that
-- nothing else survives.
use dr_shadow_stack.Base.{
  ℕ, ◌<◌, ◌≡◌, ◌≢◌, refl, sym, ap, ◌∙◌, true, false, not, ◌&&◌, some, List, [], ◌∷◌, length, ◌==◌,
  bytes_eq, eq_of_bytes_eq,
}
use dr_shadow_stack.Platform.{Platform, World, strdup}
use dr_shadow_stack.Platform.Post.{
  Ends, Kills, Frame, Frame-refl, Ends-and_then, Ends-mono, Ends-if, Ends-of_Kills, Kills-and_then,
}
use dr_shadow_stack.Runtime.{log, log_error, terminate}
use dr_shadow_stack.Runtime.Termination.{log-Ends, log_error-Ends, terminate-Kills}
use dr_shadow_stack.Group
use dr_shadow_stack.Group.Setup.{group_setup-Ends}
use dr_shadow_stack.Mode.{mode_of, ss_mode, ss_mode-mode_of}
use dr_shadow_stack.Sockets.{model, sun_path_size}
use dr_shadow_stack.Start.{Args, run_main}
use dr_shadow_stack.Start.Kept.{Kept, Kept-trans, Kept-same, Fresh, Fresh-Kept}
use dr_shadow_stack.Start.Run.{Started, run_main-Ends}
use dr_shadow_stack.Arguments.{
  CommandLine, VariablesMap, or_default, incorrect_usage, nothing, drop_target, parse_args_helper,
  parse_args, run_setup, main,
}

-- The target and its arguments are the command line's, and so is the mode, or else it is the default.
pub record Asked (c : CommandLine) (args : Args) : Type 0 where
  pub target : args.target ≡ c.target_option
  pub rest : c.unrecognized ≡ args.target ∷ args.target_args
  pub mode : args.mode ≡ mode_of (or_default c.ss_mode_option c.default_mode)
  pub valid : args.mode.is_valid_mode ≡ true

module _ (p : Platform) (c : CommandLine) where
  incorrect_usage-Kills {ℓ} : {A : Type ℓ} (a : A) (w : World) → Kills (incorrect_usage p c a w)
  unfolding incorrect_usage
  incorrect_usage-Kills a w = Kills-and_then _ (terminate p _ true w) _ (terminate-Kills p _ true w)

  -- What parse_args reads.
  record Parsed (vm : VariablesMap) (w v : World) : Type 0 where
    mode : vm.mode ≡ or_default c.ss_mode_option c.default_mode
    target : vm.target ≡ c.target_option
    rest : c.unrecognized ≡ c.target_option ∷ vm.target_args
    frame : Frame w v

  drop_target-Ends :
      (xs : List (List ℕ)) (w : World)
      → c.unrecognized ≡ xs
      → xs ≢ []
      → Ends (λ vm v. Parsed vm w v) (drop_target p c xs w)
  unfolding drop_target
  drop_target-Ends [] w e n = absurd (n refl)
  drop_target-Ends (x ∷ xs) w e n =
      Ends-if (λ vm v. Parsed vm w v) (bytes_eq x c.target_option) _ _ w
        (λ y. record {
          mode = refl;
          target = refl;
          rest = e ∙ ap (λ t. t ∷ xs) (eq_of_bytes_eq x c.target_option y);
          frame = Frame-refl w;
        })
        λ k. Ends-of_Kills _ _ (incorrect_usage-Kills (nothing p c) w)

  parse_args_helper-Ends :
      (w : World)
      → (c.help && c.argc == 2) ≡ false
      → (c.version && c.argc == 2) ≡ false
      → c.unrecognized ≢ []
      → Ends (λ vm v. Parsed vm w v) (parse_args_helper p c w)
  unfolding parse_args_helper
  parse_args_helper-Ends w h k n =
      Ends-if (λ vm v. Parsed vm w v) (not c.usage_parsed) _ _ w
        (λ e. Ends-of_Kills _ _ (incorrect_usage-Kills (nothing p c) w))
        λ e.
          rw (h, k)
            (Ends-if (λ vm v. Parsed vm w v) c.config_parsed (drop_target p c c.unrecognized) _ w
              (λ y. drop_target-Ends c.unrecognized w refl n)
              λ y. Ends-of_Kills _ _ (incorrect_usage-Kills (nothing p c) w))

  parse_args-Ends :
      (w : World)
      → (c.help && c.argc == 2) ≡ false
      → (c.version && c.argc == 2) ≡ false
      → c.unrecognized ≢ []
      → Ends (λ args v. Asked c args × Kept w v) (parse_args p c w)
  unfolding parse_args
  parse_args-Ends w h k n =
      Ends-and_then _ _ (parse_args_helper p c w) _ (parse_args_helper-Ends w h k n) λ vm a q.
        Ends-and_then _ _ (ss_mode p vm.mode a) _ (ss_mode-mode_of p vm.mode a) λ mode b (is, same).
          Ends-if (λ args v. Asked c args × Kept w v) mode.is_valid_mode _ _ b
            (λ y. (
              record {
                target = q.target;
                rest = q.rest ∙ ap (λ t. t ∷ vm.target_args) (sym q.target);
                mode = is ∙ ap mode_of q.mode;
                valid = y;
              },
              Kept-trans (Kept-same q.frame.same) (strdup_kept vm.mode a b same),
            ))
            λ y.
              Ends-and_then (λ _ v. Frame b v) _ (log_error p _ b) _ (log_error-Ends p _ b)
                λ _ v r. Ends-of_Kills _ _ (incorrect_usage-Kills _ v)
    where
      strdup_kept :
          (s : List ℕ) (a b : World) → b ≡ record a { trace = strdup s ∷ a.trace } → Kept a b
      strdup_kept s a b e = record {
        same = e ∙ (λ i. record a {
          trace = (sym e i).trace;
          environ = (sym e i).environ;
          is_multi_thread_or_process = (sym e i).is_multi_thread_or_process;
          setup_complete = (sym e i).setup_complete;
        });
      }

  run_setup-Ends : (w : World) → Ends (λ _ v. Kept w v) (run_setup p c w)
  unfolding run_setup
  run_setup-Ends w =
      Ends-and_then (λ _ a. Frame w a) _ (log p _ w) _ (log-Ends p _ w)
        λ _ a qa.
          Ends-and_then (λ _ b. Frame a b) _ (log p _ a) _ (log-Ends p _ a)
            λ _ b qb. Ends-mono _ _ (Group.setup p b) (group_setup-Ends p b) λ _ d s.
              Kept-trans (Kept-same qa.same) (Kept-trans (Kept-same qb.same) (setup_kept b d s.1))
    where
      setup_kept :
          (b d : World) → d ≡ record b { trace = d.trace; setup_complete = true } → Kept b d
      setup_kept b d e = record {
        same = e ∙ (λ i. record b {
          trace = d.trace;
          environ = (sym e i).environ;
          is_multi_thread_or_process = (sym e i).is_multi_thread_or_process;
          setup_complete = (sym e i).setup_complete;
        });
      }

  -- On any kernel that gives accepted connections descriptors other than those of the logs, where
  -- the name that boost makes fits a socket's address, for a command line that does not ask for help
  -- or the version alone, and of which boost collects at least one argument: main, from the opening
  -- of the log on, ends with drrun in the process's place or with the group killed. In the first
  -- case the target and its arguments are those of the command line, the mode is the one asked for,
  -- or else the default, and is valid, and drrun has the arguments of exec_args and both variables.
  pub main-Ends :
      (w : World)
      → Fresh p w
      → ((n : List ℕ) → p.unique_path (model p) ≡ some n → length n < sun_path_size)
      → (c.help && c.argc == 2) ≡ false
      → (c.version && c.argc == 2) ≡ false
      → c.unrecognized ≢ []
      → Ends (λ argv v. (args : Args) × Asked c args × Started p args argv v) (main p c w)
  unfolding main
  main-Ends w fresh short h k n =
      Ends-and_then _ _ (run_setup p c w) _ (run_setup-Ends w) λ _ d set.
        Ends-and_then _ _ (parse_args p c d) _ (parse_args-Ends d h k n) λ args e (asked, kept).
          Ends-mono _ _ (run_main p args e)
            (run_main-Ends p args e (Fresh-Kept p w e (Kept-trans set kept) fresh) short)
            λ argv v started. (args, asked, started)
