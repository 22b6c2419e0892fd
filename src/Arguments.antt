-- ===== src/Arguments.antt =====
-- parse_args.cpp and the whole of main (shadow_stack.cpp). What boost::program_options makes of the
-- command line is a parameter; what the code does with it is written out.
pub mod Main
pub mod Options
use dr_shadow_stack.Base.{
  ℕ, Bool, true, false, not, ◌&&◌, Option, none, some, List, [], ◌∷◌, codes, bytes_eq, ◌==◌,
  if◌then◌else◌,
}
use dr_shadow_stack.Text.{Arg, text, bytes, character}
use dr_shadow_stack.Platform.{Platform, World, M, pure, skip, exited, undefined, ◌>>=◌, ◌>>◌}
use dr_shadow_stack.Runtime.{log, log_error, message, terminate}
use dr_shadow_stack.Group
use dr_shadow_stack.Mode.{SsMode, ss_mode}
use dr_shadow_stack.Start.{Args, run_main}

-- The results of the two runs of the parser: whether each went without an exception, the options that
-- it found, and the arguments that are positional or unknown. Then texts that the build fixes.
pub record CommandLine : Type 0 where
  pub argc : ℕ
  pub usage_parsed : Bool
  pub help : Bool
  pub version : Bool
  pub config_parsed : Bool
  pub ss_mode_option : Option (List ℕ)
  pub target_option : List ℕ
  pub unrecognized : List (List ℕ)
  pub usage_text : List ℕ
  pub config_text : List ℕ
  pub version_text : List ℕ
  pub default_mode : List ℕ

-- The values that parse_args reads from the map, and the target's arguments.
pub record VariablesMap : Type 0 where
  pub mode : List ℕ
  pub target : List ℕ
  pub target_args : List (List ℕ)

abbrev pub or_default : Option (List ℕ) → List ℕ → List ℕ
or_default none default = default
or_default (some mode) default = mode

module _ (p : Platform) (c : CommandLine) where
  -- It does not return: the value stands for what the compiler asks for.
  unfoldable pub incorrect_usage {ℓ} : {A : Type ℓ} → A → M A
  incorrect_usage a = do
    terminate p (some (text "Incorrect usage\nFor usage information, use the --help flag\n" ∷ []))
        true
    pure a

  abbrev pub nothing : VariablesMap
  nothing = record { mode = []; target = []; target_args = [] }

  -- The first of the collected arguments must be the target; it is dropped.
  unfoldable pub drop_target : List (List ℕ) → M VariablesMap
  unfolding incorrect_usage
  drop_target [] = λ w. undefined w
  drop_target (first ∷ target_args) =
      if bytes_eq first c.target_option
      then pure (record {
        mode = or_default c.ss_mode_option c.default_mode;
        target = c.target_option;
        target_args = target_args;
      })
      else incorrect_usage nothing

  -- `exit( EXIT_SUCCESS )`
  abbrev pub exit_success : M VariablesMap
  exit_success w = exited 0 w

  unfoldable pub parse_args_helper : M VariablesMap
  unfolding incorrect_usage drop_target
  parse_args_helper =
      if not c.usage_parsed
      then incorrect_usage nothing
      else (if c.help && c.argc == 2
          then (do
            message p (text "\n" ∷ bytes c.usage_text ∷ character b'\n' ∷ bytes c.config_text ∷ [])
            exit_success)
          else (if c.version && c.argc == 2
              then (do message p (text "version " ∷ bytes c.version_text ∷ []); exit_success)
              else (if c.config_parsed
                  then drop_target c.unrecognized
                  else incorrect_usage nothing)))

  unfoldable pub parse_args : M Args
  unfolding parse_args_helper incorrect_usage
  parse_args = do
    vm ← parse_args_helper
    mode ← ss_mode p vm.mode
    let args : Args = record { mode = mode; target = vm.target; target_args = vm.target_args }
    if mode.is_valid_mode
        then pure args
        else (do log_error p (text "Invalid mode given" ∷ []); incorrect_usage args)

  -- `run_before_everything` of shadow_stack.cpp, from the log's opening on.
  unfoldable pub run_setup : M (Unit {0})
  run_setup = do
    log p (text "DrShadowStack initalized" ∷ [])
    log p (text "Setting up the group now..." ∷ [])
    Group.setup p

  unfoldable pub main : M (List (List ℕ))
  unfolding run_setup parse_args
  main = do run_setup; args ← parse_args; run_main p args
