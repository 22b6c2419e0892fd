-- ===== src/Arguments/Options.antt =====
-- The options that parse_args.cpp describes to boost::program_options. The library is a parameter: what
-- it makes of descriptions and arguments, and how it prints descriptions.
use dr_shadow_stack.Base.{
  ℕ, Bool, true, false, ◌&&◌, Option, none, some, List, [], ◌∷◌, ◌++◌, codes, length,
}
use dr_shadow_stack.Arguments.{CommandLine}
use dr_shadow_stack.Mode.{internal_mode_flag, external_mode_flag}

-- An entry of an options_description.
pub record OptionDescription : Type 0 where
  pub names : List ℕ
  pub has_value : Bool
  pub required : Bool
  pub description : List ℕ

-- The results of a parse that has thrown nothing: what is stored for each name, and the arguments that
-- are positional or unknown.
pub record ParseResult : Type 0 where
  pub value : List ℕ → Option (List ℕ)
  pub collected : List (List ℕ)

-- `none` is an exception. A positional option takes a number of arguments, `none` for all others.
pub record ProgramOptions : Type 0 where
  pub parse : List OptionDescription → List (List ℕ × Option ℕ) → List (List ℕ) → Option ParseResult
  pub print : List ℕ → List OptionDescription → List ℕ

-- MODE, TARGET and TARGET_ARGS.
abbrev pub mode_key : List ℕ
mode_key = codes "ss_mode"

abbrev pub target_key : List ℕ
target_key = codes "target"

abbrev pub target_args_key : List ℕ
target_args_key = codes "target-args"

unfoldable pub usage_options : List OptionDescription
usage_options =
    record {
      names = codes "help,h";
      has_value = false;
      required = false;
      description = codes "Produce help message";
    }
    ∷ record {
      names = codes "version,v";
      has_value = false;
      required = false;
      description = codes "produce version information";
    }
    ∷ []

unfoldable pub config_options : List OptionDescription
config_options =
    record {
      names = mode_key;
      has_value = true;
      required = false;
      description =
          codes "The mode in which the shadow stack is used\n\t"
          ++ internal_mode_flag
          ++ codes " -- internal shadow stack mode\n\t"
          ++ external_mode_flag
          ++ codes " -- external shadow stack mode";
    }
    ∷ record {
      names = target_key;
      has_value = true;
      required = true;
      description = codes "The target executable";
    }
    ∷ record {
      names = target_args_key;
      has_value = true;
      required = false;
      description = codes "The target executable's arguments";
    }
    ∷ []

unfoldable pub target_options : List (List ℕ × Option ℕ)
target_options = (target_key, some 1) ∷ (target_args_key, none) ∷ []

abbrev is_some {ℓ} : {A : Type ℓ} → Option A → Bool
is_some none = false
is_some (some a) = true

-- What is stored for a name.
abbrev stored : List ℕ → Option ParseResult → Option (List ℕ)
stored key none = none
stored key (some r) = r.value key

abbrev collected_of : Option ParseResult → List (List ℕ)
collected_of none = []
collected_of (some r) = r.collected

abbrev or_empty : Option (List ℕ) → List ℕ
or_empty none = []
or_empty (some s) = s

-- What parse_args_helper sees of the two parses; notify throws where a required option has no value.
unfoldable pub command_line : ProgramOptions → List ℕ → List ℕ → List (List ℕ) → CommandLine
unfolding usage_options config_options target_options
command_line boost version default argv =
    let usage = boost.parse usage_options [] argv in
    let config = boost.parse config_options target_options argv in
    record {
      argc = length argv;
      usage_parsed = is_some usage;
      help = is_some (stored (codes "help") usage);
      version = is_some (stored (codes "version") usage);
      config_parsed = is_some config && is_some (stored target_key config);
      ss_mode_option = stored mode_key config;
      target_option = or_empty (stored target_key config);
      unrecognized = collected_of config;
      usage_text = boost.print (codes "Generic options") usage_options;
      config_text = boost.print (codes "Configuration") config_options;
      version_text = version;
      default_mode = default;
    }
