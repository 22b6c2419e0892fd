-- ===== src/Program.antt =====
-- The whole program: the initialisation of its static variables (utilities.cpp, group.cpp), the
-- opening of its log, and main (shadow_stack.cpp).
pub mod Handoff
use dr_shadow_stack.Base.{
  ℕ, ◌<◌, ◌≡◌, ◌≢◌, ◌⊎◌, inl, inr, refl, sym, ap, ◌∙◌, Bool, true, false, ◌&&◌, Option, none, some,
  List, [], ◌∷◌, ◌==◌, length,
}
use dr_shadow_stack.Platform.{
  returns, Platform, World, M, Outcome, Syscall, fileno, open_log, unlink_log, accept, skip, exited,
  ◌>>=◌, ◌>>◌,
}
use dr_shadow_stack.Platform.Post.{Ends}
use dr_shadow_stack.Runtime.Logging.{Works}
use dr_shadow_stack.Environment.{Environ}
use dr_shadow_stack.LogFile.{
  checked_fd, get_fd, open_log_file, open_log_file-Opened, opened, not_opened, not_cleared,
}
use dr_shadow_stack.Sockets.{model, sun_path_size}
use dr_shadow_stack.Start.{Args}
use dr_shadow_stack.Start.Kept.{Fresh}
use dr_shadow_stack.Start.Run.{Started}
use dr_shadow_stack.Arguments.{CommandLine, main}
use dr_shadow_stack.Arguments.Options.{ProgramOptions, command_line}
use dr_shadow_stack.Arguments.Main.{Asked, main-Ends}

-- The static variables before any code has run, in a process with an environment.
unfoldable pub statics : Environ → World
statics environ = record {
  trace = [];
  incoming = [];
  is_multi_thread_or_process = false;
  log_fd = none;
  stdout_fd = none;
  error_fd = none;
  terminate_already_called = false;
  setup_complete = false;
  sym_setup = false;
  environ = environ;
  tls = λ t. none;
}

module _ (p : Platform) where
  -- `error_fd = get_fd( ERROR_FILE )`, then `stdout_fd = get_fd( STDOUT_FILE )`.
  unfoldable pub static_init : M (Unit {0})
  static_init = do
    error ← get_fd p false
    λ w. skip (record w { error_fd = error })
    stdout ← get_fd p false
    λ w. skip (record w { stdout_fd = stdout })

  -- `c` is the command line as parse_args sees it.
  unfoldable pub program : CommandLine → Bool → Environ → Outcome (List (List ℕ))
  unfolding statics static_init
  program c has_log_file environ =
      (do static_init; open_log_file p has_log_file true; main p c) (statics environ)

  -- A run of DrShadowStack: its arguments, with the options library and the texts of the build.
  unfoldable pub dr_shadow_stack_run :
      ProgramOptions → List ℕ → List ℕ → Bool → Environ → List (List ℕ) → Outcome (List (List ℕ))
  unfolding program
  dr_shadow_stack_run boost version default has_log_file environ argv =
      program (command_line boost version default argv) has_log_file environ

-- The kernel gives an accepted connection a descriptor that is not in use.
abbrev pub NewDescriptors : Platform → Type 0
NewDescriptors p =
    (h h' : List Syscall) (s fd : ℕ)
    → p.result h (accept s) ≡ some fd
    → (p.result h' fileno ≢ some fd) × (p.result h' open_log ≢ some fd)

-- The process has ended itself with status 1, or the code has ended as it should.
abbrev pub EndsOrFails {ℓ} : {A : Type ℓ} → (A → World → Type 0) → Outcome A → Type ℓ
EndsOrFails Q o = ((v : World) × (o ≡ exited 1 v)) ⊎ Ends Q o

module _ (p : Platform) where
  -- Where the descriptors of the logs come from.
  record FromKernel (w : World) : Type 0 where
    error : (fd : ℕ) → w.error_fd ≡ some fd → (h : List Syscall) × (p.result h fileno ≡ some fd)
    stdout : (fd : ℕ) → w.stdout_fd ≡ some fd → (h : List Syscall) × (p.result h fileno ≡ some fd)
    log_file : (fd : ℕ) → w.log_fd ≡ some fd → (h : List Syscall) × (p.result h open_log ≡ some fd)

  FromKernel-Fresh : (w : World) → NewDescriptors p → FromKernel w → Fresh p w
  FromKernel-Fresh w new f h s fd e = record {
    not_log = λ g. let (h', r) = f.log_file fd g in (new h h' s fd e).1 r;
    not_stdout = λ g. let (h', r) = f.stdout fd g in (new h h' s fd e).0 r;
    not_error = λ g. let (h', r) = f.error fd g in (new h h' s fd e).0 r;
  }

  get_fd_lem :
      (w : World)
      → ((v : World) × (get_fd p false w ≡ exited 1 v))
        ⊎ ((fd : ℕ) × (p.result w.trace fileno ≡ some fd)
            × (get_fd p false w ≡ returns (some fd) (record w { trace = fileno ∷ w.trace })))
  unfolding get_fd
  get_fd_lem w = go (p.result w.trace fileno) refl
    where
      after : World
      after = record w { trace = fileno ∷ w.trace }

      go :
          (r : Option ℕ)
          → p.result w.trace fileno ≡ r
          → ((v : World) × (checked_fd p r after ≡ exited 1 v))
            ⊎ ((fd : ℕ) × (p.result w.trace fileno ≡ some fd)
                × (checked_fd p r after ≡ returns (some fd) after))
      go none e = inl (after, refl)
      go (some fd) e = inr (fd, e, refl)

  -- The static variables of a process that has not failed.
  static_init_lem :
      (w : World)
      → w.log_fd ≡ none
      → ((v : World) × (static_init p w ≡ exited 1 v))
        ⊎ ((v : World) × (static_init p w ≡ returns tt v) × FromKernel v × (v.log_fd ≡ none))
  unfolding static_init
  static_init_lem w closed = elim (get_fd_lem w) [
    | inl (v, e) ↦ inl (v, rw e refl)
    | inr (a, g, e) ↦ elim (get_fd_lem (record w { trace = fileno ∷ w.trace; error_fd = some a })) [
      | inl (v, f) ↦ inl (v, rw (e, f) refl)
      | inr (b, k, f) ↦ inr (
        record w { trace = fileno ∷ fileno ∷ w.trace; error_fd = some a; stdout_fd = some b },
        rw (e, f) refl,
        record {
          error = λ fd q. (w.trace, g ∙ q);
          stdout = λ fd q. (fileno ∷ w.trace, k ∙ q);
          log_file = λ fd q. let z : none ≡ some fd = sym closed ∙ q in cc;
        },
        closed,
      )
    ]
  ]

  no_log : (w : World) → open_log_file p false true w ≡ returns tt w
  unfolding open_log_file
  no_log w = refl

  -- The log's descriptor, where the build has a log.
  open_log_lem :
      (ok : Works p) (has_log_file : Bool) (w : World)
      → FromKernel w
      → w.log_fd ≡ none
      → ((v : World) × (open_log_file p has_log_file true w ≡ exited 1 v))
        ⊎ ((v : World) × (open_log_file p has_log_file true w ≡ returns tt v) × FromKernel v)
  open_log_lem ok true w f closed = elim (open_log_file-Opened p ok true w) [
    | opened fd may g e ↦ inr (
      record w { trace = open_log ∷ unlink_log ∷ w.trace; log_fd = some fd },
      e,
      record {
        error = f.error;
        stdout = f.stdout;
        log_file = λ x q. (unlink_log ∷ w.trace, g ∙ q);
      },
    )
    | not_opened v may g e q ↦ inl (v, e)
    | not_cleared v bad e q ↦ inl (v, e)
  ]
  open_log_lem ok false w f closed = inr (w, no_log w, f)

  -- On a kernel whose calls succeed, which gives accepted connections descriptors that neither
  -- fileno nor the opening of the log has given, where the name that boost makes fits a socket's
  -- address, in a build with or without a log, for a command line that does not ask for help or the
  -- version alone, and of which boost collects at least one argument: the program, from the
  -- initialisation of its static variables on, fails with status 1, or ends with drrun in the
  -- process's place or with the group killed. Where drrun is in its place, the target and its
  -- arguments are those of the command line, the mode is the one asked for, or else the default, and
  -- is valid, and drrun has the arguments of exec_args and both variables.
  pub program-Ends :
      (ok : Works p) (c : CommandLine) (has_log_file : Bool) (environ : Environ)
      → NewDescriptors p
      → ((n : List ℕ) → p.unique_path (model p) ≡ some n → length n < sun_path_size)
      → (c.help && c.argc == 2) ≡ false
      → (c.version && c.argc == 2) ≡ false
      → c.unrecognized ≢ []
      → EndsOrFails
          (λ argv v. (args : Args) × Asked c args × Started p args argv v)
          (program p c has_log_file environ)
  unfolding program statics
  program-Ends ok c has_log_file environ new short h k n =
      elim (static_init_lem (statics environ) refl) [
        | inl (v, e) ↦ inl (v, rw e refl)
        | inr (w, e, f, closed) ↦ elim (open_log_lem ok has_log_file w f closed) [
          | inl (v, g) ↦ inl (v, rw (e, g) refl)
          | inr (v, g, f') ↦
              inr (rw (e, g) (main-Ends p c v (FromKernel-Fresh v new f') short h k n))
        ]
      ]

  -- On a kernel whose calls succeed, which gives accepted connections descriptors that neither
  -- fileno nor the opening of the log has given, where the name that boost makes fits a socket's
  -- address, in a build with or without a log, for arguments that do not ask for help or the version
  -- alone, and of which boost, given the program's options, collects at least one: the program, from
  -- the initialisation of its static variables on, fails with status 1, or ends with drrun in the
  -- process's place or with the group killed. Where drrun is in its place, the target and its
  -- arguments are those of the command line, the mode is the one asked for, or else the default, and
  -- is valid, and drrun has the arguments of exec_args and both variables.
  pub run-Ends :
      (ok : Works p) (boost : ProgramOptions) (version default : List ℕ) (has_log_file : Bool)
      (environ : Environ) (argv : List (List ℕ))
      → NewDescriptors p
      → ((n : List ℕ) → p.unique_path (model p) ≡ some n → length n < sun_path_size)
      → ((command_line boost version default argv).help && length argv == 2) ≡ false
      → ((command_line boost version default argv).version && length argv == 2) ≡ false
      → (command_line boost version default argv).unrecognized ≢ []
      → EndsOrFails
          (λ args v.
            (asked : Args) × Asked (command_line boost version default argv) asked
            × Started p asked args v)
          (dr_shadow_stack_run p boost version default has_log_file environ argv)
  unfolding dr_shadow_stack_run command_line
  run-Ends ok boost version default has_log_file environ argv new short h k n =
      program-Ends ok (command_line boost version default argv) has_log_file environ new short h k n
