-- ===== src/Program/Handoff.antt =====
-- From the command line of DrShadowStack to the handlers of its client: main of shadow_stack.cpp, then
-- dr_client_main of dr_shadow_stack_client.cpp in the process that drrun has become.
use dr_shadow_stack.Base.{
  ℕ, ◌<◌, ◌≡◌, ◌≢◌, refl, sym, ap, ◌∙◌, false, some, List, [], ◌∷◌, ◌==◌, ◌&&◌, length, inl, inr,
  Bool, subst,
}
use dr_shadow_stack.Platform.{Platform, World, Outcome}
use dr_shadow_stack.Platform.Post.{Ends, Ends-mono}
use dr_shadow_stack.Runtime.Logging.{Works}
use dr_shadow_stack.Environment.{Environ}
use dr_shadow_stack.Mode.{SsMode, mode_of}
use dr_shadow_stack.Sockets.{model, sun_path_size}
use dr_shadow_stack.Start.{Args, exec_args}
use dr_shadow_stack.Start.Run.{Started}
use dr_shadow_stack.Arguments.Options.{ProgramOptions, command_line}
use dr_shadow_stack.Arguments.Main.{Asked}
use dr_shadow_stack.DrClient.{SsHandlers, dr_client_main}
use dr_shadow_stack.DrClient.Launch.{HandlersOf, dr_client_main-HandlersOf}
use dr_shadow_stack.Program.{NewDescriptors, EndsOrFails, dr_shadow_stack_run, run-Ends}

EndsOrFails-mono {ℓ} :
    {A : Type ℓ} (Q R : A → World → Type 0) (o : Outcome A)
    → EndsOrFails Q o
    → ((a : A) (w : World) → Q a w → R a w)
    → EndsOrFails R o
EndsOrFails-mono Q R o (inl e) f = inl e
EndsOrFails-mono Q R o (inr e) f = inr (Ends-mono Q R o e f)

mode_of_str : (s : List ℕ) → mode_of (mode_of s).str ≡ mode_of s
unfolding mode_of
mode_of_str s = refl

str_lem : (m : SsMode) (s : List ℕ) → m ≡ mode_of s → mode_of m.str ≡ m
str_lem m s e = ap (λ (x : SsMode). mode_of x.str) e ∙ mode_of_str s ∙ sym e

module _ (p : Platform) where
  -- A client that is named and given its mode as exec_args does, in a process with the environment of
  -- the one that drrun has taken over.
  abbrev pub client_of : Args → World → List ℕ → World → Outcome SsHandlers
  client_of args v name w =
      dr_client_main p (name ∷ args.mode.str ∷ []) (record w { environ = v.environ })

  -- Drrun is in the process's place, with the arguments of exec_args, and such a client ends, by a
  -- return with its mode's handlers or with the group killed.
  abbrev pub Handoff : List ℕ → World → Args → List (List ℕ) → World → Type 0
  Handoff name w args argv v =
      (argv ≡ exec_args p args) × Ends (λ h u. HandlersOf p args.mode h u) (client_of args v name w)

  Started-Handoff :
      (name : List ℕ) (w : World) (args : Args) (s : List ℕ) (argv : List (List ℕ)) (v : World)
      → args.mode ≡ mode_of s
      → Started p args argv v
      → Handoff name w args argv v
  Started-Handoff name w args s argv v m st = (
    st.arguments,
    subst (λ mode. Ends (λ h u. HandlersOf p mode h u) (client_of args v name w))
        (str_lem args.mode s m)
        (dr_client_main-HandlersOf p name args.mode.str st.path (record w { environ = v.environ })
          st.sock st.fits st.fd),
  )

  -- On a kernel whose calls succeed, which gives accepted connections descriptors that neither
  -- fileno nor the opening of the log has given, where the name that boost makes fits a socket's
  -- address, in a build with or without a log, for arguments that do not ask for help or the version
  -- alone, and of which boost, given the program's options, collects at least one, and for a client
  -- of any name in a process of any other state: DrShadowStack fails with status 1, or ends with
  -- drrun in the process's place or with the group killed. Where drrun is in its place, its
  -- arguments are those of exec_args, for the command line's target and for the mode asked for, or
  -- else the default, which is valid; and dr_client_main, given the mode's text that stands in these
  -- arguments and the environment that is left, ends, by a return or with the group killed. If it
  -- returns, the mode is internal and all three handlers are those of internal mode, or it is
  -- external and all three are those of external mode on one socket, which socket() has given and
  -- DR_SS_ENV_FD spells.
  pub run-Handoff :
      (ok : Works p) (boost : ProgramOptions) (version default : List ℕ) (has_log_file : Bool)
      (environ : Environ) (argv : List (List ℕ)) (name : List ℕ) (w : World)
      → NewDescriptors p
      → ((n : List ℕ) → p.unique_path (model p) ≡ some n → length n < sun_path_size)
      → ((command_line boost version default argv).help && length argv == 2) ≡ false
      → ((command_line boost version default argv).version && length argv == 2) ≡ false
      → (command_line boost version default argv).unrecognized ≢ []
      → EndsOrFails
          (λ args v.
            (asked : Args) × Asked (command_line boost version default argv) asked
            × Handoff name w asked args v)
          (dr_shadow_stack_run p boost version default has_log_file environ argv)
  run-Handoff ok boost version default has_log_file environ argv name w new short h k n =
      EndsOrFails-mono _ _ (dr_shadow_stack_run p boost version default has_log_file environ argv)
        (run-Ends p ok boost version default has_log_file environ argv new short h k n)
        λ args v (asked, is, st). (asked, is, Started-Handoff name w asked _ args v is.mode st)
