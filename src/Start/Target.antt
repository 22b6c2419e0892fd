-- ===== src/Start/Target.antt =====
-- What drrun is started with (`start_program` of shadow_stack.cpp).
use dr_shadow_stack.Base.{ℕ, ◌≡◌, refl, sym, ap, ◌∙◌, Option, none, some, List, [], ◌∷◌}
use dr_shadow_stack.Platform.{Syscall, Platform, World, execvp, fflush, set_variable, steps}
use dr_shadow_stack.Platform.Post.{
  Ends, Frame, Frame-trans, Ends-and_then, Ends-mono, Kills-and_then,
}
use dr_shadow_stack.Runtime.{err, log}
use dr_shadow_stack.Runtime.Termination.{assert-Ends, log-Ends, err-Kills}
use dr_shadow_stack.Environment.{
  getenv, setenv, dr_ss_env_sock, dr_ss_env_fd, getenv-setenv, getenv-setenv_other,
}
use dr_shadow_stack.Start.{Args, set_env, exec_args, after_execvp, start_program}

-- The process is replaced by drrun: its environment, and the calls that led there.
pub record Launched (p : Platform) (args : Args) (path : List ℕ) (argv : List (List ℕ))
    (w v : World) : Type 0 where
  pub arguments : argv ≡ exec_args p args
  pub sock : getenv dr_ss_env_sock v.environ ≡ some path
  pub fd : getenv dr_ss_env_fd v.environ ≡ some []
  pub called :
      steps v.trace
      ≡ execvp p.drrun_path argv
        ∷ fflush
        ∷ set_variable dr_ss_env_fd []
        ∷ set_variable dr_ss_env_sock path
        ∷ steps w.trace

module _ (p : Platform) where
  -- A setenv that the check lets pass.
  abbrev pub stored : List ℕ → List ℕ → World → World
  stored name value w = record w {
    trace = set_variable name value ∷ w.trace;
    environ = setenv name value w.environ;
  }

  pub set_env-Ends :
      (failure name value : List ℕ) (w : World)
      → Ends (λ _ v. v ≡ stored name value w) (set_env p failure name value w)
  unfolding set_env
  set_env-Ends failure name value w = assert-Ends p _ _ _ _ λ e. rw e refl

  after_execvp-Ends :
      (argv : List (List ℕ)) (r : Option ℕ) (w : World)
      → Ends (λ out v. (out ≡ argv) × (v ≡ w)) (after_execvp p argv r w)
  unfolding after_execvp
  after_execvp-Ends argv none w = Kills-and_then _ (err p _ w) _ (err-Kills p _ w)
  after_execvp-Ends argv (some r) w = (refl, refl)

  -- On any kernel: start_program ends with drrun in the process's place or with the group killed. In
  -- the first case the only calls made, apart from logging, are the two setenv, a flush and the
  -- execvp, in this order; the variables have the socket's path and the empty text as their values,
  -- whatever was there before.
  pub start_program-Ends :
      (args : Args) (path : List ℕ) (w : World)
      → Ends (λ argv v. Launched p args path argv w v) (start_program p args path w)
  unfolding start_program steps
  start_program-Ends args path w =
      Ends-and_then _ _ (set_env p _ dr_ss_env_sock path w) _ (set_env-Ends _ dr_ss_env_sock path w)
        λ _ a ea.
          Ends-and_then (λ _ b. Frame a b) _ (log p _ a) _ (log-Ends p _ a)
            λ _ b qb.
              Ends-and_then _ _ (set_env p _ dr_ss_env_fd [] b) _ (set_env-Ends _ dr_ss_env_fd [] b)
                λ _ c ec.
                  Ends-and_then (λ _ d. Frame c d) _ (log p _ c) _ (log-Ends p _ c)
                    λ _ d qd.
                      Ends-and_then (λ _ e. Frame d e) _ (log p _ d) _ (log-Ends p _ d)
                        λ _ e qe.
                          Ends-mono _ _ (after_execvp p (exec_args p args) _ _)
                            (after_execvp-Ends (exec_args p args) _ _)
                            λ argv v ev. done a b c e argv v ea qb ec (Frame-trans qd qe) ev.0 ev.1
    where
      called : World → World
      called e = record e { trace = execvp p.drrun_path (exec_args p args) ∷ fflush ∷ e.trace }

      done :
          (a b c e : World) (argv : List (List ℕ)) (v : World)
          → a ≡ stored dr_ss_env_sock path w
          → Frame a b
          → c ≡ stored dr_ss_env_fd [] b
          → Frame c e
          → argv ≡ exec_args p args
          → v ≡ called e
          → Launched p args path argv w v
      done a b c e argv v ea qb ec qe g ev = record {
        arguments = g;
        sock =
            ap (getenv dr_ss_env_sock) environment
            ∙ getenv-setenv_other dr_ss_env_sock dr_ss_env_fd []
                (setenv dr_ss_env_sock path w.environ) refl
            ∙ getenv-setenv dr_ss_env_sock path w.environ;
        fd =
            ap (getenv dr_ss_env_fd) environment
            ∙ getenv-setenv dr_ss_env_fd [] (setenv dr_ss_env_sock path w.environ);
        called =
            ap steps_of ev
            ∙ ap (λ t. execvp p.drrun_path (exec_args p args) ∷ fflush ∷ t)
                (qe.settled
                  ∙ ap steps_of ec
                  ∙ ap (λ t. set_variable dr_ss_env_fd [] ∷ t) (qb.settled ∙ ap steps_of ea))
            ∙ ap
                (λ x.
                  execvp p.drrun_path x
                  ∷ fflush
                  ∷ set_variable dr_ss_env_fd []
                  ∷ set_variable dr_ss_env_sock path
                  ∷ steps w.trace)
                (sym g);
      }
        where
          steps_of : World → List Syscall
          steps_of x = steps x.trace

          environment : v.environ ≡ setenv dr_ss_env_fd [] (setenv dr_ss_env_sock path w.environ)
          environment =
              ap (λ (x : World). x.environ) ev
              ∙ ap (λ (x : World). x.environ) qe.same
              ∙ ap (λ (x : World). x.environ) ec
              ∙ ap (setenv dr_ss_env_fd [])
                  (ap (λ (x : World). x.environ) qb.same ∙ ap (λ (x : World). x.environ) ea)
