-- ===== src/Start/Run.antt =====
-- `main` of shadow_stack.cpp from its parsed arguments on: it ends with drrun in the process's place or
-- with the group killed.
use dr_shadow_stack.Base.{
  ◌⊎◌, arith, suc, ℕ, ◌<◌, ◌≡◌, refl, sym, ◌∙◌, subst, true, false, Option, none, some, List, [],
  ◌∷◌, length, Option-cases, inl, inr,
}
use dr_shadow_stack.Platform.{Platform, World, returns, fork}
use dr_shadow_stack.Platform.Post.{
  Ends, Kills, Returns, Ends-of_Returns, Frame, Ends-and_then, Ends-mono, Ends-if, Ends-of_Kills,
  Kills-and_then,
}
use dr_shadow_stack.Runtime.{err, log, terminate, enable_multi_thread_or_process_mode}
use dr_shadow_stack.Runtime.Termination.{
  Ends-checked, assert-Ends, log-Ends, err-Kills, terminate-Kills,
}
use dr_shadow_stack.Environment.{getenv, unsetenv, dr_ss_env_sock, dr_ss_env_fd, getenv-unsetenv}
use dr_shadow_stack.Group.{handle_signal}
use dr_shadow_stack.Group.Setup.{handle_signal-Kills}
use dr_shadow_stack.Sockets.{
  temp_name, name_or_err, model, create_server, accept_client, sun_path_size,
}
use dr_shadow_stack.Sockets.Calls.{create_server-Ends, accept_client-Ends}
use dr_shadow_stack.Server.{start_external_shadow_stack}
use dr_shadow_stack.Server.Loop.{start_external_shadow_stack-Ends}
use dr_shadow_stack.Start.{
  Args, exec_args, start_program, child, parent, start_external_client, delete_variable, ignore,
  start, run_main,
}
use dr_shadow_stack.Start.Target.{Launched, start_program-Ends}
use dr_shadow_stack.Start.Kept.{Kept, Kept-refl, Kept-trans, Kept-same, Fresh, Fresh-Kept}

-- Drrun has taken the process's place, with the variables that the client reads.
pub record Started (p : Platform) (args : Args) (argv : List (List ℕ)) (v : World) : Type 0 where
  pub path : List ℕ
  pub arguments : argv ≡ exec_args p args
  pub sock : getenv dr_ss_env_sock v.environ ≡ some path
  pub fd : getenv dr_ss_env_fd v.environ ≡ some []
  pub fits : length path < sun_path_size
  pub served : (args.mode.is_internal ≡ true) ⊎ (args.mode.is_external ≡ true)

Started-Launched :
    {p : Platform} {args : Args} {path : List ℕ} {argv : List (List ℕ)} {w v : World}
    → length path < sun_path_size
    → (args.mode.is_internal ≡ true) ⊎ (args.mode.is_external ≡ true)
    → Launched p args path argv w v
    → Started p args argv v
Started-Launched {path = path} short m l = record {
  path = path;
  arguments = l.arguments;
  sock = l.sock;
  fd = l.fd;
  fits = short;
  served = m;
}

module _ (p : Platform) where
  name_or_err-Ends :
      (o : Option (List ℕ)) (w : World) → Ends (λ n v. (o ≡ some n) × (v ≡ w)) (name_or_err p o w)
  unfolding name_or_err
  name_or_err-Ends none w = Kills-and_then _ (err p _ w) _ (err-Kills p _ w)
  name_or_err-Ends (some n) w = (refl, refl)

  temp_name-Ends :
      (w : World) → Ends (λ n v. (p.unique_path (model p) ≡ some n) × (v ≡ w)) (temp_name p w)
  unfolding temp_name
  temp_name-Ends w =
      Ends-if (λ n v. (p.unique_path (model p) ≡ some n) × (v ≡ w)) p.has_temp_directory _ _ w
        (λ e. name_or_err-Ends (p.unique_path (model p)) w)
        λ e. Kills-and_then _ (handle_signal p _ w) _ (handle_signal-Kills p _ w)

  child-Ends :
      (args : Args) (name : List ℕ) (w : World)
      → length name < sun_path_size
      → args.mode.is_external ≡ true
      → Ends (λ argv v. Started p args argv v) (child p args name w)
  unfolding child
  child-Ends args name w short m =
      Ends-and_then (λ _ v. Frame w v) _ (log p _ w) _ (log-Ends p _ w)
        λ _ v q.
          Ends-mono _ _ (start_program p args name v) (start_program-Ends p args name v)
            λ _ u l. Started-Launched short (inr m) l

  -- On any kernel that gives accepted connections descriptors other than those of the logs: the
  -- parent of the first fork ends with the group killed, after it has served its client.
  pub parent-Kills : (sock : ℕ) (w : World) → Fresh p w → Kills (parent p sock w)
  unfolding parent
  parent-Kills sock w fresh =
      Ends-and_then (λ _ v. Frame w v) _ (log p _ w) _ (log-Ends p _ w)
        λ _ v q.
          Ends-and_then _ _ (accept_client p sock v) _ (accept_client-Ends p sock v) λ s u (e, c).
            Ends-and_then _ _ (start_external_shadow_stack p s u) _
              (start_external_shadow_stack-Ends p s u (
                Fresh-Kept p w u (Kept-trans (Kept-same q.same) (Kept-same c.same)) fresh v.trace
                  sock s e))
              λ _ x a. Kills-and_then _ (terminate p _ false x) _ (terminate-Kills p _ false x)

  start_external_client-Ends :
      (args : Args) (w : World)
      → Fresh p w
      → ((n : List ℕ) → p.unique_path (model p) ≡ some n → length n < sun_path_size)
      → args.mode.is_external ≡ true
      → Ends (λ argv v. Started p args argv v) (start_external_client p args w)
  unfolding start_external_client
  start_external_client-Ends args w fresh short m =
      Ends-and_then _ _ (temp_name p w) _ (temp_name-Ends w) λ name v (named, same).
        Ends-and_then _ _ (create_server p name v) _
          (create_server-Ends p name v (short name named))
          λ sock u c.
            Ends-and_then (λ _ x. Frame u x) _ (log p _ u) _ (log-Ends p _ u)
              λ _ x q. Ends-checked p _ _ _ _ _ λ forked.
                Ends-if (λ argv y. Started p args argv y) _ (child p args name) (parent p sock)
                  (after_fork x) (λ e. child-Ends args name (after_fork x) (short name named) m)
                  λ e. Ends-of_Kills _ _ (
                    parent-Kills sock (after_fork x)
                      (Fresh-Kept p w (after_fork x) (kept v u x same c.same q.same) fresh))
    where
      after_fork : World → World
      after_fork x = record x { trace = fork ∷ x.trace }

      kept :
          (v u x : World)
          → v ≡ w
          → u ≡ record v { trace = u.trace }
          → x ≡ record u { trace = x.trace }
          → Kept w (after_fork x)
      kept v u x e f g =
          Kept-trans (subst (λ y. Kept w y) (sym e) (Kept-refl w))
            (Kept-trans (Kept-same f) (Kept-trans (Kept-same g) (record { same = refl })))

  start-Ends :
      (args : Args) (w : World)
      → Fresh p w
      → ((n : List ℕ) → p.unique_path (model p) ≡ some n → length n < sun_path_size)
      → Ends (λ argv v. Started p args argv v) (start p args w)
  unfolding start
  start-Ends args w fresh short =
      Ends-if (λ argv v. Started p args argv v) args.mode.is_internal _ _ w
        (λ e.
          Ends-mono _ _ (start_program p args [] w) (start_program-Ends p args [] w)
            λ _ u l. Started-Launched (omega arith) (inl e) l)
        λ n.
          Ends-if (λ argv v. Started p args argv v) args.mode.is_external _ _ w
            (λ e. start_external_client-Ends args w fresh short e)
            λ m. Kills-and_then _ (terminate p _ true w) _ (terminate-Kills p _ true w)

  delete_variable-none :
      (f : ℕ) (name : List ℕ) (w : World)
      → getenv name w.environ ≡ none
      → delete_variable p (suc f) name w ≡ returns tt w
  unfolding delete_variable
  delete_variable-none f name w e = rw (delete_variable, e) refl

  delete_variable-some :
      (f : ℕ) (name value : List ℕ) (w : World)
      → getenv name w.environ ≡ some value
      → delete_variable p (suc f) name w
        ≡ delete_variable p f name (record w { environ = unsetenv name w.environ })
  unfolding delete_variable
  delete_variable-some f name value w e = rw (delete_variable, e) refl

  -- The loop of main that deletes a variable returns within two rounds, from every environment: it
  -- leaves no definition of the variable, and the log descriptors, the waiting bytes and the shadow
  -- stacks are as they were.
  pub delete_variable-Returns :
      (name : List ℕ) (w : World)
      → Returns (λ _ v. Kept w v × (getenv name v.environ ≡ none)) (delete_variable p 2 name w)
  delete_variable-Returns name w = elim (Option-cases (getenv name w.environ)) [
    | inl e ↦ subst (Returns (Gone w)) (sym (delete_variable-none 1 name w e)) (Kept-refl w, e)
    | inr (value, e) ↦
        subst (Returns (Gone w))
          (sym (
            delete_variable-some 1 name value w e
            ∙ delete_variable-none 0 name (deleted w) (getenv-unsetenv name w.environ)))
          (record { same = refl }, getenv-unsetenv name w.environ)
  ]
    where
      Gone : World → Unit {0} → World → Type 0
      Gone x _ v = Kept x v × (getenv name v.environ ≡ none)

      deleted : World → World
      deleted x = record x { environ = unsetenv name x.environ }

  ignore-Ends : (sig : ℕ) (w : World) → Ends (λ _ v. Kept w v) (ignore p sig w)
  unfolding ignore
  ignore-Ends sig w = assert-Ends p _ _ _ _ λ e. record { same = refl }

  enable-Ends : (w : World) → Ends (λ _ v. Kept w v) (enable_multi_thread_or_process_mode p w)
  unfolding enable_multi_thread_or_process_mode
  enable-Ends w =
      Ends-mono _ _ (log p _ _) (log-Ends p _ (record w { is_multi_thread_or_process = true }))
        λ _ v q.
          Kept-trans {v = record w { is_multi_thread_or_process = true }} (record { same = refl })
            (Kept-same q.same)

  -- On any kernel that gives accepted connections descriptors other than those of the logs, and
  -- where the name that boost makes fits a socket's address: main, from its parsed arguments on,
  -- ends with drrun in the process's place or with the group killed. In the first case drrun has
  -- been given the arguments of exec_args, DR_SS_ENV_SOCK has a value and DR_SS_ENV_FD is empty.
  pub run_main-Ends :
      (args : Args) (w : World)
      → Fresh p w
      → ((n : List ℕ) → p.unique_path (model p) ≡ some n → length n < sun_path_size)
      → Ends (λ argv v. Started p args argv v) (run_main p args w)
  unfolding run_main
  run_main-Ends args w fresh short =
      Ends-and_then _ _ (delete_variable p 2 dr_ss_env_sock w) _ (gone dr_ss_env_sock w) λ _ a ka.
        Ends-and_then _ _ (delete_variable p 2 dr_ss_env_fd a) _ (gone dr_ss_env_fd a) λ _ b kb.
          Ends-and_then _ _ (ignore p 17 b) _ (ignore-Ends 17 b) λ _ c kc.
            Ends-and_then _ _ (ignore p 13 c) _ (ignore-Ends 13 c) λ _ d kd.
              Ends-and_then (λ _ e. Frame d e) _ (log p _ d) _ (log-Ends p _ d)
                λ _ e qe.
                  Ends-and_then (λ _ f. Frame e f) _ (log p _ e) _ (log-Ends p _ e)
                    λ _ f qf.
                      Ends-and_then _ _ (enable_multi_thread_or_process_mode p f) _ (enable-Ends f)
                        λ _ g kg.
                          start-Ends args g
                            (Fresh-Kept p w g
                              (Kept-trans ka.0 (
                                Kept-trans kb.0 (
                                  Kept-trans kc (
                                    Kept-trans kd (
                                      Kept-trans (Kept-same qe.same)
                                        (Kept-trans (Kept-same qf.same) kg))))))
                              fresh)
                            short
    where
      gone :
          (name : List ℕ) (x : World)
          → Ends (λ _ v. Kept x v × (getenv name v.environ ≡ none)) (delete_variable p 2 name x)
      gone name x = Ends-of_Returns _ (delete_variable p 2 name x) (delete_variable-Returns name x)
