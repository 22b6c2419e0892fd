-- ===== src/Client/Setup.antt =====
-- The socket of an external client (ExternalSS::setup of dr_external_ss_events.cpp): the first client
-- connects, and a later one finds the same descriptor in its environment.
use dr_shadow_stack.Base.{
  false, none, ℕ, ◌<◌, ◌≡◌, refl, sym, ap, ◌∙◌, subst, true, Option, some, List, [], ◌∷◌, length,
}
use dr_shadow_stack.Text.{numeral, value, throws, stoi, skip_space, signed}
use dr_shadow_stack.Text.Numerals.{stoi-numeral}
use dr_shadow_stack.Platform.{sent, Platform, World, Syscall, socket}
use dr_shadow_stack.Platform.Post.{
  Kills, Keeps-Frame, Keeps-quiet, Keeps-trans, Keeps, Ends, Frame, Frame-trans, Ends-and_then,
  Ends-mono,
}
use dr_shadow_stack.Runtime.{log}
use dr_shadow_stack.Runtime.Termination.{Ends-checked, log-Ends}
use dr_shadow_stack.Environment.{getenv, dr_ss_env_fd, getenv-setenv}
use dr_shadow_stack.Sockets.{create_client, sun_path_size}
use dr_shadow_stack.Sockets.Calls.{create_client-Ends}
use dr_shadow_stack.Start.{set_env}
use dr_shadow_stack.Start.Target.{stored, set_env-Ends}
use dr_shadow_stack.Client.{use_existing, connect_new, choose_socket, setup}

stoi-nil : stoi [] ≡ throws
unfolding stoi skip_space signed
stoi-nil = refl

module _ (p : Platform) where
  -- A client with a new socket, which its environment spells.
  abbrev pub Connected : Option ℕ → World → Type 0
  Connected s v =
      (n : ℕ) × (h : List Syscall) × (p.result h socket ≡ some n)
      × (s ≡ some n)
      × (getenv dr_ss_env_fd v.environ ≡ some (numeral 10 n))

module _ (p : Platform) (path : List ℕ) where
  -- The new client's variable spells the descriptor of its connection.
  connect_new-Ends :
      (w : World)
      → length path < sun_path_size
      → Ends (λ s v. Connected p s v × Keeps w v) (connect_new p path w)
  unfolding connect_new sent
  connect_new-Ends w h =
      Ends-and_then (λ _ a. Frame w a) _ (log p _ w) _ (log-Ends p _ w)
        λ _ a qa.
          Ends-and_then _ _ (create_client p path a) _ (create_client-Ends p path a h)
            λ n b (made, _, kept).
              Ends-and_then _ _ (set_env p _ dr_ss_env_fd (numeral 10 n) b) _
                (set_env-Ends p _ dr_ss_env_fd (numeral 10 n) b)
                λ _ d e.
                  Ends-and_then (λ _ f. Frame d f) _ (log p _ d) _ (log-Ends p _ d)
                    λ _ f qf. (
                      (
                        n,
                        a.trace,
                        made,
                        refl,
                        ap (λ (x : World). getenv dr_ss_env_fd x.environ)
                              (qf.same ∙ (λ i. record (e i) { trace = f.trace }))
                            ∙ getenv-setenv dr_ss_env_fd (numeral 10 n) b.environ,
                      ),
                      Keeps-trans (Keeps-Frame qa)
                          (Keeps-trans kept (Keeps-trans (stored_keeps n b d e) (Keeps-Frame qf))),
                    )
    where
      stored_keeps : (n : ℕ) (b d : World) → d ≡ stored p dr_ss_env_fd (numeral 10 n) b → Keeps b d
      stored_keeps n b d e =
          subst (λ x. Keeps b x) (sym e)
            (Keeps-quiet b (stored p dr_ss_env_fd (numeral 10 n) b) refl (λ fd. refl))

  -- A variable that spells a descriptor makes the client take it, and call nothing.
  use_existing-Ends :
      (n : ℕ) (w : World)
      → n < 2147483648
      → Ends (λ s v. (s ≡ some n) × Frame w v) (use_existing p path (numeral 10 n) w)
  unfolding use_existing
  use_existing-Ends n w h =
      Ends-and_then (λ _ a. Frame w a) _ (log p _ w) _ (log-Ends p _ w)
        λ _ a qa. rw (stoi-numeral n h) (
          Ends-and_then (λ _ b. Frame a b) _ (log p _ a) _ (log-Ends p _ a)
            λ _ b qb. (refl, Frame-trans qa qb))

  -- A setup in an environment whose variable is set.
  setup-set :
      (fd_str : List ℕ) (w : World) (Q : Option ℕ → World → Type 0)
      → getenv dr_ss_env_fd w.environ ≡ some fd_str
      → Ends (λ s v. (u : World) → Frame v u → Q s u) (choose_socket p path fd_str w)
      → Ends Q (setup p path w)
  unfolding setup
  setup-set fd_str w Q e h = rw e (
      Ends-checked p _ true _ _ _ λ c.
        Ends-and_then _ _ (choose_socket p path fd_str w) _ h
          λ s v k. Ends-and_then (λ _ u. Frame v u) _ (log p _ v) _ (log-Ends p _ v) λ _ u q. k u q)

  -- A setup in an environment without the variable.
  pub setup-unset : (w : World) → getenv dr_ss_env_fd w.environ ≡ none → Kills (setup p path w)
  unfolding setup
  setup-unset w e = rw e (Ends-checked p _ false _ w _ (λ c. cc))

  -- The first client's setup connects.
  pub setup-connects :
      (w : World)
      → length path < sun_path_size
      → getenv dr_ss_env_fd w.environ ≡ some []
      → Ends (λ s v. Connected p s v × Keeps w v) (setup p path w)
  setup-connects w short e =
      setup-set [] w (λ s v. Connected p s v × Keeps w v) e
        (Ends-mono _ _ (connect_new p path w) (connect_new-Ends w short)
          λ s v ((n, h, made, is, spelled), keeps) u q. (
            (n, h, made, is, ap (λ (x : World). getenv dr_ss_env_fd x.environ) q.same ∙ spelled),
            Keeps-trans keeps (Keeps-Frame q),
          ))

  -- A second client's setup takes the descriptor that the variable spells.
  pub setup-inherits :
      (n : ℕ) (w : World)
      → n < 2147483648
      → getenv dr_ss_env_fd w.environ ≡ some (numeral 10 n)
      → Ends (λ s v. (s ≡ some n) × Frame w v) (setup p path w)
  setup-inherits n w h e =
      setup-set (numeral 10 n) w (λ s v. (s ≡ some n) × Frame w v) e (go (numeral 10 n) refl)
    where
      go :
          (ds : List ℕ)
          → numeral 10 n ≡ ds
          → Ends
              (λ s v. (u : World) → Frame v u → (s ≡ some n) × Frame w u)
              (choose_socket p path ds w)
      go [] g =
          let bad : stoi [] ≡ value n = subst (λ ds. stoi ds ≡ value n) g (stoi-numeral n h) in
          absurd (cc (stoi-nil))
      go (c ∷ cs) g =
          subst
            (λ ds.
              Ends (λ s v. (u : World) → Frame v u → (s ≡ some n) × Frame w u)
                (use_existing p path ds w))
            g
            (Ends-mono _ _ (use_existing p path (numeral 10 n) w) (use_existing-Ends n w h)
              λ s v r u q. (r.0, Frame-trans r.1 q))

-- Where socket() gives numbers that an int can hold, the socket's path fits an address and
-- DR_SS_ENV_FD is empty: ExternalSS::setup ends, by a return or with the group killed, and after a
-- return a later setup in any process with the environment that it leaves ends too, and if it
-- returns it has chosen the same descriptor.
pub setup-setup :
    (p : Platform) (path path' : List ℕ) (w w' : World)
    → ((h : List Syscall) (n : ℕ) → p.result h socket ≡ some n → n < 2147483648)
    → length path < sun_path_size
    → getenv dr_ss_env_fd w.environ ≡ some []
    → Ends
        (λ s v. Ends (λ s' _. s' ≡ s) (setup p path' (record w' { environ = v.environ })))
        (setup p path w)
setup-setup p path path' w w' ints short e =
    Ends-mono _ _ (setup p path w) (setup-connects p path w short e)
      λ s v ((n, h, made, is, spelled), _).
        Ends-mono _ _ (setup p path' (record w' { environ = v.environ }))
          (setup-inherits p path' n (record w' { environ = v.environ }) (ints h n made) spelled)
          λ s' _ r. r.0 ∙ sym is
