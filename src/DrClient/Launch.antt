-- ===== src/DrClient/Launch.antt =====
-- The client's main function in the environment that DrShadowStack leaves for it: the handlers are those
-- of the mode (dr_client_main of dr_shadow_stack_client.cpp).
use dr_shadow_stack.Base.{
  subst, ℕ, ◌<◌, ◌≡◌, refl, ap, ◌∙◌, true, Option, some, List, [], ◌∷◌, length,
}
use dr_shadow_stack.Platform.{Platform, World}
use dr_shadow_stack.Platform.Post.{Ends, Frame, Ends-and_then, Ends-mono, Ends-if, Kills-and_then}
use dr_shadow_stack.Runtime.{log, terminate}
use dr_shadow_stack.Runtime.Termination.{Ends-checked, log-Ends, terminate-Kills}
use dr_shadow_stack.Environment.{getenv, dr_ss_env_sock, dr_ss_env_fd}
use dr_shadow_stack.Sockets.{sun_path_size}
use dr_shadow_stack.Mode.{SsMode, mode_of, ss_mode, ss_mode-mode_of}
use dr_shadow_stack.Client
use dr_shadow_stack.Client.Setup.{Connected, setup-connects}
use dr_shadow_stack.DrClient.{
  SsHandlers, all_from, internal, external, run_before_everything, internal_setup, set_up_mode,
  dr_client_main,
}
use dr_shadow_stack.DrClient.Events.{StartKept, run_before_everything-Ends, internal_setup-Ends}

module _ (p : Platform) where
  -- All three handlers are the mode's; in external mode they have a new socket.
  pub data HandlersOf (m : SsMode) (h : SsHandlers) (v : World) : Type 0 where
    in_process : m.is_internal ≡ true → h ≡ all_from internal → HandlersOf m h v
    connected :
        (s : Option ℕ)
        → m.is_external ≡ true
        → Connected p s v
        → h ≡ all_from (external s)
        → HandlersOf m h v

  HandlersOf-Frame :
      {m : SsMode} {h : SsHandlers} {v u : World} → HandlersOf m h v → Frame v u → HandlersOf m h u
  HandlersOf-Frame (in_process y e) q = in_process y e
  HandlersOf-Frame (connected s y (n, g, made, is, spelled) e) q =
      connected s y
        (n, g, made, is, ap (λ (x : World). getenv dr_ss_env_fd x.environ) q.same ∙ spelled) e

  set_up_mode-HandlersOf :
      (m : SsMode) (path : List ℕ) (w : World)
      → length path < sun_path_size
      → getenv dr_ss_env_fd w.environ ≡ some []
      → Ends (λ h v. HandlersOf m h v) (set_up_mode p m path w)
  unfolding set_up_mode
  set_up_mode-HandlersOf m path w short fd =
      Ends-if (λ h v. HandlersOf m h v) m.is_internal (internal_setup p) _ w
        (λ e.
          Ends-mono _ _ (internal_setup p w) (internal_setup-Ends p w) λ h v q. in_process e q.0)
        λ n.
          Ends-if (λ h v. HandlersOf m h v) m.is_external _ _ w
            (λ e.
              Ends-and_then _ _ (Client.setup p path w) _ (setup-connects p path w short fd)
                λ s v (c, _). connected s e c refl)
            λ k. Kills-and_then _ (terminate p _ true w) _ (terminate-Kills p _ true w)

  pub dr_client_main-HandlersOf :
      (name flag path : List ℕ) (w : World)
      → getenv dr_ss_env_sock w.environ ≡ some path
      → length path < sun_path_size
      → getenv dr_ss_env_fd w.environ ≡ some []
      → Ends (λ h v. HandlersOf (mode_of flag) h v) (dr_client_main p (name ∷ flag ∷ []) w)
  unfolding dr_client_main
  dr_client_main-HandlersOf name flag path w sock short fd =
      Ends-and_then (λ _ a. StartKept p w a) _ (run_before_everything p w) _
        (run_before_everything-Ends p w)
        λ _ a (ea, _, _). Ends-checked p _ _ _ a _ λ two.
          rw (ap (getenv dr_ss_env_sock) ea ∙ sock) (
            Ends-checked p _ _ _ a _ λ set.
              Ends-and_then (λ _ b. Frame a b) _ (log p _ a) _ (log-Ends p _ a)
                λ _ b q.
                  Ends-and_then _ _ (ss_mode p flag b) _ (ss_mode-mode_of p flag b)
                    λ m c (is, same). Ends-checked p _ _ _ c _ λ valid.
                      Ends-and_then _ _ (set_up_mode p m path c) _
                        (set_up_mode-HandlersOf m path c short (
                          ap (λ (x : World). getenv dr_ss_env_fd x.environ) same
                          ∙ ap (λ (x : World). getenv dr_ss_env_fd x.environ) q.same
                          ∙ ap (getenv dr_ss_env_fd) ea
                          ∙ fd))
                        λ h d of. Ends-checked p _ _ _ d _ λ usable.
                          Ends-and_then (λ _ e. Frame d e) _ (log p _ d) _ (log-Ends p _ d)
                            λ _ e r. subst (λ mode. HandlersOf mode h e) is (HandlersOf-Frame of r))
