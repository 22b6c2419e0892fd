-- ===== src/DrClient/Ready.antt =====
-- The client's main function in internal mode on a kernel that gives it what it asks for: it returns
-- (dr_client_main of dr_shadow_stack_client.cpp).
use dr_shadow_stack.Base.{ℕ, ◌≡◌, refl, ap, ◌∙◌, true, false, not, some, List, [], ◌∷◌}
use dr_shadow_stack.Text.{Arg}
use dr_shadow_stack.Platform.{
  Platform, World, Syscall, strdup, drmgr_init, drsym_init, drmgr_register_tls_field,
}
use dr_shadow_stack.Platform.Post.{Returns, Returns-and_then, Returns-mono, Returns-of_Ends}
use dr_shadow_stack.Runtime.{log, enable_multi_thread_or_process_mode}
use dr_shadow_stack.Runtime.Logging.{Works, log-Returns, Returns-checked, assert-Returns}
use dr_shadow_stack.Environment.{getenv, dr_ss_env_sock}
use dr_shadow_stack.Group.{failed}
use dr_shadow_stack.Mode.{
  SsMode, mode_of, ss_mode, safe_strdup, ss_mode-mode_of, internal_mode_flag,
}
use dr_shadow_stack.Sym
use dr_shadow_stack.Sym.{init, is_success}
use dr_shadow_stack.DrClient.{
  is_valid, all_from, internal, run_before_everything, internal_setup, set_up_mode, dr_client_main,
}

-- The calls of the client's start succeed.
pub record Ready (p : Platform) : Type 0 where
  pub init : (h : List Syscall) → failed (p.result h drmgr_init) ≡ false
  pub sym_init : (h : List Syscall) → is_success (p.result h drsym_init) ≡ true
  pub register : (h : List Syscall) → failed (p.result h drmgr_register_tls_field) ≡ false
  pub copies : (h : List Syscall) (s : List ℕ) → failed (p.result h (strdup s)) ≡ false

module _ (p : Platform) (ok : Works p) (ready : Ready p) where
  -- What is not changed on the way to the mode's setup.
  abbrev Same : World → World → Type 0
  Same w v = (v.environ ≡ w.environ) × (v.sym_setup ≡ w.sym_setup)

  log-Same : (args : List Arg) (x : World) → Returns (λ _ v. Same x v) (log p args x)
  log-Same args x =
      Returns-mono _ _ (log p args x) (log-Returns p ok args x)
        λ _ v q. (ap (λ (u : World). u.environ) q.same, ap (λ (u : World). u.sym_setup) q.same)

  run_before_everything-Returns :
      (w : World) → Returns (λ _ v. Same w v) (run_before_everything p w)
  unfolding run_before_everything enable_multi_thread_or_process_mode
  run_before_everything-Returns w =
      Returns-and_then (λ _ a. Same threaded a) _ (log p _ threaded) _ (log-Same _ threaded)
        λ _ a x.
          Returns-and_then (λ _ b. Same a b) _ (log p _ a) _ (log-Same _ a)
            λ _ b y.
              Returns-and_then (λ _ c. Same b c) _ (log p _ b) _ (log-Same _ b)
                λ _ c z.
                  assert-Returns p _ _ _ _ (ap not (ready.init c.trace))
                    (z.0 ∙ y.0 ∙ x.0, z.1 ∙ y.1 ∙ x.1)
    where
      threaded : World
      threaded = record w { is_multi_thread_or_process = true }

  internal_setup-Returns :
      (w : World)
      → w.sym_setup ≡ false
      → Returns (λ h _. h ≡ all_from internal) (internal_setup p w)
  unfolding internal_setup init
  internal_setup-Returns w h =
      Returns-and_then (λ _ _. Unit {0}) _ (Sym.init p w) _
        (Returns-checked p _ _ _ _ _ (ap not h)
          (Returns-checked p _ _ _ _ _ (ready.sym_init w.trace) tt))
        λ _ v x. Returns-checked p _ _ _ (registered v) _ (ap not (ready.register v.trace)) (
          Returns-and_then (λ _ u. Same (registered v) u) _ (log p _ (registered v)) _
            (log-Same _ (registered v)) λ _ u y. refl)
    where
      registered : World → World
      registered v = record v { trace = drmgr_register_tls_field ∷ v.trace }

  ss_mode-Returns :
      (s : List ℕ) (w : World)
      → Returns
          (λ m v. (m ≡ mode_of s) × (v ≡ record w { trace = strdup s ∷ w.trace }))
          (ss_mode p s w)
  unfolding ss_mode safe_strdup
  ss_mode-Returns s w =
      Returns-of_Ends _ (ss_mode p s w)
        (Returns-and_then (λ _ _. Unit {0}) _ (safe_strdup p s w) _
          (Returns-checked p _ _ _ _ _ (ap not (ready.copies w.trace s)) tt) λ _ v x. tt)
        (ss_mode-mode_of p s w)

  pub main-Returns :
      (name path : List ℕ) (w : World)
      → getenv dr_ss_env_sock w.environ ≡ some path
      → w.sym_setup ≡ false
      → Returns (λ _ _. Unit {0}) (dr_client_main p (name ∷ internal_mode_flag ∷ []) w)
  unfolding dr_client_main set_up_mode mode_of is_valid
  main-Returns name path w sock fresh =
      Returns-and_then (λ _ a. Same w a) _ (run_before_everything p w) _
        (run_before_everything-Returns w)
        λ _ a x. Returns-checked p _ _ _ a _ refl (
          rw (ap (getenv dr_ss_env_sock) x.0 ∙ sock) (
            Returns-checked p _ _ _ a _ refl (
              Returns-and_then (λ _ b. Same a b) _ (log p _ a) _ (log-Same _ a)
                λ _ b y.
                  Returns-and_then _ _ (ss_mode p internal_mode_flag b) _
                    (ss_mode-Returns internal_mode_flag b)
                    λ m c (is, same).
                      Returns-checked p _ _ _ c _ (ap (λ (k : SsMode). k.is_valid_mode) is) (
                        rw (ap (λ (k : SsMode). k.is_internal) is) (
                          Returns-and_then _ _ (internal_setup p c) _
                            (internal_setup-Returns c
                              (ap (λ (u : World). u.sym_setup) same ∙ y.1 ∙ x.1 ∙ fresh))
                            λ h d all. Returns-checked p _ _ _ d _ (ap is_valid all) (
                              Returns-and_then (λ _ e. Same d e) _ (log p _ d) _ (log-Same _ d)
                                λ _ e z. tt))))))
