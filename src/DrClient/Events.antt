-- ===== src/DrClient/Events.antt =====
-- The DynamoRIO client's main function in internal mode (dr_shadow_stack_client.cpp).
use dr_shadow_stack.Base.{
  ℕ, ◌≡◌, refl, sym, ap, ◌∙◌, true, false, List, [], ◌∷◌, length, ◌==◌, codes, bytes_eq,
  eq_of_bytes_eq, arith,
}
use dr_shadow_stack.Platform.{Platform, World, drmgr_init, sent}
use dr_shadow_stack.Platform.Post.{
  Keeps-trans, Keeps-quiet, Keeps-Frame, Keeps, Ends, Kills, Frame, Ends-and_then, Ends-mono,
  Ends-if, Ends-of_Kills, Kills-and_then,
}
use dr_shadow_stack.Runtime.{assert, log, terminate, enable_multi_thread_or_process_mode}
use dr_shadow_stack.Runtime.Termination.{
  assert-false, Ends-checked, assert-Ends, log-Ends, terminate-Kills,
}
use dr_shadow_stack.DrClient.{
  SsHandlers, all_from, internal, run_before_everything, internal_setup, set_up_mode,
  dr_client_main,
}
use dr_shadow_stack.Mode.{SsMode, mode_of, ss_mode, ss_mode-mode_of, external_mode_flag}
use dr_shadow_stack.Sym
use dr_shadow_stack.Sym.{init}
use dr_shadow_stack.Text.{Arg}

external_of :
    (flag : List ℕ) → bytes_eq flag external_mode_flag ≡ false → (mode_of flag).is_external ≡ false
unfolding mode_of
external_of flag n = n

internal_of : (flag : List ℕ) → (mode_of flag).is_internal ≡ true → flag ≡ codes "int"
unfolding mode_of
internal_of flag y = eq_of_bytes_eq flag (codes "int") y

module _ (p : Platform) where
  -- What the client's start leaves alone.
  abbrev pub StartKept : World → World → Type 0
  StartKept w v = (v.environ ≡ w.environ) × (v.tls ≡ w.tls) × Keeps w v

  pub log-StartKept : (args : List Arg) (x : World) → Ends (λ _ v. StartKept x v) (log p args x)
  log-StartKept args x = Ends-mono _ _ (log p args x) (log-Ends p args x) λ _ v q.
      (ap (λ (u : World). u.environ) q.same, ap (λ (u : World). u.tls) q.same, Keeps-Frame q)

  pub run_before_everything-Ends :
      (w : World) → Ends (λ _ v. StartKept w v) (run_before_everything p w)
  unfolding run_before_everything enable_multi_thread_or_process_mode sent
  run_before_everything-Ends w =
      Ends-and_then (λ _ a. StartKept threaded a) _ (log p _ threaded) _ (log-StartKept _ threaded)
        λ _ a x.
          Ends-and_then (λ _ b. StartKept a b) _ (log p _ a) _ (log-StartKept _ a)
            λ _ b y.
              Ends-and_then (λ _ c. StartKept b c) _ (log p _ b) _ (log-StartKept _ b)
                λ _ c z. assert-Ends p _ _ _ _ λ e. (
                  z.0 ∙ y.0 ∙ x.0,
                  z.1 ∙ y.1 ∙ x.1,
                  Keeps-trans kept (Keeps-trans x.2 (Keeps-trans y.2 (Keeps-trans z.2 (called c)))),
                )
    where
      threaded : World
      threaded = record w { is_multi_thread_or_process = true }

      called : (c : World) → Keeps c (record c { trace = drmgr_init ∷ c.trace })
      called c = Keeps-quiet c (record c { trace = drmgr_init ∷ c.trace }) refl (λ fd. refl)

      kept : Keeps w threaded
      kept = Keeps-quiet w threaded refl (λ fd. refl)

  -- Any number of arguments but two is refused.
  dr_client_main-refuses :
      (argv : List (List ℕ)) (w : World)
      → (length argv == 2) ≡ false
      → Kills (dr_client_main p argv w)
  unfolding dr_client_main
  dr_client_main-refuses argv w h =
      Ends-and_then (λ _ a. StartKept w a) _ (run_before_everything p w) _
        (run_before_everything-Ends w)
        λ _ a x. rw h (Kills-and_then _ (assert p false _ a) _ (assert-false p _ a))

  pub internal_setup-Ends :
      (w : World) → Ends (λ h v. (h ≡ all_from internal) × (v.tls ≡ w.tls)) (internal_setup p w)
  unfolding internal_setup init
  internal_setup-Ends w =
      Ends-and_then (λ _ v. v.tls ≡ w.tls) _ (Sym.init p w) _
        (Ends-checked p _ _ _ _ _ λ a. Ends-checked p _ _ _ _ _ λ b. refl)
        λ _ v x. Ends-checked p _ _ _ _ _ λ c.
          Ends-and_then (λ _ u. u.tls ≡ v.tls) _ (log p _ _) _
            (Ends-mono _ _ (log p _ _) (log-Ends p _ _) λ _ u q. ap (λ (y : World). y.tls) q.same)
            λ _ u y. (refl, y ∙ x)

  -- The setup of a mode that is not the external one.
  set_up_mode-Ends :
      (mode : SsMode) (path : List ℕ) (w : World)
      → mode.is_external ≡ false
      → Ends
          (λ h _. (mode.is_internal ≡ true) × (h ≡ all_from internal))
          (set_up_mode p mode path w)
  unfolding set_up_mode
  set_up_mode-Ends mode path w n =
      Ends-if (λ h _. (mode.is_internal ≡ true) × (h ≡ all_from internal)) mode.is_internal
        (internal_setup p) _ w
        (λ e. Ends-mono _ _ (internal_setup p w) (internal_setup-Ends w) λ h v q. (e, q.0))
        λ e. rw n (Kills-and_then _ (terminate p _ true w) _ (terminate-Kills p _ true w))

  -- What the client has been set up for.
  abbrev InternalMain : List (List ℕ) → SsHandlers → Type 0
  InternalMain argv h = (name : List ℕ) × (argv ≡ name ∷ codes "int" ∷ []) × (h ≡ all_from internal)

  two_args-Ends :
      (name flag : List ℕ) (w : World)
      → bytes_eq flag external_mode_flag ≡ false
      → Ends (λ h _. InternalMain (name ∷ flag ∷ []) h) (dr_client_main p (name ∷ flag ∷ []) w)
  unfolding dr_client_main
  two_args-Ends name flag w n =
      Ends-and_then (λ _ a. StartKept w a) _ (run_before_everything p w) _
        (run_before_everything-Ends w)
        λ _ a x. Ends-checked p _ _ _ a _ λ two. Ends-checked p _ _ _ a _ λ set.
          Ends-and_then (λ _ b. Frame a b) _ (log p _ a) _ (log-Ends p _ a)
            λ _ b q.
              Ends-and_then _ _ (ss_mode p flag b) _ (ss_mode-mode_of p flag b) λ mode c (is, _).
                Ends-checked p _ _ _ c _ λ valid.
                  Ends-and_then _ _ (set_up_mode p mode _ c) _
                    (set_up_mode-Ends mode _ c
                      (ap (λ (m : SsMode). m.is_external) is ∙ external_of flag n))
                    λ h d (int, all). Ends-checked p _ _ _ d _ λ usable.
                      Ends-and_then (λ _ e. Frame d e) _ (log p _ d) _ (log-Ends p _ d)
                        λ _ e r. (
                          name,
                          ap (λ f. name ∷ f ∷ [])
                              (internal_of flag
                                (sym (ap (λ (m : SsMode). m.is_internal) is) ∙ int)),
                          all,
                        )

  -- No second argument asks for external mode.
  abbrev pub IsNotExternal : List (List ℕ) → Type 0
  IsNotExternal (name ∷ flag ∷ argv) = bytes_eq flag external_mode_flag ≡ false
  IsNotExternal _ = Unit {0}

  -- On any kernel, for arguments of which the second, if there is one, is not the flag of external
  -- mode: dr_client_main ends, by a return or with the group killed. If it returns, there were two
  -- arguments, the second the flag of internal mode, and all three handlers are those of internal
  -- mode.
  pub dr_client_main-Ends :
      (argv : List (List ℕ)) (w : World)
      → IsNotExternal argv
      → Ends
          (λ h _. (name : List ℕ) × (argv ≡ name ∷ codes "int" ∷ []) × (h ≡ all_from internal))
          (dr_client_main p argv w)
  dr_client_main-Ends [] w n = Ends-of_Kills _ _ (dr_client_main-refuses [] w refl)
  dr_client_main-Ends (name ∷ []) w n =
      Ends-of_Kills _ _ (dr_client_main-refuses (name ∷ []) w refl)
  dr_client_main-Ends (name ∷ flag ∷ []) w n = two_args-Ends name flag w n
  dr_client_main-Ends (name ∷ flag ∷ x ∷ argv) w n =
      Ends-of_Kills _ _ (dr_client_main-refuses (name ∷ flag ∷ x ∷ argv) w (ground arith))
