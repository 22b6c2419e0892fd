-- ===== src/DrClient/Session.antt =====
-- A run of the client: dr_client_main, then the target's instructions, whose inserted code calls the
-- handlers that the mode's setup has stored (dr_shadow_stack_client.cpp).
use dr_shadow_stack.DrClient.Ready.{Ready, main-Returns}
use dr_shadow_stack.Environment.{getenv, dr_ss_env_sock}
use dr_shadow_stack.Base.{
  ℕ, ◌≡◌, ◌≢◌, refl, sym, ap, ◌∙◌, subst, false, none, some, Option, List, [], ◌∷◌, ◌++◌, map,
}
use dr_shadow_stack.Text.{text, pointer}
use dr_shadow_stack.Platform.{Platform, World, M, skip, undefined, ◌>>=◌, ◌>>◌}
use dr_shadow_stack.Platform.Post.{
  Returns-and_then, Returns-of_Ends, Returns, Ends, Kills, Frame, Ends-and_then,
}
use dr_shadow_stack.Runtime.{assert, log, verbose_log}
use dr_shadow_stack.Runtime.Termination.{Ends-checked, log-Ends}
use dr_shadow_stack.Runtime.Logging.{Works}
use dr_shadow_stack.Message.{wildcard}
use dr_shadow_stack.ShadowStack.{Event, run}
use dr_shadow_stack.Mode.{SsMode, mode_of, ss_mode, ss_mode-mode_of, internal_mode_flag}
use dr_shadow_stack.Internal
use dr_shadow_stack.Internal.{run_events}
use dr_shadow_stack.Internal.Stacks.{stack_of, stack_in}
use dr_shadow_stack.Client
use dr_shadow_stack.Modes.{in_thread, in_thread-Kills}
use dr_shadow_stack.DrClient.{
  Instr, Functions, SsHandlers, Inserted, all_from, internal, external, clean_call,
  mbr_instrumentation, event_app_instruction, run_before_everything, internal_setup, set_up_mode,
  dr_client_main,
}
use dr_shadow_stack.DrClient.Events.{StartKept, run_before_everything-Ends, internal_setup-Ends}
use dr_shadow_stack.DrClient.Instrumented.{
  Executed, Execution, IsCall, IsReturn, address_after, handler_event, events_in, hijacked,
  hijacked-none, executed-Returns,
}

module _ (p : Platform) where
  -- `handlers->on_call` in thread `t`; a message on a negative socket cannot be written.
  unfoldable pub call_on_call : Option Functions → ℕ → ℕ → M (Unit {0})
  call_on_call none t a = λ w. undefined w
  call_on_call (some internal) t a = Internal.on_call p t a
  call_on_call (some (external none)) t a = do
    verbose_log p (text "(client) Call @ " ∷ pointer a ∷ text " - 0x5" ∷ [])
    assert p false (some (text "write() failed!" ∷ []))
  call_on_call (some (external (some sock))) t a = Client.on_call p sock a

  -- `handlers->on_ret`, for a return that goes to `target_addr`.
  unfoldable pub call_on_ret : Option Functions → ℕ → ℕ → M (Unit {0})
  call_on_ret none t target_addr = λ w. undefined w
  call_on_ret (some internal) t target_addr = Internal.on_ret p t target_addr
  call_on_ret (some (external none)) t target_addr = do
    verbose_log p (text "(client) Ret to " ∷ pointer target_addr ∷ [])
    assert p false (some (text "write() failed!" ∷ []))
  call_on_ret (some (external (some sock))) t target_addr = Client.on_ret p sock target_addr

  -- The code inserted before an instruction, and then `rest`.
  unfoldable pub run_inserted : SsHandlers → ℕ → ℕ → List Inserted → M (Unit {0}) → M (Unit {0})
  unfolding call_on_call call_on_ret
  run_inserted h t next [] rest = rest
  run_inserted h t next (clean_call a ∷ xs) rest = do
    call_on_call h.on_call t a
    run_inserted h t next xs rest
  run_inserted h t next (mbr_instrumentation ∷ xs) rest = do
    call_on_ret h.on_ret t next
    run_inserted h t next xs rest

  unfoldable pub execute : SsHandlers → ℕ → List Executed → M (Unit {0})
  unfolding run_inserted
  execute h t [] = skip
  execute h t ((i, next) ∷ is) = run_inserted h t next (event_app_instruction p i) (execute h t is)

  -- The client's main, and then the target in its thread `t`.
  unfoldable pub instrumented : List (List ℕ) → ℕ → List Executed → M (Unit {0})
  unfolding execute
  instrumented argv t is = do handlers ← dr_client_main p argv; execute handlers t is

  run_inserted-internal :
      (t next : ℕ) (xs : List Inserted) (rest : M (Unit {0})) (es : List Event)
      → rest ≡ run_events p (in_thread t es)
      → run_inserted (all_from internal) t next xs rest
        ≡ run_events p (in_thread t (map (handler_event next) xs ++ es))
  unfolding run_inserted run_events
  run_inserted-internal t next [] rest es e = e
  run_inserted-internal t next (clean_call a ∷ xs) rest es e =
      ap (λ m. Internal.on_call p t a >> m) (run_inserted-internal t next xs rest es e)
  run_inserted-internal t next (mbr_instrumentation ∷ xs) rest es e =
      ap (λ m. Internal.on_ret p t next >> m) (run_inserted-internal t next xs rest es e)

  execute-internal :
      (t : ℕ) (is : List Executed)
      → execute (all_from internal) t is ≡ run_events p (in_thread t (events_in p is))
  unfolding execute events_in run_events
  execute-internal t [] = refl
  execute-internal t ((i, next) ∷ is) =
      run_inserted-internal t next (event_app_instruction p i) (execute (all_from internal) t is)
        (events_in p is) (execute-internal t is)

  -- The client of internal mode.
  main-internal :
      (name : List ℕ) (w : World)
      → Ends
          (λ h v. (h ≡ all_from internal) × (v.tls ≡ w.tls))
          (dr_client_main p (name ∷ internal_mode_flag ∷ []) w)
  unfolding dr_client_main set_up_mode mode_of
  main-internal name w =
      Ends-and_then (λ _ a. StartKept p w a) _ (run_before_everything p w) _
        (run_before_everything-Ends p w)
        λ _ a (_, ta, _). Ends-checked p _ _ _ a _ λ two. Ends-checked p _ _ _ a _ λ set.
          Ends-and_then (λ _ b. Frame a b) _ (log p _ a) _ (log-Ends p _ a)
            λ _ b q.
              Ends-and_then _ _ (ss_mode p internal_mode_flag b) _
                (ss_mode-mode_of p internal_mode_flag b)
                λ m c (is, same). Ends-checked p _ _ _ c _ λ valid.
                  rw (ap (λ (x : SsMode). x.is_internal) is) (
                    Ends-and_then _ _ (internal_setup p c) _ (internal_setup-Ends p c)
                      λ h d (all, td). Ends-checked p _ _ _ d _ λ usable.
                        Ends-and_then (λ _ e. Frame d e) _ (log p _ d) _ (log-Ends p _ d)
                          λ _ e r. (
                            all,
                            ap (λ (x : World). x.tls) r.same
                                ∙ td
                                ∙ ap (λ (x : World). x.tls) same
                                ∙ ap (λ (x : World). x.tls) q.same
                                ∙ ta,
                          ))

  instrumented-Ends :
      (name : List ℕ) (t : ℕ) (is : List Executed) (w : World) (Q : Unit {0} → World → Type 0)
      → stack_of w t ≡ []
      → ((v : World) → stack_of v t ≡ [] → Ends Q (run_events p (in_thread t (events_in p is)) v))
      → Ends Q (instrumented (name ∷ internal_mode_flag ∷ []) t is w)
  unfolding instrumented
  instrumented-Ends name t is w Q fresh f =
      Ends-and_then _ _ (dr_client_main p (name ∷ internal_mode_flag ∷ []) w) _
        (main-internal name w)
        λ h v (all, same).
          subst (λ g. Ends Q (execute g t is v)) (sym all)
            (subst (λ (m : M (Unit {0})). Ends Q (m v)) (sym (execute-internal t is))
              (f v (ap (λ (g : ℕ → Option (List ℕ)). stack_in (g t)) same ∙ fresh)))

  -- The client's main returns, and the honest target runs on to its end.
  executed-whole :
      (ok : Works p) (name path : List ℕ) (t : ℕ) (is : List Executed) (w : World)
      → Ready p
      → getenv dr_ss_env_sock w.environ ≡ some path
      → w.sym_setup ≡ false
      → Execution p is
      → stack_of w t ≡ []
      → Returns (λ _ v. stack_of v t ≡ []) (instrumented (name ∷ internal_mode_flag ∷ []) t is w)
  unfolding instrumented
  executed-whole ok name path t is w ready sock unset x fresh =
      Returns-and_then _ _ (dr_client_main p (name ∷ internal_mode_flag ∷ []) w) _
        (Returns-of_Ends _ (dr_client_main p (name ∷ internal_mode_flag ∷ []) w)
          (main-Returns p ok ready name path w sock unset) (main-internal name w))
        λ h v (all, same).
          subst (λ g. Returns (λ _ u. stack_of u t ≡ []) (execute g t is v)) (sym all)
            (subst (λ (m : M (Unit {0})). Returns (λ _ u. stack_of u t ≡ []) (m v))
              (sym (execute-internal t is))
              (executed-Returns p ok t is v x
                (ap (λ (g : ℕ → Option (List ℕ)). stack_in (g t)) same ∙ fresh)))

  -- On a kernel whose calls succeed, those of the client's start among them, for a client in
  -- internal mode with a value of DR_SS_ENV_SOCK that has not set up its symbols yet, and a thread
  -- with an empty stack: when the target executes instructions of which every return goes to the
  -- address behind its call, each calling the handlers that dr_client_main has stored through the
  -- code inserted before it, dr_client_main and all handlers return, and the thread's stack is empty
  -- again; and when the target goes on with a call, more such instructions, and a return to another
  -- address than the one behind this call, which is not the wildcard, then whatever comes after, the
  -- run ends with the group killed.
  pub instrumented_lem :
      (ok : Works p) (name path : List ℕ) (t : ℕ) (before body rest : List Executed) (i r : Instr)
      (next target : ℕ) (w : World)
      → Ready p
      → getenv dr_ss_env_sock w.environ ≡ some path
      → w.sym_setup ≡ false
      → Execution p before
      → IsCall p i
      → Execution p body
      → IsReturn p r
      → target ≢ address_after p i
      → address_after p i ≢ wildcard p
      → stack_of w t ≡ []
      → Returns
          (λ _ v. stack_of v t ≡ [])
          (instrumented (name ∷ internal_mode_flag ∷ []) t before w)
        × Kills (
            instrumented
              (name ∷ internal_mode_flag ∷ [])
              t
              (hijacked p before i next body r target rest)
              w)
  instrumented_lem ok name path t before body rest i r next target w ready sock unset x c y h other
        wild fresh =
      (
        executed-whole ok name path t before w ready sock unset x fresh,
        instrumented-Ends name t (hijacked p before i next body r target rest) w _ fresh λ v e.
            in_thread-Kills p ok t _ v (
              ap
                (λ s.
                  run (wildcard p) s (events_in p (hijacked p before i next body r target rest)))
                e
              ∙ hijacked-none p ok before body rest i r next target x c y h other wild),
      )
