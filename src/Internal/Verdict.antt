-- ===== src/Internal/Verdict.antt =====
-- Internal mode (dr_internal_ss_events.cpp) on a platform whose calls succeed: a handler returns if the
-- abstract shadow stack makes the step; so both modes give the same verdict on a thread's history.
use mathlib.Core.Bool.{false≢true}
use dr_shadow_stack.Base.{
  ℕ, ◌≡◌, refl, sym, ap, ◌∙◌, subst, true, Option, none, some, List, [], ◌∷◌, ◌==◌, if◌then◌else◌,
  arith,
}
use dr_shadow_stack.Text.{Arg, text}
use dr_shadow_stack.Platform.{Platform, World, ◌>>=◌, ◌>>◌, and_then}
use dr_shadow_stack.Platform.Post.{Returns, Frame, Returns-and_then, Returns-if, Returns-of_Ends}
use dr_shadow_stack.Runtime.{verbose_log}
use dr_shadow_stack.Runtime.Logging.{Works, verbose_log-Returns, Returns-checked}
use dr_shadow_stack.Message.{wildcard}
use dr_shadow_stack.ShadowStack.Steps.{allows_of_check, not_allows, no_ret}
use dr_shadow_stack.ShadowStack.{Event, check, run}
use dr_shadow_stack.Internal.{
  tls_store, pop_all, tls_get, tls_get_or_new, on_call, on_ret, on_signal, on_execve, on_event,
  run_events, reject_empty, reject_mismatch, top_of, pop_store,
}
use dr_shadow_stack.Internal.Stacks.{stack_of, stack_in}
use dr_shadow_stack.Internal.Threads.{events_of_self, on_event-Ends, events_of, events_of-step}
use dr_shadow_stack.ShadowStack.Nesting.{run-some}

==_flip : (a b : ℕ) → (b == a) ≡ (a == b)
==_flip a b = ground arith

abbrev Done {ℓ} : {A : Type ℓ} → A → World → Type 0
Done _ _ = Unit {0}

module _ (p : Platform) (ok : Works p) where
  tls_get-Returns : (t : ℕ) (w : World) → Returns (λ s v. s ≡ stack_of w t) (tls_get p t w)
  unfolding tls_get
  tls_get-Returns t w = go (w.tls t)
    where
      go : (o : Option (List ℕ)) → Returns (λ s v. s ≡ stack_in o) (tls_get_or_new p t o w)
      go none = rw (ok.stores w.trace t) (Returns-checked p _ true _ _ _ refl refl)
      go (some s) = refl

  on_ret-Returns :
      (t a : ℕ) (w : World) (s : List ℕ)
      → check (wildcard p) (stack_of w t) (Event.ret a) ≡ some s
      → Returns Done (on_ret p t a w)
  unfolding on_ret
  on_ret-Returns t a w s k =
      Returns-and_then (λ _ v. Frame w v) _ (verbose_log p _ w) _ (verbose_log-Returns p ok _ w)
        λ _ v q. Returns-and_then _ _ (tls_get p t v) _ (tls_get-Returns t v) λ ss u e. go ss u (
          subst (λ x. check (wildcard p) x (Event.ret a) ≡ some s)
            (sym (e ∙ ap (λ (y : World). stack_of y t) q.same)) k)
    where
      go :
          (ss : List ℕ)
          → (u : World) → check (wildcard p) ss (Event.ret a) ≡ some s
          → Returns Done (
              (do
                reject_empty p ss a
                top ← top_of ss
                if top == a
                    then pop_store p t ss
                    else (if top == wildcard p
                        then (do
                          verbose_log p
                              (text "Wildcard detected. Returning from signal handler." ∷ [])
                          pop_store p t ss)
                        else reject_mismatch p ss top a))
                u)
      go [] u k = absurd (no_ret (wildcard p) a s k)
      go (top ∷ ss) u k =
          Returns-if Done (top == a) _ _ u (λ _. tt)
            λ e.
              Returns-if Done (top == wildcard p) _ _ u
                (λ _.
                  Returns-and_then (λ _ v. Frame u v) Done (verbose_log p _ u) _
                    (verbose_log-Returns p ok _ u) λ _ v q. tt)
                λ g. absurd (
                  false≢true (
                    sym (not_allows (wildcard p) top a g (==_flip top a ∙ e))
                    ∙ allows_of_check (wildcard p) top a ss s k))

  logged_store-Returns :
      (t : ℕ) (args : List Arg) (w : World) (f : List ℕ → List ℕ)
      → Returns Done (
          and_then
            (verbose_log p args w)
            (λ _ v. and_then (tls_get p t v) (λ ss. tls_store p t (f ss))))
  logged_store-Returns t args w f =
      Returns-and_then (λ _ v. Frame w v) Done (verbose_log p args w) _
        (verbose_log-Returns p ok args w)
        λ _ v q. Returns-and_then _ Done (tls_get p t v) _ (tls_get-Returns t v) λ ss u e. tt

  on_event-Returns :
      (t : ℕ) (e : Event) (w : World) (s : List ℕ)
      → check (wildcard p) (stack_of w t) e ≡ some s
      → Returns Done (on_event p t e w)
  unfolding on_event on_call on_signal on_execve
  on_event-Returns t (Event.call a) w s k = logged_store-Returns t _ w (λ ss. a ∷ ss)
  on_event-Returns t (Event.ret a) w s k = on_ret-Returns t a w s k
  on_event-Returns t Event.signal w s k =
      Returns-and_then _ Done (tls_get p t w) _ (tls_get-Returns t w) λ ss u e. tt
  on_event-Returns t Event.execve w s k = logged_store-Returns t _ w pop_all

  -- On a kernel whose calls succeed: if the abstract shadow stack accepts the events of each thread,
  -- all handlers of the interleaving return.
  pub run_events-Returns :
      (es : List (ℕ × Event)) (w : World) (last : ℕ → List ℕ)
      → ((t : ℕ) → run (wildcard p) (stack_of w t) (events_of t es) ≡ some (last t))
      → Returns Done (run_events p es w)
  unfolding run_events
  run_events-Returns [] w last h = tt
  run_events-Returns ((u, e) ∷ es) w last h =
      let first : run (wildcard p) (stack_of w u) (e ∷ events_of u es) ≡ some (last u) =
        ap (run (wildcard p) (stack_of w u)) (sym (events_of_self u e es)) ∙ h u in
      let (s, k, r) = run-some (wildcard p) (stack_of w u) (last u) e (events_of u es) first in
      Returns-and_then _ Done (on_event p u e w) _
        (Returns-of_Ends _ (on_event p u e w) (on_event-Returns u e w s k) (on_event-Ends p u e w))
        λ _ v st. run_events-Returns es v last (λ t. sym (events_of-step p t u e es w v st) ∙ h t)
