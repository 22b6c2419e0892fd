-- ===== src/Internal/Handlers.antt =====
-- The handlers of internal mode (dr_internal_ss_events.cpp) against the abstract shadow stack: on any
-- kernel, one that returns has made its thread's abstract step, and no other thread's.
use dr_shadow_stack.Base.{
  ℕ, ◌≡◌, refl, sym, ap, ◌∙◌, subst, true, Option, none, some, List, [], ◌∷◌, ◌==◌, if◌then◌else◌,
  ==_iff,
}
use dr_shadow_stack.Server.{pop_all}
use dr_shadow_stack.Server.Handlers.{pop_all-nil}
use dr_shadow_stack.ShadowStack.Steps.{allows_of_eq, allows_of_wildcard, check-ret}
use dr_shadow_stack.Text.{Arg, text}
use dr_shadow_stack.Platform.{◌>>=◌, ◌>>◌, Platform, World, and_then, M, set_tls_field}
use dr_shadow_stack.Platform.Post.{
  Ends, Kills, Frame, Ends-and_then, Ends-if, Ends-of_Kills, Kills-and_then,
}
use dr_shadow_stack.Runtime.{log_error, verbose_log}
use dr_shadow_stack.Runtime.Termination.{
  Ends-checked, terminate-Kills, log_error-Ends, verbose_log-Ends,
}
use dr_shadow_stack.Message.{wildcard}
use dr_shadow_stack.Sym
use dr_shadow_stack.Sym.Print.{print-Ends}
use dr_shadow_stack.ShadowStack.{Event, check, allows}
use dr_shadow_stack.Internal.{
  top_of, update, tls_get, tls_get_or_new, pop_store, on_call, on_ret, on_signal, on_execve,
  reject_empty, reject_mismatch,
}
use dr_shadow_stack.Internal.Stacks.{
  stack_in, stack_of, Holds, Stepped, update_self, update_other, Holds-Frame, Frame-Holds,
  Holds-store,
}

module _ (p : Platform) where
  Stepped-Holds :
      (t : ℕ) (e : Event) (w v : World) {s' : List ℕ}
      → check (wildcard p) (stack_of w t) e ≡ some s'
      → Holds t s' w v
      → Stepped p t e w v
  Stepped-Holds t e w v k h = record {
    only = h.only;
    made = k ∙ ap (λ o. some (stack_in o)) (sym h.here);
    others = h.others;
  }

  pub tls_get-Ends :
      (t : ℕ) (w : World) → Ends (λ s v. (s ≡ stack_of w t) × Holds t s w v) (tls_get p t w)
  unfolding tls_get
  tls_get-Ends t w = go (w.tls t) refl
    where
      go :
          (o : Option (List ℕ))
          → w.tls t ≡ o
          → Ends (λ s v. (s ≡ stack_in o) × Holds t s w v) (tls_get_or_new p t o w)
      go none e =
          Ends-checked p _ _ _ (record w { trace = set_tls_field t ∷ w.trace }) _
            λ _. (
              refl,
              record {
                only = refl;
                here = update_self w.tls t [];
                others = λ u n. update_other w.tls t u [] n;
              },
            )
      go (some s) e = (refl, record { only = refl; here = e; others = λ u n. refl })

  -- A handler that logs, gets its thread's stack and goes on with it.
  module _ (t : ℕ) (e : Event) (args : List Arg) (w : World) where
    handler-Ends :
        (rest : List ℕ → M (Unit {0}))
        → ((v : World)
            → Holds t (stack_of w t) w v
            → Ends (λ _ u. Stepped p t e w u) (rest (stack_of w t) v))
        → Ends
            (λ _ u. Stepped p t e w u)
            (and_then (verbose_log p args w) (λ _ v. and_then (tls_get p t v) rest))
    handler-Ends rest k =
        Ends-and_then (λ _ v. Frame w v) _ (verbose_log p args w) _ (verbose_log-Ends p args w)
          λ _ v q. Ends-and_then _ _ (tls_get p t v) rest (tls_get-Ends t v) λ s u h.
            let was : s ≡ stack_of w t = h.0 ∙ ap (λ (y : World). stack_of y t) q.same in
            subst (λ x. Ends (λ _ u. Stepped p t e w u) (rest x u)) (sym was)
              (k u (subst (λ x. Holds t x w u) was (Frame-Holds q h.1)))

  pub on_call-Ends :
      (t a : ℕ) (w : World) → Ends (λ _ v. Stepped p t (Event.call a) w v) (on_call p t a w)
  unfolding on_call check
  on_call-Ends t a w =
      handler-Ends t (Event.call a) _ w _
        λ v h. Stepped-Holds t (Event.call a) w _ refl (Holds-store (a ∷ stack_of w t) h)

  pub on_execve-Ends :
      (t : ℕ) (w : World) → Ends (λ _ v. Stepped p t Event.execve w v) (on_execve p t w)
  unfolding on_execve check
  on_execve-Ends t w = handler-Ends t Event.execve _ w _ λ v h.
      Stepped-Holds t Event.execve w _ (ap some (sym (pop_all-nil (stack_of w t))))
        (Holds-store (pop_all (stack_of w t)) h)

  pub on_signal-Ends :
      (t : ℕ) (w : World) → Ends (λ _ v. Stepped p t Event.signal w v) (on_signal p t w)
  unfolding on_signal check
  on_signal-Ends t w = Ends-and_then _ _ (tls_get p t w) _ (tls_get-Ends t w) λ s v h.
      Stepped-Holds t Event.signal w _ (ap (λ x. some (wildcard p ∷ x)) (sym h.0))
        (Holds-store (wildcard p ∷ s) h.1)

  mismatch-Kills :
      (top a : ℕ) (ss : List ℕ) (v : World) → Kills (reject_mismatch p (top ∷ ss) top a v)
  unfolding reject_mismatch
  mismatch-Kills top a ss v =
      Ends-and_then (λ _ u. Frame v u) _ (log_error p _ v) _ (log_error-Ends p _ v)
        λ _ u q.
          Ends-and_then (λ _ x. Frame u x) _ (Sym.print p _ top u) _ (print-Ends p _ top u)
            λ _ x r.
              Ends-and_then (λ _ y. Frame x y) _ (Sym.print p _ a x) _ (print-Ends p _ a x)
                λ _ y s. terminate-Kills p none true y

  empty-Kills : (a : ℕ) (v : World) → Kills (reject_empty p [] a v)
  unfolding reject_empty
  empty-Kills a v =
      Ends-and_then (λ _ u. Frame v u) _ (Sym.print p _ a v) _ (print-Ends p _ a v)
        λ _ u q.
          Ends-and_then (λ _ x. Frame u x) _ (log_error p _ u) _ (log_error-Ends p _ u)
            λ _ x r. terminate-Kills p none true x

  -- The tests of `on_ret` on a stack with an entry.
  ret_top-Ends :
      (t a top : ℕ) (ss : List ℕ) (w v : World)
      → stack_of w t ≡ top ∷ ss
      → Holds t (top ∷ ss) w v
      → Ends
          (λ _ u. Stepped p t (Event.ret a) w u)
          ((if top == a
              then pop_store p t (top ∷ ss)
              else (if top == wildcard p
                  then (do
                    verbose_log p (text "Wildcard detected. Returning from signal handler." ∷ [])
                    pop_store p t (top ∷ ss))
                  else reject_mismatch p (top ∷ ss) top a))
            v)
  ret_top-Ends t a top ss w v was h =
      Ends-if _ (top == a) _ _ v
        (λ e. popped v h (allows_of_eq _ top a ((==_iff a top).1 (sym ((==_iff top a).0 e)))))
        λ e.
          Ends-if _ (top == wildcard p) _ _ v
            (λ g.
              Ends-and_then (λ _ u. Frame v u) _ (verbose_log p _ v) _ (verbose_log-Ends p _ v)
                λ _ u q. popped u (Holds-Frame h q) (allows_of_wildcard _ top a g))
            λ g. Ends-of_Kills _ (reject_mismatch p (top ∷ ss) top a v) (mismatch-Kills top a ss v)
    where
      popped :
          (u : World)
          → Holds t (top ∷ ss) w u
          → allows (wildcard p) top a ≡ true
          → Stepped p t (Event.ret a) w (record u { tls = update u.tls t ss })
      popped u k m =
          Stepped-Holds t (Event.ret a) w _ (rw was (check-ret _ top a ss m)) (Holds-store ss k)

  pub on_ret-Ends :
      (t a : ℕ) (w : World) → Ends (λ _ v. Stepped p t (Event.ret a) w v) (on_ret p t a w)
  unfolding on_ret reject_empty
  on_ret-Ends t a w = handler-Ends t (Event.ret a) _ w _ λ v h. go (stack_of w t) refl v h
    where
      go :
          (ss : List ℕ)
          → stack_of w t ≡ ss
          → (v : World) → Holds t ss w v
          → Ends
              (λ _ u. Stepped p t (Event.ret a) w u)
              ((do
                reject_empty p ss a
                top ← top_of ss
                if top == a
                    then pop_store p t ss
                    else (if top == wildcard p
                        then (do
                          verbose_log p
                              (text "Wildcard detected. Returning from signal handler." ∷ [])
                          pop_store p t ss)
                        else reject_mismatch p ss top a))
                v)
      go [] was v h = Kills-and_then _ (reject_empty p [] a v) _ (empty-Kills a v)
      go (top ∷ ss) was v h = ret_top-Ends t a top ss w v was h
