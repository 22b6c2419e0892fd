-- ===== src/Internal/Threads.antt =====
-- Internal mode (dr_internal_ss_events.cpp) over an interleaving of threads: each has the abstract
-- shadow stack of its own events.
use mathlib.Core.Bool.{false≢true}
use dr_shadow_stack.Base.{
  ==_refl, ℕ, ◌≡◌, sym, ap, ◌∙◌, subst, Bool, true, false, none, some, List, [], ◌∷◌, ◌==◌,
  if◌then◌else◌, inl, inr, Bool-cases, ==_iff,
}
use dr_shadow_stack.Platform.{◌>>=◌, ◌>>◌, Platform, World, M}
use dr_shadow_stack.Platform.Post.{Ends, Kills, Ends-and_then, Ends-mono}
use dr_shadow_stack.Message.{wildcard}
use dr_shadow_stack.ShadowStack.{Event, check, run}
use dr_shadow_stack.ShadowStack.Nesting.{run-step, run-nil}
use dr_shadow_stack.Internal.{
  on_event, run_events, on_ret, pre_syscall_event, post_syscall_event, syscall_event,
}
use dr_shadow_stack.Internal.Handlers.{on_call-Ends, on_ret-Ends, on_signal-Ends, on_execve-Ends}
use dr_shadow_stack.Internal.Stacks.{stack_in, Stepped, stack_of}

-- What one thread did, in order.
unfoldable pub events_of : ℕ → List (ℕ × Event) → List Event
events_of t [] = []
events_of t ((u, e) ∷ es) = if u == t then e ∷ events_of t es else events_of t es

pub events_of_self :
    (t : ℕ) (e : Event) (es : List (ℕ × Event)) → events_of t ((t, e) ∷ es) ≡ e ∷ events_of t es
unfolding events_of
events_of_self t e es = rw (==_refl t)

module _ (p : Platform) where
  pub on_event-Ends :
      (t : ℕ) (e : Event) (w : World) → Ends (λ _ v. Stepped p t e w v) (on_event p t e w)
  unfolding on_event
  on_event-Ends t (Event.call a) w = on_call-Ends p t a w
  on_event-Ends t (Event.ret a) w = on_ret-Ends p t a w
  on_event-Ends t Event.signal w = on_signal-Ends p t w
  on_event-Ends t Event.execve w = on_execve-Ends p t w

  -- A handler that returns has made one abstract step, in its thread.
  pub events_of-step :
      (t u : ℕ) (e : Event) (es : List (ℕ × Event)) (w v : World)
      → Stepped p u e w v
      → run (wildcard p) (stack_of w t) (events_of t ((u, e) ∷ es))
        ≡ run (wildcard p) (stack_of v t) (events_of t es)
  unfolding events_of
  events_of-step t u e es w v st = elim (Bool-cases (u == t)) [
    | inl y ↦ rw y (
        subst
          (λ x.
            run (wildcard p) (stack_of w x) (e ∷ events_of t es)
            ≡ run (wildcard p) (stack_of v x) (events_of t es))
          ((==_iff u t).0 y) (run-step (wildcard p) _ _ e (events_of t es) st.made))
    | inr n ↦ rw n (
        ap (λ o. run (wildcard p) (stack_in o) (events_of t es))
          (sym (st.others t (λ g. false≢true (sym n ∙ (==_iff u t).1 g)))))
  ]

  -- On any kernel and for any interleaving of the events of several threads: the handlers of
  -- internal mode end, by a return or with the group killed. If all of them return, every thread's
  -- stack is what the abstract shadow stack makes of that thread's own events.
  pub run_events-Ends :
      (es : List (ℕ × Event)) (w : World)
      → Ends
          (λ _ v. (t : ℕ) → run (wildcard p) (stack_of w t) (events_of t es) ≡ some (stack_of v t))
          (run_events p es w)
  unfolding run_events events_of
  run_events-Ends [] w = λ t. run-nil (wildcard p) (stack_of w t)
  run_events-Ends ((u, e) ∷ es) w =
      Ends-and_then _ _ (on_event p u e w) _ (on_event-Ends u e w) λ _ v st.
        Ends-mono _ _ (run_events p es v) (run_events-Ends es v)
          λ _ x h t. events_of-step t u e es w v st ∙ h t

  -- On any kernel: if the abstract shadow stack does not accept the events of one thread, internal
  -- mode kills the group on every interleaving of them with other threads' events.
  pub run_events-Kills :
      (es : List (ℕ × Event)) (w : World) (t : ℕ)
      → run (wildcard p) (stack_of w t) (events_of t es) ≡ none
      → Kills (run_events p es w)
  run_events-Kills es w t h =
      Ends-mono _ _ (run_events p es w) (run_events-Ends es w) λ _ v q. let k = q t in cc

  -- What DynamoRIO calls around an execve that fails, and the thread's next return.
  unfoldable pub failed_execve : ℕ → ℕ → M (Unit {0})
  failed_execve t a = do
    _ ← pre_syscall_event p t p.sys_execve
    post_syscall_event p t p.sys_execve
    on_ret p t a

  syscall_event-Ends :
      (t : ℕ) (pre : Bool) (w : World)
      → Ends (λ _ v. Stepped p t Event.execve w v) (syscall_event p t p.sys_execve pre w)
  unfolding syscall_event
  syscall_event-Ends t pre w = rw (==_refl p.sys_execve) (on_execve-Ends p t w)

  pre_syscall_event-Ends :
      (t : ℕ) (w : World)
      → Ends (λ _ v. Stepped p t Event.execve w v) (pre_syscall_event p t p.sys_execve w)
  unfolding pre_syscall_event
  pre_syscall_event-Ends t w =
      Ends-and_then _ _ (syscall_event p t p.sys_execve true w) _ (syscall_event-Ends t true w)
        λ _ v st. st

  -- On any kernel and from any state: the event before an execve followed by the event after it,
  -- which DynamoRIO calls only if the exec has failed, leave the thread's stack empty, so that its
  -- next return kills the group wherever it goes.
  pub failed_execve-Kills : (t a : ℕ) (w : World) → Kills (failed_execve t a w)
  unfolding failed_execve post_syscall_event check
  failed_execve-Kills t a w =
      Ends-and_then _ (λ _ _. ⊥) (pre_syscall_event p t p.sys_execve w) _
        (pre_syscall_event-Ends t w)
        λ _ v first.
          Ends-and_then _ (λ _ _. ⊥) (syscall_event p t p.sys_execve false v) _
            (syscall_event-Ends t false v)
            λ _ u second.
              Ends-mono _ (λ _ _. ⊥) (on_ret p t a u) (on_ret-Ends p t a u)
                λ _ x third. no_return (stack_of u t) (stack_of x t) (cc (second.made)) third.made
    where
      no_return : (s s' : List ℕ) → [] ≡ s → check (wildcard p) s (Event.ret a) ≡ some s' → ⊥
      no_return [] s' e h = cc
      no_return (x ∷ s) s' e h = cc
