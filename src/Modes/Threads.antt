-- ===== src/Modes/Threads.antt =====
-- Several threads in the two modes: dr_internal_ss_events.cpp keeps a stack for each, and
-- external_stack_server.cpp one for all that send to its socket.
use dr_shadow_stack.Base.{
  ℕ, ◌≡◌, ◌≢◌, refl, ◌∙◌, true, false, none, some, List, [], ◌∷◌, ◌==◌, if◌then◌else◌, arith, inl,
  inr, Bool-cases, ==_refl,
}
use dr_shadow_stack.Platform.{Platform, World}
use dr_shadow_stack.Platform.Post.{Kills, Returns, IsNoLog}
use dr_shadow_stack.Runtime.Logging.{Works}
use dr_shadow_stack.Message.{wildcard}
use dr_shadow_stack.Message.Events.{Stream}
use dr_shadow_stack.ShadowStack.{Event, allows, check, run}
use dr_shadow_stack.ShadowStack.Nesting.{run-step, run-stop, run-nil, check-ret_not}
use dr_shadow_stack.ShadowStack.Steps.{check-ret, not_allows}
use dr_shadow_stack.Server.{start_external_shadow_stack}
use dr_shadow_stack.Server.Verdict.{start_external_shadow_stack-Kills}
use dr_shadow_stack.Internal.{run_events}
use dr_shadow_stack.Internal.Stacks.{stack_of}
use dr_shadow_stack.Internal.Threads.{events_of}
use dr_shadow_stack.Internal.Verdict.{run_events-Returns}

-- A thread makes a call, another makes one too, and the first returns from its own.
abbrev pub crossing : ℕ → ℕ → ℕ → ℕ → List (ℕ × Event)
crossing t u a b = (t, Event.call a) ∷ (u, Event.call b) ∷ (t, Event.ret a) ∷ []

-- The same as one client tells it.
abbrev pub crossed : ℕ → ℕ → List Event
crossed a b = Event.call a ∷ Event.call b ∷ Event.ret a ∷ []

allows_self : (w a : ℕ) → allows w a a ≡ true
unfolding allows
allows_self w a = rw (==_refl a) refl

crossed-none : (w a b : ℕ) → a ≢ b → b ≢ w → run w [] (crossed a b) ≡ none
unfolding check
crossed-none w a b ne nw =
    run-step w [] (a ∷ []) (Event.call a) _ refl
    ∙ run-step w (a ∷ []) (b ∷ a ∷ []) (Event.call b) _ refl
    ∙ run-stop w (b ∷ a ∷ []) (Event.ret a) []
        (check-ret_not w b a (a ∷ []) (not_allows w b a (ground arith) (ground arith)))

own_frame : (w a : ℕ) (stk : List ℕ) → run w stk (Event.call a ∷ Event.ret a ∷ []) ≡ some stk
unfolding check
own_frame w a stk =
    run-step w stk (a ∷ stk) (Event.call a) _ refl
    ∙ run-step w (a ∷ stk) stk (Event.ret a) [] (check-ret w a a stk (allows_self w a))
    ∙ run-nil w stk

module _ (p : Platform) (ok : Works p) where
  -- On a kernel whose calls succeed, for two threads and two return addresses of which the second is
  -- not the wildcard: when the first thread calls, the second calls, and the first returns to its
  -- own call's address, a server that is told these events on a socket that is no log descriptor
  -- kills the group, and internal mode handles all of them.
  pub modes_differ :
      (t u a b sock : ℕ) (w v : World)
      → t ≢ u
      → a ≢ b
      → b ≢ wildcard p
      → IsNoLog w sock
      → Stream p [] (crossed a b) w.incoming
      → Kills (start_external_shadow_stack p sock w)
        × Returns (λ _ _. Unit {0}) (run_events p (crossing t u a b) v)
  unfolding events_of run check
  modes_differ t u a b sock w v two ne nw n st = (
    start_external_shadow_stack-Kills p ok (crossed a b) sock w n st
        (crossed-none (wildcard p) a b ne nw),
    run_events-Returns p ok (crossing t u a b) v
        (λ x. if u == x then b ∷ stack_of v x else stack_of v x)
        λ x. elim (Bool-cases (t == x)) [
          | inl y ↦
              let z : (u == x) ≡ false = ground arith in
              rw (y, z) (own_frame (wildcard p) a (stack_of v x))
          | inr y ↦ elim (Bool-cases (u == x)) [ inl z ↦ rw (y, z) refl | inr z ↦ rw (y, z) refl ]
        ],
  )
