-- ===== src/Modes.antt =====
-- The two modes side by side: external_stack_server.cpp on the stream of one client, and
-- dr_internal_ss_events.cpp on the same history in one thread.
pub mod Threads
use dr_shadow_stack.Base.{
  ℕ, ◌≡◌, ◌↔◌, ap, ◌∙◌, none, some, List, [], ◌∷◌, ◌==◌, if◌then◌else◌, map, arith, inl, inr,
  Option-cases, Bool-cases, ==_refl, ==_iff, subst,
}
use dr_shadow_stack.Platform.{
  Platform, World, Outcome, returns, killed, exited, undefined, out_of_fuel,
}
use dr_shadow_stack.Platform.Post.{Kills, Returns, IsNoLog}
use dr_shadow_stack.Runtime.Logging.{Works}
use dr_shadow_stack.Message.{wildcard}
use dr_shadow_stack.Message.Events.{Stream}
use dr_shadow_stack.ShadowStack.{Event, run}
use dr_shadow_stack.ShadowStack.Nesting.{run-nil}
use dr_shadow_stack.Server.{start_external_shadow_stack}
use dr_shadow_stack.Server.Verdict.{
  start_external_shadow_stack-Returns, start_external_shadow_stack-Kills,
}
use dr_shadow_stack.Internal.{run_events}
use dr_shadow_stack.Internal.Stacks.{stack_of}
use dr_shadow_stack.Internal.Threads.{events_of, run_events-Kills}
use dr_shadow_stack.Internal.Verdict.{run_events-Returns}

-- One thread's history as an interleaving.
abbrev pub in_thread : ℕ → List Event → List (ℕ × Event)
in_thread t es = map (λ e. (t, e)) es

pub events_of-in_thread :
    (t u : ℕ) (es : List Event) → events_of u (in_thread t es) ≡ (if t == u then es else [])
unfolding events_of
events_of-in_thread t u [] = ground arith
events_of-in_thread t u (e ∷ es) = elim (Bool-cases (t == u)) [
  | inl y ↦ rw (events_of-in_thread t u es, y)
  | inr n ↦ rw (events_of-in_thread t u es, n)
]

not-Kills-Returns {ℓ} :
    {A : Type ℓ} (Q : A → World → Type 0) (m : Outcome A) → Returns Q m → Kills m → ⊥
not-Kills-Returns Q (returns a w) r k = k
not-Kills-Returns Q (killed w) r k = r
not-Kills-Returns Q (exited n w) r k = r
not-Kills-Returns Q (undefined w) r k = r
not-Kills-Returns Q out_of_fuel r k = r

module _ (p : Platform) (ok : Works p) where
  pub in_thread-Returns :
      (t : ℕ) (es : List Event) (w : World) (s : List ℕ)
      → run (wildcard p) (stack_of w t) es ≡ some s
      → Returns (λ _ _. Unit {0}) (run_events p (in_thread t es) w)
  in_thread-Returns t es w s h =
      run_events-Returns p ok (in_thread t es) w (λ u. if t == u then s else stack_of w u)
        λ u. elim (Bool-cases (t == u)) [
          | inl y ↦
              rw (events_of-in_thread t u es, y)
                (subst (λ x. run (wildcard p) (stack_of w x) es ≡ some s) ((==_iff t u).0 y) h)
          | inr n ↦ rw (events_of-in_thread t u es, n) (run-nil (wildcard p) (stack_of w u))
        ]

  pub in_thread-Kills :
      (t : ℕ) (es : List Event) (w : World)
      → run (wildcard p) (stack_of w t) es ≡ none
      → Kills (run_events p (in_thread t es) w)
  in_thread-Kills t es w h = run_events-Kills p (in_thread t es) w t (
      ap (run (wildcard p) (stack_of w t))
        (events_of-in_thread t t es ∙ ap (λ b. if b then es else []) (==_refl t))
      ∙ h)

  -- On a kernel whose calls succeed, and where the client's socket is no log descriptor: when the
  -- bytes that wait for the server spell a history up to the end of the stream, the server kills the
  -- process group exactly if internal mode kills it on the same history in one thread that starts
  -- with an empty stack.
  pub modes_agree :
      (t sock : ℕ) (es : List Event) (w v : World)
      → IsNoLog w sock
      → Stream p [] es w.incoming
      → stack_of v t ≡ []
      → Kills (start_external_shadow_stack p sock w) ↔ Kills (run_events p (in_thread t es) v)
  modes_agree t sock es w v n st fresh = elim (Option-cases (run (wildcard p) [] es)) [
    | inl bad ↦ (
      λ _. in_thread-Kills t es v (ap (λ s. run (wildcard p) s es) fresh ∙ bad),
      λ _. start_external_shadow_stack-Kills p ok es sock w n st bad,
    )
    | inr (s, good) ↦ (
      λ k. absurd (
          not-Kills-Returns _ (start_external_shadow_stack p sock w)
            (start_external_shadow_stack-Returns p ok es s sock w n st good) k),
      λ k. absurd (
          not-Kills-Returns _ (run_events p (in_thread t es) v)
            (in_thread-Returns t es v s (ap (λ s. run (wildcard p) s es) fresh ∙ good)) k),
    )
  ]
