-- ===== src/Protection.antt =====
-- What the program as a whole gives its user: internal mode (dr_internal_ss_events.cpp) against the
-- histories without a stack, and external mode from the client (dr_external_ss_events.cpp) through the
-- bytes on the socket to the server (external_stack_server.cpp).
use dr_shadow_stack.Base.{
  ℕ, ◌≡◌, ◌↔◌, sym, ap, ◌∙◌, subst, some, List, [], ◌++◌, if◌then◌else◌, ==_refl,
}
use dr_shadow_stack.Platform.{Platform, World, sent}
use dr_shadow_stack.Platform.Post.{
  Kills, Returns, Ends, Ends-mono, Returns-inv, Returns-mono, Returns-of_Ends, IsNoLog,
}
use dr_shadow_stack.Runtime.Logging.{Works}
use dr_shadow_stack.Message.{wildcard}
use dr_shadow_stack.ShadowStack.{Event, run}
use dr_shadow_stack.ShadowStack.Nesting.{WellNested, HasNoExecve, run-WellNested}
use dr_shadow_stack.Server.{start_external_shadow_stack}
use dr_shadow_stack.Internal.{run_events}
use dr_shadow_stack.Internal.Stacks.{stack_of}
use dr_shadow_stack.Internal.Threads.{run_events-Ends}
use dr_shadow_stack.Modes.{in_thread, events_of-in_thread, in_thread-Returns, modes_agree}
use dr_shadow_stack.Client
use dr_shadow_stack.Client.{next_of}
use dr_shadow_stack.Client.Session
use dr_shadow_stack.Client.Protocol.{stream_of}
use dr_shadow_stack.Client.Messages.{InRange}

module _ (p : Platform) (ok : Works p) where
  -- A thread's own events, from an empty stack, give the stack that internal mode leaves.
  in_thread-Ends :
      (t : ℕ) (es : List Event) (w : World)
      → stack_of w t ≡ []
      → Ends (λ _ v. run (wildcard p) [] es ≡ some (stack_of v t)) (run_events p (in_thread t es) w)
  in_thread-Ends t es w fresh =
      Ends-mono _ _ (run_events p (in_thread t es) w) (run_events-Ends p (in_thread t es) w)
        λ _ v q.
          ap (λ s. run (wildcard p) s es) (sym fresh)
          ∙ ap (run (wildcard p) (stack_of w t))
              (sym (events_of-in_thread t t es ∙ ap (λ b. if b then es else []) (==_refl t)))
          ∙ q t

  -- On a kernel whose calls succeed, for a history without exec in a thread with an empty stack:
  -- internal mode handles the whole history and leaves the thread's stack empty exactly if the
  -- history is well nested, that is if every return closes the frame of a signal's delivery, or of a
  -- call whose return address is the return's target or the wildcard, and no frame stays open.
  pub in_thread-WellNested :
      (t : ℕ) (es : List Event) (w : World)
      → HasNoExecve es
      → stack_of w t ≡ []
      → Returns (λ _ v. stack_of v t ≡ []) (run_events p (in_thread t es) w)
        ↔ WellNested (wildcard p) es
  in_thread-WellNested t es w n fresh = (
    λ r.
        let (a, v, e, q) =
          Returns-inv (λ _ v. stack_of v t ≡ []) (run_events p (in_thread t es) w) r in
        let made =
          subst (Ends (λ _ v. run (wildcard p) [] es ≡ some (stack_of v t))) e
            (in_thread-Ends t es w fresh) in
        (run-WellNested (wildcard p) es n).0 (made ∙ ap some q),
    λ nested.
        let good : run (wildcard p) [] es ≡ some [] = (run-WellNested (wildcard p) es n).1 nested in
        Returns-mono (λ _ v. run (wildcard p) [] es ≡ some (stack_of v t)) _
          (run_events p (in_thread t es) w)
          (Returns-of_Ends _ (run_events p (in_thread t es) w)
            (in_thread-Returns p ok t es w [] (ap (λ s. run (wildcard p) s es) fresh ∙ good))
            (in_thread-Ends t es w fresh))
          λ _ v q. let same : some [] ≡ some (stack_of v t) = sym good ∙ q in cc,
  )

  -- On a kernel whose calls succeed, with addresses that fit a pointer, an envp that has an entry
  -- whose name starts with DR_SS_ENV_FD and sockets that are no log descriptors: the external
  -- client, run on a history, ends in a return or with the group killed; if it returns, it has
  -- written some messages to its socket, and a server that reads exactly those bytes kills the group
  -- exactly if internal mode does on the same history in a thread with an empty stack.
  pub external_mode_agrees :
      (env : List (List ℕ)) (s : List ℕ) (t sock sock' : ℕ) (es : List Event) (w u v : World)
      → next_of env ≡ some s
      → InRange p es
      → IsNoLog w sock
      → IsNoLog u sock'
      → stack_of v t ≡ []
      → Ends
          (λ _ w'.
            (chunks : List (List ℕ)) × (sent sock w'.trace ≡ chunks ++ sent sock w.trace)
            × (Kills
                  (start_external_shadow_stack p sock' (record u { incoming = stream_of chunks }))
                ↔ Kills (run_events p (in_thread t es) v)))
          (Client.run_events p sock env es w)
  external_mode_agrees env s t sock sock' es w u v h r n m fresh =
      Ends-mono _ _ (Client.run_events p sock env es w)
        (Client.Session.run_events-Told p sock env s es w h r n)
        λ _ w' told. (
          told.chunks,
          told.out,
          modes_agree p ok t sock' es (record u { incoming = stream_of told.chunks }) v
              (record { not_log = m.not_log; not_stdout = m.not_stdout; not_error = m.not_error })
              told.spelled fresh,
        )
