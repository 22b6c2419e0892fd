-- ===== src/Client/Session.antt =====
-- A whole history at the external client (dr_external_ss_events.cpp), with its execve calls.
use dr_shadow_stack.Base.{
  ℕ, ◌≡◌, refl, sym, ap, ◌∙◌, true, false, some, List, [], ◌∷◌, inl, inr, Option-cases,
}
use dr_shadow_stack.Platform.{Platform, World, Syscall, strdup, sent}
use dr_shadow_stack.Platform.Post.{Ends, IsNoLog, IsNoLog-moved, Ends-and_then, Ends-mono}
use dr_shadow_stack.Runtime.Termination.{Ends-checked}
use dr_shadow_stack.Environment.{getenv, dr_ss_env_fd}
use dr_shadow_stack.Message
use dr_shadow_stack.Message.{send_msg}
use dr_shadow_stack.ShadowStack.{Event, returns_in}
use dr_shadow_stack.Client.{copy_of, on_execve, on_event, run_events, next_of, fd_entry}
use dr_shadow_stack.Client.Execve.{Replaced, replace_fd_lem}
use dr_shadow_stack.Client.Protocol.{
  Told, Told-Sent, Told-cons, Told-nil, on_call-Ends, on_ret-Ends, on_signal-Ends,
}
use dr_shadow_stack.Client.Messages.{Sent, InRange, InRange-cons, send_msg-Ends, Encodes-execve}

module _ (p : Platform) (sock : ℕ) where
  Sent-strdup :
      {chunk : List ℕ} (s : List ℕ) (w v : World)
      → Sent sock chunk w v
      → Sent sock chunk w (record v { trace = strdup s ∷ v.trace })
  unfolding sent
  Sent-strdup s w v q = record {
    same = λ i. record (q.same i) { trace = strdup s ∷ v.trace };
    out = q.out;
  }

  -- On any kernel, for an envp that has an entry whose name starts with DR_SS_ENV_FD, and a socket
  -- that is no log descriptor: on_execve ends, by a return or with the group killed. If it returns,
  -- the client has a value of DR_SS_ENV_FD, it has sent one Execve message, and in the new envp what
  -- strdup gives takes the place of the first such entry: a copy of the client's own definition, or,
  -- where strdup fails, a null pointer, at which the new envp ends.
  pub on_execve-Replaced :
      (env : List (List ℕ)) (s : List ℕ) (w : World)
      → next_of env ≡ some s
      → IsNoLog w sock
      → Ends
          (λ env' v.
            (fd : List ℕ) × (getenv dr_ss_env_fd w.environ ≡ some fd)
            × (h : List Syscall) × Replaced env env'
                (copy_of (fd_entry fd) (p.result h (strdup (fd_entry fd))))
            × Told p sock (Event.execve ∷ []) w v)
          (on_execve p sock env w)
  unfolding on_execve returns_in
  on_execve-Replaced env s w h n =
      Ends-and_then _ _ (send_msg p Message.execve sock w) _
        (send_msg-Ends p Message.execve sock w n)
        λ _ v q. rw h (elim (Option-cases (getenv dr_ss_env_fd v.environ)) [
          | inl e ↦ rw e (Ends-checked p _ false _ v _ (λ c. cc))
          | inr (fd, e) ↦
              let entry = copy_of (fd_entry fd) (p.result v.trace (strdup (fd_entry fd))) in
              let (env', made, r) = replace_fd_lem env entry s h in
              rw e (
                Ends-checked p _ true _ v _ λ _. rw made (
                  fd,
                  ap (λ (u : World). getenv dr_ss_env_fd u.environ) (sym q.same) ∙ e,
                  v.trace,
                  r,
                  Told-Sent p sock Event.execve _ w _ refl (Encodes-execve p)
                      (Sent-strdup (fd_entry fd) w v q),
                ))
        ])

  on_event-Ends :
      (env : List (List ℕ)) (s : List ℕ) (e : Event) (w : World)
      → next_of env ≡ some s
      → InRange p (e ∷ [])
      → IsNoLog w sock
      → Ends (λ _ v. Told p sock (e ∷ []) w v) (on_event p sock env e w)
  unfolding on_event
  on_event-Ends env s (Event.call a) w h r n = on_call-Ends p a sock w r.0 n
  on_event-Ends env s (Event.ret a) w h r n = on_ret-Ends p a sock w r.0 n
  on_event-Ends env s Event.signal w h r n = on_signal-Ends p sock w n
  on_event-Ends env s Event.execve w h r n =
      Ends-and_then _ _ (on_execve p sock env w) _ (on_execve-Replaced env s w h n) λ _ v q. q.4

  -- On any kernel, with addresses that fit a pointer, an envp that has an entry whose name starts
  -- with DR_SS_ENV_FD and a socket that is no log descriptor: the external client ends, by a return
  -- or with the group killed. If it returns, the bytes that it has written to the socket spell its
  -- history, and it has read a whole message with the header of Continue for each return and nothing
  -- else.
  pub run_events-Told :
      (env : List (List ℕ)) (s : List ℕ) (es : List Event) (w : World)
      → next_of env ≡ some s
      → InRange p es
      → IsNoLog w sock
      → Ends (λ _ v. Told p sock es w v) (run_events p sock env es w)
  unfolding run_events
  run_events-Told env s [] w h r n = Told-nil p sock w
  run_events-Told env s (e ∷ es) w h r n =
      Ends-and_then _ _ (on_event p sock env e w) _
        (on_event-Ends env s e w h (InRange-cons p e es r).0 n)
        λ _ v t.
          Ends-mono _ _ (run_events p sock env es v)
            (run_events-Told env s es v h (InRange-cons p e es r).1
              (IsNoLog-moved w v sock t.same n))
            λ _ u q. Told-cons p sock e es w v u t q
