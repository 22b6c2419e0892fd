-- ===== src/Lockstep/Progress.antt =====
-- Neither process of external mode waits for ever on the other (dr_external_ss_events.cpp,
-- external_stack_server.cpp), on a kernel whose calls succeed.
use dr_shadow_stack.Base.{
  true, ℕ, suc, ◌+◌, ◌≡◌, refl, sym, ap, ◌∙◌, subst, some, List, [], ◌∷◌, take, arith, take-append,
  ==_iff,
}
use dr_shadow_stack.Platform.{Platform, World, strdup}
use dr_shadow_stack.Platform.Post.{
  Returns-inv, Returns, Frame, IsNoLog, Returns-and_then, Returns-of_Ends,
}
use dr_shadow_stack.Platform.Post.{IsNoLog-same}
use dr_shadow_stack.Runtime.Logging.{
  receive-and_then, Works, verbose_log-Returns, Returns-checked, assert-Returns,
}
use dr_shadow_stack.Runtime.{verbose_log}
use dr_shadow_stack.Environment.{getenv, dr_ss_env_fd}
use dr_shadow_stack.Message
use dr_shadow_stack.Message.{
  continue, header_only_message, message_size, wildcard, to_memory, recv_msg, is_a_valid, send_msg,
}
use dr_shadow_stack.ShadowStack.{Event, returns_in}
use dr_shadow_stack.Client.{next_of, on_call, tell_ret, on_signal, on_execve, fd_entry, copy_of}
use dr_shadow_stack.Client.Messages.{
  InRange, send_msg-Ends, send_msg-Returns, send_msg_with_body-Returns,
}
use dr_shadow_stack.Client.Execve.{replace_fd_lem}
use dr_shadow_stack.Message.Codec.{
  take-header_only_message, is_a_valid_self, length-to_memory, length-header_only_message,
}
use dr_shadow_stack.Lockstep.{returns, tell, hear}
use dr_shadow_stack.Message.Events.{Stream}
use dr_shadow_stack.Lockstep.{written}
use dr_shadow_stack.Lockstep.Messages.{tell-Ends}
use dr_shadow_stack.Lockstep.Channel.{replies, replies_first}

module _ (p : Platform) (ok : Works p) (env : List (List ℕ)) (sock : ℕ) where
  on_execve-Returns :
      (entry fd : List ℕ) (w : World)
      → next_of env ≡ some entry
      → getenv dr_ss_env_fd w.environ ≡ some fd
      → IsNoLog w sock
      → Returns (λ _ _. Unit {0}) (on_execve p sock env w)
  unfolding on_execve
  on_execve-Returns entry fd w h g n =
      Returns-and_then _ _ (send_msg p Message.execve sock w) _
        (Returns-of_Ends _ (send_msg p Message.execve sock w)
          (send_msg-Returns p ok Message.execve sock w) (send_msg-Ends p Message.execve sock w n))
        λ _ v q.
          let copy = copy_of (fd_entry fd) (p.result v.trace (strdup (fd_entry fd))) in
          let (env', made, r) = replace_fd_lem env copy entry h in
          let g' : getenv dr_ss_env_fd v.environ ≡ some fd =
            ap (λ (u : World). getenv dr_ss_env_fd u.environ) q.same ∙ g in
          rw (h, g') (Returns-checked p _ true _ v _ refl (rw made tt))

  pub tell-Returns :
      (entry fd : List ℕ) (e : Event) (w : World)
      → next_of env ≡ some entry
      → getenv dr_ss_env_fd w.environ ≡ some fd
      → IsNoLog w sock
      → Returns (λ _ _. Unit {0}) (tell p env sock e w)
  unfolding tell on_call tell_ret on_signal
  tell-Returns entry fd (Event.call a) w h g n =
      Returns-and_then (λ _ v. Frame w v) _ (verbose_log p _ w) _ (verbose_log-Returns p ok _ w)
        λ _ v q.
          send_msg_with_body-Returns p ok Message.call sock _ v (length-to_memory p.pointer_size a)
  tell-Returns entry fd (Event.ret a) w h g n =
      Returns-and_then (λ _ v. Frame w v) _ (verbose_log p _ w) _ (verbose_log-Returns p ok _ w)
        λ _ v q.
          send_msg_with_body-Returns p ok Message.ret sock _ v (length-to_memory p.pointer_size a)
  tell-Returns entry fd Event.signal w h g n = send_msg-Returns p ok Message.new_signal sock w
  tell-Returns entry fd Event.execve w h g n =
      Returns-and_then _ _ (on_execve p sock env w) _ (on_execve-Returns entry fd w h g n)
        λ _ _ _. tt

  -- The answer that is due has come in.
  pub hear-Returns :
      (e : Event) (k : ℕ) (w : World)
      → w.incoming ≡ replies p (returns_in (e ∷ []) + k)
      → Returns (λ _ _. Unit {0}) (hear p env sock e w)
  unfolding hear recv_msg returns_in
  hear-Returns (Event.call a) k w i = tt
  hear-Returns Event.signal k w i = tt
  hear-Returns Event.execve k w i = tt
  hear-Returns (Event.ret a) k w i =
      subst (Returns (λ _ _. Unit {0})) (sym (receive-and_then p ok sock (message_size p) w _)) (
        rw front (
          Returns-checked p _ _ _ _ _ ((==_iff _ _).1 (length-header_only_message p continue)) (
            assert-Returns p _ _ _ _
              (is_a_valid_self continue _ (take-header_only_message p continue)) tt)))
    where
      front : take (message_size p) w.incoming ≡ header_only_message p continue
      front =
          ap (take (message_size p))
            (i ∙ ap (replies p) (let e : 1 + k ≡ suc k = omega arith in e) ∙ replies_first p k)
          ∙ take-append (header_only_message p continue) (replies p k)
              (length-header_only_message p continue)

-- A handler's message has gone out.
pub record TellStep (p : Platform) (env : List (List ℕ)) (sock : ℕ) (fd : List ℕ) (e : Event)
    (w : World) : Type 0 where
  pub next : World
  pub made : tell p env sock e w ≡ returns tt next
  pub spelled : Stream p [] (e ∷ []) (written sock w next)
  pub quiet : next.incoming ≡ w.incoming
  pub apart : IsNoLog next sock
  pub set : getenv dr_ss_env_fd next.environ ≡ some fd

pub tell-step :
    (p : Platform) (ok : Works p) (env : List (List ℕ)) (sock : ℕ) (entry fd : List ℕ) (e : Event)
    (w : World)
    → next_of env ≡ some entry
    → InRange p (e ∷ [])
    → IsNoLog w sock
    → getenv dr_ss_env_fd w.environ ≡ some fd
    → TellStep p env sock fd e w
tell-step p ok env sock entry fd e w h r n g =
    let (_, v, made, told) = Returns-inv _ (tell p env sock e w) (
      Returns-of_Ends _ (tell p env sock e w) (tell-Returns p ok env sock entry fd e w h g n)
        (tell-Ends p sock env entry e w h r n)) in
    record {
      next = v;
      made = made;
      spelled = told.spelled;
      quiet = ap (λ (u : World). u.incoming) told.same;
      apart = (IsNoLog-same w v sock told.same).0 n;
      set = ap (λ (u : World). getenv dr_ss_env_fd u.environ) told.same ∙ g;
    }
