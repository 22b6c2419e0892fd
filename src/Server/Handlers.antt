-- ===== src/Server/Handlers.antt =====
-- The message handlers of external_stack_server.cpp against the abstract shadow stack: whatever the
-- kernel answers, a handler that returns has made the abstract step.
use dr_shadow_stack.Base.{
  ℕ, ◌≡◌, refl, sym, ap, ◌∙◌, true, none, some, List, [], ◌∷◌, ◌++◌, ◌==◌, replicate, ==_refl,
}
use dr_shadow_stack.Platform.{Platform, World, write, sent, and_then, skip}
use dr_shadow_stack.Platform.Post.{
  Ends, Kills, Frame, Frame-refl, Frame-trans, IsNoLog, Ends-and_then, Ends-if, Ends-mono,
  Ends-of_Kills, Kills-and_then,
}
use dr_shadow_stack.Runtime.{log_error, verbose_log, terminate}
use dr_shadow_stack.Runtime.Termination.{
  terminate-Kills, assert-Ends, log_error-Ends, verbose_log-Ends,
}
use dr_shadow_stack.Message.{continue, header_only_message, wildcard}
use dr_shadow_stack.ShadowStack.Steps.{allows_of_eq, allows_of_wildcard, check-ret}
use dr_shadow_stack.ShadowStack.{Event, allows, check}
use dr_shadow_stack.Server.{
  on_add_wildcard, on_clear_stack, on_call, on_ret, pop_all, check_top, tell_continue, pointer_in,
}

-- Only the trace has changed, and `n` messages Continue have gone out on the socket.
pub record Served (p : Platform) (sock n : ℕ) (w v : World) : Type 0 where
  pub same : v ≡ record w { trace = v.trace }
  pub replies :
      sent sock v.trace ≡ replicate n (header_only_message p continue) ++ sent sock w.trace

pub Served-Frame :
    (p : Platform) (sock : ℕ) (w v : World) → IsNoLog w sock → Frame w v → Served p sock 0 w v
Served-Frame p sock w v n q = record { same = q.same; replies = q.apart sock n }

pub Served-after :
    (p : Platform) (sock n : ℕ) (w v u : World)
    → IsNoLog w sock
    → Frame w v
    → Served p sock n v u
    → Served p sock n w u
Served-after p sock n w v u h q s = record {
  same = s.same ∙ (λ i. record (q.same i) { trace = u.trace });
  replies = s.replies ∙ ap (◌++◌ (replicate n (header_only_message p continue))) (q.apart sock h);
}

pub pop_all-nil : (stk : List ℕ) → pop_all stk ≡ []
unfolding pop_all
pop_all-nil [] = refl
pop_all-nil (a ∷ stk) = pop_all-nil stk

module _ (p : Platform) where
  -- A report and the end of the group.
  reported-Kills :
      (args : _) (w : World)
      → Kills (and_then (log_error p args w) (λ _ v. terminate p none true v))
  reported-Kills args w =
      Ends-and_then (λ _ v. Frame w v) _ (log_error p args w) _ (log_error-Ends p args w)
        λ _ v q. terminate-Kills p none true v

  check_top-Ends :
      (top addr : ℕ) (w : World)
      → Ends (λ _ v. Frame w v × (allows (wildcard p) top addr ≡ true)) (check_top p top addr w)
  unfolding check_top allows
  check_top-Ends top addr w =
      Ends-if _ (top == wildcard p) _ _ w
        (λ e.
          Ends-mono (λ _ v. Frame w v) _ (verbose_log p _ w) (verbose_log-Ends p _ w)
            λ _ v q. (q, allows_of_wildcard (wildcard p) top addr e))
        λ e.
          Ends-if _ (addr == top) skip _ w
            (λ g. (Frame-refl w, allows_of_eq (wildcard p) top addr g))
            λ g. Ends-of_Kills _ (and_then (log_error p _ w) _) (reported-Kills _ w)

  -- The reply goes out whole, or the group is killed.
  tell_continue-Ends :
      (sock : ℕ) (w v : World)
      → IsNoLog w sock
      → Frame w v
      → Ends (λ _ u. Served p sock 1 w u) (tell_continue p sock v)
  unfolding tell_continue sent
  tell_continue-Ends sock w v n q =
      assert-Ends p (λ _ u. Served p sock 1 w u) _ _
        (record v { trace = write sock (header_only_message p continue) ∷ v.trace })
        λ _. record {
          same = λ i. record (q.same i) {
            trace = write sock (header_only_message p continue) ∷ v.trace;
          };
          replies = rw (==_refl sock) (ap (◌∷◌ (header_only_message p continue)) (q.apart sock n));
        }

  pub on_ret-Ends :
      (stk buffer : List ℕ) (sock : ℕ) (w : World)
      → IsNoLog w sock
      → Ends
          (λ stk' v.
            (check (wildcard p) stk (Event.ret (pointer_in p buffer)) ≡ some stk')
            × Served p sock 1 w v)
          (on_ret p stk buffer sock w)
  unfolding on_ret
  on_ret-Ends [] buffer sock w n =
      Ends-and_then (λ _ v. Frame w v) _ (verbose_log p _ w) _ (verbose_log-Ends p _ w)
        λ _ v q. Kills-and_then _ (and_then (log_error p _ v) _) _ (reported-Kills _ v)
  on_ret-Ends (top ∷ stk) buffer sock w n =
      Ends-and_then (λ _ v. Frame w v) _ (verbose_log p _ w) _ (verbose_log-Ends p _ w)
        λ _ v q.
          Ends-and_then _ _ (check_top p top (pointer_in p buffer) v) _
            (check_top-Ends top (pointer_in p buffer) v)
            λ _ u r.
              Ends-and_then (λ _ x. Served p sock 1 w x) _ (tell_continue p sock u) _
                (tell_continue-Ends sock w u n (Frame-trans q r.0))
                λ _ x t. (check-ret _ top _ stk r.1, t)

  pub on_call-Ends :
      (stk buffer : List ℕ) (sock : ℕ) (w : World)
      → IsNoLog w sock
      → Ends
          (λ stk' v.
            (check (wildcard p) stk (Event.call (pointer_in p buffer)) ≡ some stk')
            × Served p sock 0 w v)
          (on_call p stk buffer w)
  unfolding on_call check
  on_call-Ends stk buffer sock w n =
      Ends-and_then (λ _ v. Frame w v) _ (verbose_log p _ w) _ (verbose_log-Ends p _ w)
        λ _ v q. (refl, Served-Frame p sock w v n q)

  pub on_add_wildcard-Ends :
      (stk : List ℕ) (sock : ℕ) (w : World)
      → IsNoLog w sock
      → Ends
          (λ stk' v. (check (wildcard p) stk Event.signal ≡ some stk') × Served p sock 0 w v)
          (on_add_wildcard p stk w)
  unfolding on_add_wildcard check
  on_add_wildcard-Ends stk sock w n =
      Ends-and_then (λ _ v. Frame w v) _ (verbose_log p _ w) _ (verbose_log-Ends p _ w)
        λ _ v q. (refl, Served-Frame p sock w v n q)

  pub on_clear_stack-Ends :
      (stk : List ℕ) (sock : ℕ) (w : World)
      → IsNoLog w sock
      → Ends
          (λ stk' v. (check (wildcard p) stk Event.execve ≡ some stk') × Served p sock 0 w v)
          (on_clear_stack p stk w)
  unfolding on_clear_stack check
  on_clear_stack-Ends stk sock w n =
      Ends-and_then (λ _ v. Frame w v) _ (verbose_log p _ w) _ (verbose_log-Ends p _ w)
        λ _ v q. (ap some (sym (pop_all-nil stk)), Served-Frame p sock w v n q)
