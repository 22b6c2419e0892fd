-- ===== src/Server/Answer.antt =====
-- One message at the server of external_stack_server.cpp on a kernel whose calls succeed: it is
-- answered if the abstract shadow stack makes the step, and the group is killed if not.
use mathlib.Core.Bool.{false≢true}
use dr_shadow_stack.Message.Codec.{length-header_only_message}
use dr_shadow_stack.Base.{
  subst, ℕ, ◌≡◌, refl, sym, ◌∙◌, true, none, some, List, [], ◌∷◌, ◌==◌, drop,
}
use dr_shadow_stack.Platform.{Platform, World, write, skip}
use dr_shadow_stack.Platform.Post.{
  Ends-and_then, Ends-mono, Ends, Kills, Returns, Frame, Frame-refl, IsNoLog, IsNoLog-Frame,
  Returns-and_then, Returns-if, Returns-of_Ends,
}
use dr_shadow_stack.Runtime.{wrote_all, verbose_log}
use dr_shadow_stack.Runtime.Termination.{verbose_log-Ends, assert-true}
use dr_shadow_stack.Runtime.Logging.{
  assert-Returns, Returns-checked, Works, verbose_log-Returns, wrote_all-Works,
}
use dr_shadow_stack.Message.{header, continue, header_only_message, wildcard}
use dr_shadow_stack.Message.Events.{Encodes, message_of}
use dr_shadow_stack.ShadowStack.Steps.{allows_of_check, not_allows, no_ret}
use dr_shadow_stack.ShadowStack.{Event, allows, check, returns_in}
use dr_shadow_stack.Server.{
  MessageHandler, at, call_correct_function, add_wildcard, clear_stack, call_handler, ret_handler,
  dispatch, handle, on_add_wildcard, on_clear_stack, on_call, on_ret, check_top, tell_continue,
}
use dr_shadow_stack.Server.Handlers.{
  Served, Served-after, on_add_wildcard-Ends, on_clear_stack-Ends, on_call-Ends, on_ret-Ends,
}

abbrev handler_of : Event → MessageHandler
handler_of Event.signal = add_wildcard
handler_of Event.execve = clear_stack
handler_of (Event.call a) = call_handler
handler_of (Event.ret a) = ret_handler

-- The map has each header of the client, and a look at it adds nothing.
at-handler_of :
    (e : Event)
    → at call_correct_function (header (message_of e))
      ≡ (some (handler_of e), call_correct_function)
unfolding at call_correct_function header
at-handler_of (Event.call a) = refl
at-handler_of (Event.ret a) = refl
at-handler_of Event.signal = refl
at-handler_of Event.execve = refl

module _ (p : Platform) where
  -- The abstract step that a handler makes, whatever the kernel answers.
  handle-Ends :
      (e : Event) (chunk stk : List ℕ) (sock : ℕ) (w : World)
      → Encodes p e chunk
      → IsNoLog w sock
      → Ends
          (λ stk' v.
            (check (wildcard p) stk e ≡ some stk') × Served p sock (returns_in (e ∷ [])) w v)
          (handle p (some (handler_of e)) stk (drop 4 chunk) sock w)
  unfolding handle returns_in
  handle-Ends (Event.call a) chunk stk sock w c n =
      rw (← c.body) (on_call-Ends p stk (drop 4 chunk) sock w n)
  handle-Ends (Event.ret a) chunk stk sock w c n =
      rw (← c.body) (on_ret-Ends p stk (drop 4 chunk) sock w n)
  handle-Ends Event.signal chunk stk sock w c n = on_add_wildcard-Ends p stk sock w n
  handle-Ends Event.execve chunk stk sock w c n = on_clear_stack-Ends p stk sock w n

  -- A message, whatever the kernel answers: the abstract step of its event, or the group is killed.
  pub dispatch-Answered :
      (e : Event) (chunk stk : List ℕ) (sock : ℕ) (w : World)
      → Encodes p e chunk
      → IsNoLog w sock
      → Ends
          (λ r v.
            (check (wildcard p) stk e ≡ some r.0)
            × (r.1 ≡ call_correct_function)
            × Served p sock (returns_in (e ∷ [])) w v)
          (dispatch p call_correct_function stk chunk sock w)
  unfolding dispatch
  dispatch-Answered e chunk stk sock w c n =
      rw (c.head, at-handler_of e)
        (Ends-and_then (λ _ v. Frame w v) _ (verbose_log p _ w) _ (verbose_log-Ends p _ w)
          λ _ v q. rw (assert-true p _ v) (
            Ends-and_then _ _ (handle p (some (handler_of e)) stk (drop 4 chunk) sock v) _
              (handle-Ends e chunk stk sock v c ((IsNoLog-Frame w v sock q).0 n))
              λ stk' u h. (h.0, refl, Served-after p sock _ w v u n q h.1)))

  module _ (ok : Works p) where
    check_top-Returns :
        (top addr : ℕ) (w : World)
        → allows (wildcard p) top addr ≡ true
        → Returns (λ _ v. Frame w v) (check_top p top addr w)
    unfolding check_top allows
    check_top-Returns top addr w h =
        Returns-if _ (top == wildcard p) _ _ w (λ e. verbose_log-Returns p ok _ w)
          λ e.
            Returns-if _ (addr == top) skip _ w (λ g. Frame-refl w)
              λ g. absurd (false≢true (sym (not_allows _ top addr e g) ∙ h))

    tell_continue-Returns :
        (sock : ℕ) (w : World) → Returns (λ _ _. Unit {0}) (tell_continue p sock w)
    unfolding tell_continue
    tell_continue-Returns sock w =
        assert-Returns p (λ _ _. Unit {0}) _ _
          (record w { trace = write sock (header_only_message p continue) ∷ w.trace })
          (subst
            (λ n.
              wrote_all (p.result w.trace (write sock (header_only_message p continue))) n ≡ true)
            (length-header_only_message p continue)
            (wrote_all-Works p ok w.trace sock (header_only_message p continue)))
          tt

    handle-Returns :
        (e : Event) (chunk stk s : List ℕ) (sock : ℕ) (w : World)
        → Encodes p e chunk
        → check (wildcard p) stk e ≡ some s
        → Returns (λ _ _. Unit {0}) (handle p (some (handler_of e)) stk (drop 4 chunk) sock w)
    unfolding handle on_call on_ret on_add_wildcard on_clear_stack
    handle-Returns (Event.call a) chunk stk s sock w c k =
        Returns-and_then (λ _ v. Frame w v) _ (verbose_log p _ w) _ (verbose_log-Returns p ok _ w)
          λ _ v q. tt
    handle-Returns Event.signal chunk stk s sock w c k =
        Returns-and_then (λ _ v. Frame w v) _ (verbose_log p _ w) _ (verbose_log-Returns p ok _ w)
          λ _ v q. tt
    handle-Returns Event.execve chunk stk s sock w c k =
        Returns-and_then (λ _ v. Frame w v) _ (verbose_log p _ w) _ (verbose_log-Returns p ok _ w)
          λ _ v q. tt
    handle-Returns (Event.ret a) chunk [] s sock w c k = absurd (no_ret _ a s k)
    handle-Returns (Event.ret a) chunk (top ∷ stk) s sock w c k =
        Returns-and_then (λ _ v. Frame w v) _ (verbose_log p _ w) _ (verbose_log-Returns p ok _ w)
          λ _ v q.
            Returns-and_then (λ _ u. Frame v u) _ (check_top p top _ v) _
              (check_top-Returns top _ v (rw c.body (allows_of_check _ top a stk s k)))
              λ _ u r.
                Returns-and_then (λ _ _. Unit {0}) _ (tell_continue p sock u) _
                  (tell_continue-Returns sock u) λ _ x t. tt

    pub dispatch-Returns :
        (e : Event) (chunk stk s : List ℕ) (sock : ℕ) (w : World)
        → Encodes p e chunk
        → check (wildcard p) stk e ≡ some s
        → IsNoLog w sock
        → Returns
            (λ r v.
              (r.0 ≡ s) × (r.1 ≡ call_correct_function) × Served p sock (returns_in (e ∷ [])) w v)
            (dispatch p call_correct_function stk chunk sock w)
    unfolding dispatch
    dispatch-Returns e chunk stk s sock w c k n =
        rw (c.head, at-handler_of e)
          (Returns-and_then (λ _ v. Frame w v) _ (verbose_log p _ w) _
            (verbose_log-Returns p ok _ w)
            λ _ v q. Returns-checked p _ true _ v _ refl (
              Returns-and_then _ _ (handle p (some (handler_of e)) stk (drop 4 chunk) sock v) _
                (Returns-of_Ends _ (handle p (some (handler_of e)) stk (drop 4 chunk) sock v)
                  (handle-Returns e chunk stk s sock v c k)
                  (handle-Ends e chunk stk sock v c ((IsNoLog-Frame w v sock q).0 n)))
                λ stk' u h. (cc (sym h.0 ∙ k), refl, Served-after p sock _ w v u n q h.1)))

    pub dispatch-Kills :
        (e : Event) (chunk stk : List ℕ) (sock : ℕ) (w : World)
        → Encodes p e chunk
        → check (wildcard p) stk e ≡ none
        → IsNoLog w sock
        → Kills (dispatch p call_correct_function stk chunk sock w)
    dispatch-Kills e chunk stk sock w c k n =
        Ends-mono _ (λ _ _. ⊥) (dispatch p call_correct_function stk chunk sock w)
          (dispatch-Answered e chunk stk sock w c n) λ _ v q. let made = q.0 in cc
