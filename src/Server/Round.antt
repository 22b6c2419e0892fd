-- ===== src/Server/Round.antt =====
-- A round of the server's loop (external_stack_server.cpp) on a whole message: the handler that its header
-- names makes the abstract step of the event that the message stands for.
use dr_shadow_stack.Base.{
  ℕ, ◌≡◌, refl, sym, false, Option, none, some, List, [], ◌∷◌, inl, inr, Bool-cases, take, drop,
  bytes_eq, eq_of_bytes_eq, length,
}
use dr_shadow_stack.Platform.{Platform, World}
use dr_shadow_stack.Platform.Post.{
  Ends, Frame, IsNoLog, IsNoLog-Frame, Ends-and_then, Kills-and_then,
}
use dr_shadow_stack.Runtime.{assert, log_error, verbose_log}
use dr_shadow_stack.Runtime.Termination.{
  assert-false, assert-true, log_error-Ends, verbose_log-Ends,
}
use dr_shadow_stack.Message.{new_signal, execve, call, ret, header, message_size, wildcard}
use dr_shadow_stack.Message.Events.{Encodes}
use dr_shadow_stack.ShadowStack.{Event, check, returns_in}
use dr_shadow_stack.Server.{
  MessageHandler, HandlerMap, at, call_correct_function, add_wildcard, clear_stack, call_handler,
  ret_handler, dispatch, handle,
}
use dr_shadow_stack.Server.Handlers.{
  Served, Served-after, on_add_wildcard-Ends, on_clear_stack-Ends, on_call-Ends, on_ret-Ends,
}

-- What the map answers to a header; a known one leaves the map as it was.
data Lookup (key : List ℕ) (r : Option MessageHandler × HandlerMap) : Type 0 where
  signals : key ≡ header new_signal → r ≡ (some add_wildcard, call_correct_function) → Lookup key r
  execs : key ≡ header execve → r ≡ (some clear_stack, call_correct_function) → Lookup key r
  calls : key ≡ header call → r ≡ (some call_handler, call_correct_function) → Lookup key r
  rets : key ≡ header ret → r ≡ (some ret_handler, call_correct_function) → Lookup key r
  missing : r.0 ≡ none → Lookup key r

at-Lookup : (key : List ℕ) → Lookup key (at call_correct_function key)
unfolding at call_correct_function
at-Lookup key = elim (Bool-cases (bytes_eq (header new_signal) key)) [
  | inl a ↦ signals (sym (eq_of_bytes_eq _ _ a)) (rw a)
  | inr a ↦ elim (Bool-cases (bytes_eq (header execve) key)) [
    | inl b ↦ execs (sym (eq_of_bytes_eq _ _ b)) (rw (a, b))
    | inr b ↦ elim (Bool-cases (bytes_eq (header call) key)) [
      | inl c ↦ calls (sym (eq_of_bytes_eq _ _ c)) (rw (a, b, c))
      | inr c ↦ elim (Bool-cases (bytes_eq (header ret) key)) [
        | inl d ↦ rets (sym (eq_of_bytes_eq _ _ d)) (rw (a, b, c, d))
        | inr d ↦ missing (rw (a, b, c, d))
      ]
    ]
  ]
]

module _ (p : Platform) where
  -- What a round has done: the abstract step of the event that its message stands for.
  abbrev Round : List ℕ → List ℕ → ℕ → World → List ℕ × HandlerMap → World → Type 0
  Round stk chunk sock w r v =
      (e : Event) × Encodes p e chunk
      × (check (wildcard p) stk e ≡ some r.0)
      × (r.1 ≡ call_correct_function)
      × Served p sock (returns_in (e ∷ [])) w v

  known-Ends :
      (stk chunk : List ℕ) (sock : ℕ) (w : World) (h : MessageHandler) (ev : Event)
      → IsNoLog w sock
      → at call_correct_function (take 4 chunk) ≡ (some h, call_correct_function)
      → Encodes p ev chunk
      → ((v : World)
          → IsNoLog v sock
          → Ends
              (λ stk' u.
                (check (wildcard p) stk ev ≡ some stk') × Served p sock (returns_in (ev ∷ [])) v u)
              (handle p (some h) stk (drop 4 chunk) sock v))
      → Ends (Round stk chunk sock w) (dispatch p call_correct_function stk chunk sock w)
  unfolding dispatch
  known-Ends stk chunk sock w h ev n e c handled = rw e (
      Ends-and_then (λ _ v. Frame w v) _ (verbose_log p _ w) _ (verbose_log-Ends p _ w)
        λ _ v q. rw (assert-true p _ v) (
          Ends-and_then _ _ (handle p (some h) stk (drop 4 chunk) sock v) _
            (handled v ((IsNoLog-Frame w v sock q).0 n))
            λ stk' u s. (ev, c, s.0, refl, Served-after p sock _ w v u n q s.1)))

  pub dispatch-Ends :
      (stk chunk : List ℕ) (sock : ℕ) (w : World)
      → length chunk ≡ message_size p
      → IsNoLog w sock
      → Ends (Round stk chunk sock w) (dispatch p call_correct_function stk chunk sock w)
  unfolding dispatch handle returns_in
  dispatch-Ends stk chunk sock w full n = go (at-Lookup (take 4 chunk))
    where
      go :
          Lookup (take 4 chunk) (at call_correct_function (take 4 chunk))
          → Ends (Round stk chunk sock w) (dispatch p call_correct_function stk chunk sock w)
      go (missing e) =
          Ends-and_then (λ _ v. Frame w v) _ (verbose_log p _ w) _ (verbose_log-Ends p _ w)
            λ _ v q. rw e (
              Ends-and_then (λ _ u. Frame v u) _ (log_error p _ v) _ (log_error-Ends p _ v)
                λ _ u r. Kills-and_then _ (assert p false _ u) _ (assert-false p _ u))
      go (signals k e) =
          known-Ends stk chunk sock w add_wildcard Event.signal n e
            (record { full = full; head = k; body = tt }) λ v m. on_add_wildcard-Ends p stk sock v m
      go (execs k e) =
          known-Ends stk chunk sock w clear_stack Event.execve n e
            (record { full = full; head = k; body = tt }) λ v m. on_clear_stack-Ends p stk sock v m
      go (calls k e) =
          known-Ends stk chunk sock w call_handler (Event.call _) n e
            (record { full = full; head = k; body = refl })
            λ v m. on_call-Ends p stk (drop 4 chunk) sock v m
      go (rets k e) =
          known-Ends stk chunk sock w ret_handler (Event.ret _) n e
            (record { full = full; head = k; body = refl })
            λ v m. on_ret-Ends p stk (drop 4 chunk) sock v m
