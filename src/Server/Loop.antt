-- ===== src/Server/Loop.antt =====
-- The loop of start_external_shadow_stack (external_stack_server.cpp): what it has read when it ends
-- is a history that the abstract shadow stack lets pass, and it always ends.
use dr_shadow_stack.Base.{
  length-append, ℕ, zero, suc, ◌<◌, ◌≡◌, refl, sym, ap, ◌∙◌, true, false, none, some, List, [], ◌∷◌,
  ◌++◌, arith, ◌==◌, replicate, take, drop, subst, length, min, take-append-drop,
  replicate-append_cons, eq-nil, ==_iff,
}
use dr_shadow_stack.Platform.{Platform, World, Outcome, recv, sent}
use dr_shadow_stack.Platform.Post.{
  Ends, Frame, IsNoLog, IsNoLog-same, Ends-and_then, Ends-if, Ends-mono, Kills-and_then,
}
use dr_shadow_stack.Runtime.{disable, destroy, assert, log}
use dr_shadow_stack.Runtime.Termination.{assert-false, Ends-checked, Ends-receive, log-Ends}
use dr_shadow_stack.Message.{continue, header_only_message, message_size, wildcard}
use dr_shadow_stack.Message.Events.{Encodes, Stream, end, more}
use dr_shadow_stack.ShadowStack.{Event, check, run, returns_in}
use dr_shadow_stack.ShadowStack.Nesting.{run-step, run-nil}
use dr_shadow_stack.Server.{
  HandlerMap, call_correct_function, dispatch, round, serve, start_external_shadow_stack,
}
use dr_shadow_stack.Server.Round.{dispatch-Ends}

module _ (p : Platform) where
  abbrev pub reply : List ℕ
  reply = header_only_message p continue

  -- What the server has accepted: a history spelled by the bytes that it has read, which the abstract
  -- shadow stack lets pass, with one reply for each return.
  abbrev pub Accepted : List ℕ → ℕ → World → World → Type 0
  Accepted stk sock w v =
      (es : List Event) × (stk' : List ℕ) × Stream p v.incoming es w.incoming
      × (run (wildcard p) stk es ≡ some stk')
      × (sent sock v.trace ≡ replicate (returns_in es) reply ++ sent sock w.trace)

  pub replies-cons :
      (e : Event) (es : List Event) (xs : List (List ℕ))
      → replicate (returns_in es) reply ++ (replicate (returns_in (e ∷ [])) reply ++ xs)
        ≡ replicate (returns_in (e ∷ es)) reply ++ xs
  unfolding returns_in
  replies-cons (Event.ret a) es xs = replicate-append_cons (returns_in es) reply xs
  replies-cons (Event.call a) es xs = refl
  replies-cons Event.signal es xs = refl
  replies-cons Event.execve es xs = refl

  Accepted-cons :
      (stk stk' chunk : List ℕ) (sock : ℕ) (w v u : World) (e : Event)
      → Encodes p e chunk
      → check (wildcard p) stk e ≡ some stk'
      → w.incoming ≡ chunk ++ v.incoming
      → sent sock v.trace ≡ replicate (returns_in (e ∷ [])) reply ++ sent sock w.trace
      → Accepted stk' sock v u
      → Accepted stk sock w u
  Accepted-cons stk stk' chunk sock w v u e c k i s (es, last, stream, r, t) = (
    e ∷ es,
    last,
    more e chunk v.incoming c i stream,
    run-step (wildcard p) stk stk' e es k ∙ r,
    t ∙ ap (◌++◌ (replicate (returns_in es) reply)) s ∙ replies-cons e es _,
  )

  -- A round on bytes that recv has handed over, with what the rest of the loop accepts.
  round-Ends :
      (stk : List ℕ) (sock : ℕ) (w : World) (bs left : List ℕ)
      (next : HandlerMap → List ℕ → World → Outcome (Unit {0}))
      → w.incoming ≡ left
      → IsNoLog w sock
      → ((stk' : List ℕ) (v : World)
          → length bs ≡ message_size p
          → v.incoming ≡ left
          → IsNoLog v sock
          → Ends (λ _ u. Accepted stk' sock v u) (next call_correct_function stk' v))
      → Ends
          (λ _ u. Accepted stk sock (record w { incoming = bs ++ left }) u)
          (round p call_correct_function stk sock (some bs) next w)
  unfolding round returns_in
  round-Ends stk sock w bs left next i n rest = Ends-checked p _ _ _ w _ λ c.
      Ends-if _ (length bs == 0) _ _ w
        (λ z.
          Ends-mono (λ _ v. Frame w v) _ (log p _ w) (log-Ends p _ w)
            λ _ v q. ([], stk, end (no_bytes z v q.same), run-nil (wildcard p) stk, q.apart sock n))
        λ z.
          let full : length bs ≡ message_size p = ground arith in
          Ends-and_then _ _ (dispatch p call_correct_function stk bs sock w) _
            (dispatch-Ends p stk bs sock w full n)
            λ r v (e, code, step, table, s).
              subst
                (λ m.
                  Ends (λ _ u. Accepted stk sock (record w { incoming = bs ++ left }) u)
                    (next m r.0 v))
                (sym table)
                (Ends-mono _ _ (next call_correct_function r.0 v)
                  (rest r.0 v full (same_bytes v s.same) ((IsNoLog-same w v sock s.same).0 n))
                  λ _ u a.
                    Accepted-cons stk r.0 bs sock (record w { incoming = bs ++ left }) v u e code
                      step (ap (◌++◌ bs) (sym (same_bytes v s.same))) s.replies a)
    where
      same_bytes : (v : World) → v ≡ record w { trace = v.trace } → v.incoming ≡ left
      same_bytes v e = ap (λ (u : World). u.incoming) e ∙ i

      no_bytes :
          (length bs == 0) ≡ true
          → (v : World) → v ≡ record w { trace = v.trace }
          → bs ++ left ≡ v.incoming
      no_bytes z v e =
          ap (λ xs. xs ++ left) (eq-nil bs ((==_iff (length bs) 0).0 z)) ∙ sym (same_bytes v e)

  -- The world after a recv that has handed over `k` bytes at most.
  abbrev received : ℕ → ℕ → World → World
  received sock k w = record w {
    trace = recv sock (message_size p) ∷ w.trace;
    incoming = drop k w.incoming;
  }

  received-Ends :
      (stk : List ℕ) (sock k : ℕ) (w : World)
      (next : HandlerMap → List ℕ → World → Outcome (Unit {0}))
      → IsNoLog w sock
      → ((stk' : List ℕ) (v : World)
          → length (take k w.incoming) ≡ message_size p
          → v.incoming ≡ drop k w.incoming
          → IsNoLog v sock
          → Ends (λ _ u. Accepted stk' sock v u) (next call_correct_function stk' v))
      → Ends
          (λ _ v. Accepted stk sock w v)
          (round p call_correct_function stk sock
            (some (take k w.incoming))
            next
            (received sock k w))
  unfolding sent
  received-Ends stk sock k w next n rest =
      subst
        (λ bs.
          Ends (λ _ v. Accepted stk sock (record w { incoming = bs }) v)
            (round p call_correct_function stk sock (some (take k w.incoming)) next
              (received sock k w)))
        (take-append-drop k w.incoming)
        (round-Ends stk sock (received sock k w) (take k w.incoming) (drop k w.incoming) next refl
          (record { not_log = n.not_log; not_stdout = n.not_stdout; not_error = n.not_error }) rest)

  failed-Ends :
      (stk : List ℕ) (sock : ℕ) (w v : World)
      (next : HandlerMap → List ℕ → World → Outcome (Unit {0}))
      → Ends (λ _ v. Accepted stk sock w v) (round p call_correct_function stk sock none next v)
  unfolding round
  failed-Ends stk sock w v next = Kills-and_then _ (assert p false _ v) _ (assert-false p _ v)

  serve-Ends :
      (f : ℕ) (stk : List ℕ) (sock : ℕ) (w : World)
      → length w.incoming < f
      → IsNoLog w sock
      → Ends (λ _ v. Accepted stk sock w v) (serve p f call_correct_function stk sock w)
  unfolding serve
  serve-Ends zero stk sock w h n = absurd (omega arith)
  serve-Ends (suc f) stk sock w h n =
      Ends-receive p (λ _ v. Accepted stk sock w v) sock (message_size p) w _
        (failed-Ends stk sock w _ _)
        λ k e.
          received-Ends stk sock (min (message_size p) k) w _ n
            λ stk' v full i m. serve-Ends f stk' sock v (shorter k v full i) m
    where
      shorter :
          (k : ℕ) (v : World)
          → length (take (min (message_size p) k) w.incoming) ≡ message_size p
          → v.incoming ≡ drop (min (message_size p) k) w.incoming
          → length v.incoming < f
      shorter k v full i = omega (
        arith,
        ap length i,
        ap length (take-append-drop (min (message_size p) k) w.incoming),
        length-append (take (min (message_size p) k) w.incoming)
            (drop (min (message_size p) k) w.incoming),
      )

  -- On any kernel, for a socket that is no log descriptor: the server ends, by a return or with the
  -- group killed, and never runs into undefined behaviour or out of fuel. If it returns, what it has
  -- read spells a history that the abstract shadow stack accepts from the empty stack, and it has
  -- sent one Continue message for each return of that history and nothing else.
  pub start_external_shadow_stack-Ends :
      (sock : ℕ) (w : World)
      → IsNoLog w sock
      → Ends (λ _ v. Accepted [] sock w v) (start_external_shadow_stack p sock w)
  unfolding start_external_shadow_stack destroy disable
  start_external_shadow_stack-Ends sock w n =
      Ends-and_then (λ _ v. Accepted [] sock w v) _
        (serve p (suc (length w.incoming)) call_correct_function [] sock w) _
        (serve-Ends (suc (length w.incoming)) [] sock w (omega arith) n) λ _ v a. a
