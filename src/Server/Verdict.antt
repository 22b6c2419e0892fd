-- ===== src/Server/Verdict.antt =====
-- The loop of external_stack_server.cpp on a kernel whose calls succeed: its verdict on a client's
-- whole stream is that of the abstract shadow stack, in both directions.
use dr_shadow_stack.Server.Loop.{replies-cons}
use dr_shadow_stack.Server.Answer.{dispatch-Returns, dispatch-Kills}
use dr_shadow_stack.Base.{
  inr, inl, Option-cases, length-append, take-nil, drop-append, take-append, ◌+◌, ◌<◌, ==_iff,
  subst, ℕ, zero, suc, ◌≡◌, sym, ap, ◌∙◌, false, none, some, List, [], ◌∷◌, ◌++◌, arith, ◌==◌,
  replicate, take, drop, length,
}
use dr_shadow_stack.Platform.{recv, Platform, World, Outcome, sent}
use dr_shadow_stack.Platform.Post.{
  Returns-inv, Returns-mono, Kills, Returns, Frame, IsNoLog, IsNoLog-same, Returns-and_then,
  Kills-and_then,
}
use dr_shadow_stack.ShadowStack.Nesting.{run-step, run-nil, run-some}
use dr_shadow_stack.Runtime.{disable, destroy, log}
use dr_shadow_stack.Runtime.Termination.{assert-true, Ends-checked, assert-true}
use dr_shadow_stack.Runtime.Logging.{receive-and_then, Returns-checked, Works, log-Returns}
use dr_shadow_stack.Message.{continue, header_only_message, message_size, wildcard}
use dr_shadow_stack.Message.Events.{Encodes, Stream, end, more}
use dr_shadow_stack.ShadowStack.{Event, check, run, returns_in}
use dr_shadow_stack.Server.{
  HandlerMap, call_correct_function, dispatch, round, serve, start_external_shadow_stack,
}
use dr_shadow_stack.Server.Handlers.{Served}

-- The replies of a history have gone out, one for each return.
abbrev pub Replied : Platform → ℕ → List Event → World → World → Type 0
Replied p sock es w v =
    sent sock v.trace
    ≡ replicate (returns_in es) (header_only_message p continue) ++ sent sock w.trace

-- A message is neither empty nor short, so the checks of a round pass.
pub not_empty : (n k : ℕ) → n ≡ k + 4 → (n == 0) ≡ false
not_empty n k e = ground arith

module _ (p : Platform) (ok : Works p) where
  -- A round on a whole message goes on from the abstract step.
  round-step :
      (P : Outcome (Unit {0}) → Type 0) (e : Event) (chunk stk s : List ℕ) (sock : ℕ) (w : World)
      (next : HandlerMap → List ℕ → World → Outcome (Unit {0}))
      → Encodes p e chunk
      → check (wildcard p) stk e ≡ some s
      → IsNoLog w sock
      → ((v : World) → Served p sock (returns_in (e ∷ [])) w v → P (next call_correct_function s v))
      → P (round p call_correct_function stk sock (some chunk) next w)
  unfolding round
  round-step P e chunk stk s sock w next c k n rest =
      let (r, v, made, h) =
        Returns-inv _ (dispatch p call_correct_function stk chunk sock w)
          (dispatch-Returns p ok e chunk stk s sock w c k n) in
      rw ((==_iff (length chunk) (message_size p)).1 c.full, assert-true p _ w)
        (rw (not_empty (length chunk) p.pointer_size c.full, made, h.0, h.1) (rest v h.2))

  round-Kills :
      (e : Event) (chunk stk : List ℕ) (sock : ℕ) (w : World)
      (next : HandlerMap → List ℕ → World → Outcome (Unit {0}))
      → Encodes p e chunk
      → check (wildcard p) stk e ≡ none
      → IsNoLog w sock
      → Kills (round p call_correct_function stk sock (some chunk) next w)
  unfolding round
  round-Kills e chunk stk sock w next c k n = Ends-checked p _ _ _ w _ λ _.
      rw (not_empty (length chunk) p.pointer_size c.full) (
        Kills-and_then _ (dispatch p call_correct_function stk chunk sock w) _
          (dispatch-Kills p ok e chunk stk sock w c k n))

  -- A recv of a message's size takes the first message off the stream.
  first_message :
      (chunk mid : List ℕ) (w : World)
      → w.incoming ≡ chunk ++ mid
      → length chunk ≡ message_size p
      → (take (message_size p) w.incoming ≡ chunk) × (drop (message_size p) w.incoming ≡ mid)
  first_message chunk mid w i full = (
    ap (take (message_size p)) i ∙ take-append chunk mid full,
    ap (drop (message_size p)) i ∙ drop-append chunk mid full,
  )

  after_recv : ℕ → World → World
  after_recv sock w = record w {
    trace = recv sock (message_size p) ∷ w.trace;
    incoming = drop (message_size p) w.incoming;
  }

  -- The facts about the world behind a whole message, for the rest of the loop.
  module _ (sock f : ℕ) (w v : World) (chunk mid : List ℕ) (i : w.incoming ≡ chunk ++ mid)
      (full : length chunk ≡ message_size p)
      (same : v ≡ record (after_recv sock w) { trace = v.trace }) where
    rest-incoming : mid ≡ v.incoming
    unfolding after_recv
    rest-incoming = sym (ap (λ (u : World). u.incoming) same ∙ (first_message chunk mid w i full).1)

    rest-length : length w.incoming < suc f → length v.incoming < f
    rest-length h = omega (arith, ap length rest-incoming, ap length i, length-append chunk mid)

    rest-IsNoLog : IsNoLog w sock → IsNoLog v sock
    unfolding after_recv
    rest-IsNoLog n =
        (IsNoLog-same (after_recv sock w) v sock same).0
          (record { not_log = n.not_log; not_stdout = n.not_stdout; not_error = n.not_error })

  -- The stream's end.
  closed-Returns :
      (stk bs : List ℕ) (sock : ℕ) (w : World)
      (next : HandlerMap → List ℕ → World → Outcome (Unit {0}))
      → [] ≡ bs
      → IsNoLog w sock
      → Returns
          (λ _ u. Replied p sock [] w u)
          (round p call_correct_function stk sock (some bs) next w)
  unfolding round returns_in
  closed-Returns stk bs sock w next e n =
      subst
        (λ bs.
          Returns (λ _ u. Replied p sock [] w u)
            (round p call_correct_function stk sock (some bs) next w))
        e
        (Returns-checked p _ _ _ w _ (ground arith) (
          Returns-mono (λ _ v. Frame w v) _ (log p _ w) (log-Returns p ok _ w)
            λ _ v q. q.apart sock n))

  serve-Returns :
      (f : ℕ) (es : List Event) (stk t : List ℕ) (sock : ℕ) (w : World)
      → length w.incoming < f
      → IsNoLog w sock
      → Stream p [] es w.incoming
      → run (wildcard p) stk es ≡ some t
      → Returns (λ _ v. Replied p sock es w v) (serve p f call_correct_function stk sock w)
  unfolding serve sent after_recv
  serve-Returns zero es stk t sock w h n st r = absurd (omega arith)
  serve-Returns (suc f) [] stk t sock w h n (end i) r =
      subst (Returns (λ _ v. Replied p sock [] w v))
        (sym (receive-and_then p ok sock (message_size p) w _))
        (closed-Returns stk (take (message_size p) w.incoming) sock (after_recv sock w) _
          (sym (ap (take (message_size p)) i ∙ take-nil (message_size p)))
          (record { not_log = n.not_log; not_stdout = n.not_stdout; not_error = n.not_error }))
  serve-Returns (suc f) (e ∷ es) stk t sock w h n (more _ chunk mid c i st) r =
      let (s, k, r') = run-some (wildcard p) stk t e es r in
      subst (Returns (λ _ v. Replied p sock (e ∷ es) w v))
        (sym (receive-and_then p ok sock (message_size p) w _))
        (round-step (Returns (λ _ v. Replied p sock (e ∷ es) w v)) e
          (take (message_size p) w.incoming) stk s sock (after_recv sock w) _
          (subst (Encodes p e) (sym (first_message chunk mid w i c.full).0) c) k
          (record { not_log = n.not_log; not_stdout = n.not_stdout; not_error = n.not_error })
          λ v sv.
            Returns-mono _ _ (serve p f call_correct_function s sock v)
              (serve-Returns f es s t sock v (rest-length sock f w v chunk mid i c.full sv.same h)
                (rest-IsNoLog sock f w v chunk mid i c.full sv.same n)
                (subst (Stream p [] es) (rest-incoming sock f w v chunk mid i c.full sv.same) st)
                r')
              λ _ u q.
                q
                ∙ ap (◌++◌ (replicate (returns_in es) (header_only_message p continue))) sv.replies
                ∙ replies-cons p e es _)

  serve-Kills :
      (f : ℕ) (es : List Event) (stk : List ℕ) (sock : ℕ) (w : World)
      → length w.incoming < f
      → IsNoLog w sock
      → Stream p [] es w.incoming
      → run (wildcard p) stk es ≡ none
      → Kills (serve p f call_correct_function stk sock w)
  unfolding serve sent after_recv
  serve-Kills zero es stk sock w h n st r = absurd (omega arith)
  serve-Kills (suc f) [] stk sock w h n st r =
      let s : run (wildcard p) stk [] ≡ some stk = run-nil (wildcard p) stk in absurd (cc)
  serve-Kills (suc f) (e ∷ es) stk sock w h n (more _ chunk mid c i st) r =
      subst Kills (sym (receive-and_then p ok sock (message_size p) w _))
        (elim (Option-cases (check (wildcard p) stk e)) [
          | inl k ↦
              round-Kills e (take (message_size p) w.incoming) stk sock (after_recv sock w) _
                (subst (Encodes p e) (sym (first_message chunk mid w i c.full).0) c) k
                (record { not_log = n.not_log; not_stdout = n.not_stdout; not_error = n.not_error })
          | inr (s, k) ↦
              round-step Kills e (take (message_size p) w.incoming) stk s sock (after_recv sock w) _
                (subst (Encodes p e) (sym (first_message chunk mid w i c.full).0) c) k
                (record { not_log = n.not_log; not_stdout = n.not_stdout; not_error = n.not_error })
                λ v sv.
                  serve-Kills f es s sock v (rest-length sock f w v chunk mid i c.full sv.same h)
                    (rest-IsNoLog sock f w v chunk mid i c.full sv.same n)
                    (subst (Stream p [] es) (rest-incoming sock f w v chunk mid i c.full sv.same)
                      st)
                    (sym (run-step (wildcard p) stk s e es k) ∙ r)
        ])

  -- On a kernel whose calls succeed, for a socket that is no log descriptor: if the bytes that wait
  -- spell a history that the abstract shadow stack accepts, the server returns when the client has
  -- disconnected, and has sent one Continue message for each return.
  pub start_external_shadow_stack-Returns :
      (es : List Event) (stk : List ℕ) (sock : ℕ) (w : World)
      → IsNoLog w sock
      → Stream p [] es w.incoming
      → run (wildcard p) [] es ≡ some stk
      → Returns (λ _ v. Replied p sock es w v) (start_external_shadow_stack p sock w)
  unfolding start_external_shadow_stack destroy disable
  start_external_shadow_stack-Returns es stk sock w n st r =
      Returns-and_then (λ _ v. Replied p sock es w v) _
        (serve p (suc (length w.incoming)) call_correct_function [] sock w) _
        (serve-Returns (suc (length w.incoming)) es [] stk sock w (omega arith) n st r) λ _ v q. q

  -- On a kernel whose calls succeed, for a socket that is no log descriptor: if the bytes that wait
  -- spell a history that the abstract shadow stack does not accept, the server kills the process
  -- group.
  pub start_external_shadow_stack-Kills :
      (es : List Event) (sock : ℕ) (w : World)
      → IsNoLog w sock
      → Stream p [] es w.incoming
      → run (wildcard p) [] es ≡ none
      → Kills (start_external_shadow_stack p sock w)
  unfolding start_external_shadow_stack destroy disable
  start_external_shadow_stack-Kills es sock w n st r =
      Kills-and_then _ (serve p (suc (length w.incoming)) call_correct_function [] sock w) _
        (serve-Kills (suc (length w.incoming)) es [] sock w (omega arith) n st r)
