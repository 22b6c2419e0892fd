-- ===== src/Lockstep/Messages.antt =====
-- What one step of either process puts on the wire (dr_external_ss_events.cpp,
-- external_stack_server.cpp), and how the steps make up on_event and the server's loop.
use dr_shadow_stack.Base.{
  zero, ==_iff, false, drop-append, length-take, drop, ◌+◌, min, ℕ, suc, ◌-◌, ◌≡◌, refl, sym, ap,
  ◌∙◌, subst, some, List, [], ◌∷◌, ◌++◌, take, length, arith, length-append, take-append,
  append-nil,
}
use dr_shadow_stack.Platform.{
  Platform, World, Outcome, returns, killed, exited, undefined, out_of_fuel, and_then, skip,
  receive, sent,
}
use dr_shadow_stack.Platform.Post.{Ends, IsNoLog, Ends-and_then, Ends-mono}
use dr_shadow_stack.Runtime.Termination.{assert-true, Ends-receive, Ends-checked, assert-Ends}
use dr_shadow_stack.Message.Codec.{length-header_only_message}
use dr_shadow_stack.Message.{recv_msg, continue, header_only_message, message_size}
use dr_shadow_stack.Message.Events.{Encodes, Stream, end, more}
use dr_shadow_stack.ShadowStack.{Event, returns_in}
use dr_shadow_stack.Server.Verdict.{not_empty}
use dr_shadow_stack.Server.{HandlerMap, dispatch, round, serve}
use dr_shadow_stack.Client.{next_of, on_event, on_execve, on_ret, on_call, on_signal, tell_ret}
use dr_shadow_stack.Client.Messages.{InRange, Sent, Encodes-ret}
use dr_shadow_stack.Client.Protocol.{
  Told, Replies, none_due, stream_of, on_call-Ends, on_signal-Ends, tell_ret-Ends,
}
use dr_shadow_stack.Client.Session.{on_execve-Replaced}
use dr_shadow_stack.Lockstep.Channel.{replies, replies_first}
use dr_shadow_stack.Lockstep.{written, tell, hear}

pub written_lem :
    (sock : ℕ) (w v : World) (chunks : List (List ℕ))
    → sent sock v.trace ≡ chunks ++ sent sock w.trace
    → written sock w v ≡ stream_of chunks
unfolding written
written_lem sock w v chunks e = ap stream_of (
    ap (λ xs. take (length xs - length (sent sock w.trace)) xs) e
    ∙ take-append chunks (sent sock w.trace)
        (omega (arith, length-append chunks (sent sock w.trace))))

-- An event's message is on its way, and nothing but the trace has changed.
pub record Tells (p : Platform) (sock : ℕ) (e : Event) (w v : World) : Type 0 where
  pub same : v ≡ record w { trace = v.trace }
  pub spelled : Stream p [] (e ∷ []) (written sock w v)

module _ (p : Platform) (sock : ℕ) where
  Tells-Told :
      (e : Event) (w v : World)
      → returns_in (e ∷ []) ≡ 0
      → Told p sock (e ∷ []) w v
      → Tells p sock e w v
  Tells-Told e w v z t = record {
    same = t.same ∙ (λ i. record w {
      trace = v.trace;
      incoming = unread (subst (λ n. Replies p n w.incoming v.incoming) z t.replied) i;
    });
    spelled = subst (Stream p [] (e ∷ [])) (sym (written_lem sock w v t.chunks t.out)) t.spelled;
  }
    where
      unread : Replies p 0 w.incoming v.incoming → v.incoming ≡ w.incoming
      unread (none_due z) = sym z

  Tells-Sent :
      (e : Event) (chunk : List ℕ) (w v : World)
      → Encodes p e chunk
      → Sent sock chunk w v
      → Tells p sock e w v
  Tells-Sent e chunk w v c s = record {
    same = s.same;
    spelled =
        subst (Stream p [] (e ∷ [])) (sym (written_lem sock w v (chunk ∷ []) s.out))
          (more e chunk [] c (sym (append-nil chunk)) (end refl));
  }

  -- The first half of a handler sends its event's message, or the group is killed.
  pub tell-Ends :
      (env : List (List ℕ)) (s : List ℕ) (e : Event) (w : World)
      → next_of env ≡ some s
      → InRange p (e ∷ [])
      → IsNoLog w sock
      → Ends (λ _ v. Tells p sock e w v) (tell p env sock e w)
  unfolding tell returns_in
  tell-Ends env s (Event.call a) w h r n =
      Ends-mono _ _ (on_call p sock a w) (on_call-Ends p a sock w r.0 n)
        λ _ v t. Tells-Told (Event.call a) w v refl t
  tell-Ends env s (Event.ret a) w h r n =
      Ends-mono _ _ (tell_ret p sock a w) (tell_ret-Ends p a sock w n)
        λ _ v t. Tells-Sent (Event.ret a) _ w v (Encodes-ret p a r.0) t
  tell-Ends env s Event.signal w h r n =
      Ends-mono _ _ (on_signal p sock w) (on_signal-Ends p sock w n)
        λ _ v t. Tells-Told Event.signal w v refl t
  tell-Ends env s Event.execve w h r n =
      Ends-and_then _ _ (on_execve p sock env w) _ (on_execve-Replaced p sock env s w h n)
        λ _ v q. Tells-Told Event.execve w v refl q.4

  then_skip : (m : Outcome (Unit {0})) → m ≡ and_then m (λ _. skip)
  then_skip (returns tt w) = refl
  then_skip (killed w) = refl
  then_skip (exited n w) = refl
  then_skip (undefined w) = refl
  then_skip out_of_fuel = refl

  -- A handler of the client is its two halves.
  pub on_event_lem :
      (env : List (List ℕ)) (e : Event) (w : World)
      → on_event p sock env e w ≡ and_then (tell p env sock e w) (λ _. hear p env sock e)
  unfolding on_event on_ret tell hear
  on_event_lem env (Event.call a) w = then_skip _
  on_event_lem env (Event.ret a) w = refl
  on_event_lem env Event.signal w = then_skip _
  on_event_lem env Event.execve w = then_skip _

-- The second half of a handler has taken the answer that was due, and no more.
abbrev pub Hears : Platform → ℕ → Event → ℕ → World → World → Type 0
Hears p sock e n w v =
    (k : ℕ) × (n ≡ returns_in (e ∷ []) + k)
    × (v.incoming ≡ replies p k)
    × (v ≡ record w { trace = v.trace; incoming = v.incoming })

module _ (p : Platform) (env : List (List ℕ)) (sock : ℕ) where
  -- What a recv of a message's size leaves of answers.
  after_reply :
      (n k : ℕ) (bs : List ℕ)
      → bs ≡ replies p n
      → length (take (min (message_size p) k) bs) ≡ message_size p
      → (m : ℕ) × (n ≡ 1 + m) × (drop (min (message_size p) k) bs ≡ replies p m)
  after_reply zero k bs e full =
      absurd (omega (arith, length-take (min (message_size p) k) bs, ap length e))
  after_reply (suc m) k bs e full =
      let all : min (message_size p) k ≡ message_size p =
        omega (arith, length-take (min (message_size p) k) bs) in
      (
        m,
        omega arith,
        rw all (
            ap (drop (message_size p)) (e ∙ replies_first p m)
            ∙ drop-append (header_only_message p continue) (replies p m)
                (length-header_only_message p continue)),
      )

  pub hear-Ends :
      (e : Event) (n : ℕ) (w : World)
      → w.incoming ≡ replies p n
      → Ends (λ _ v. Hears p sock e n w v) (hear p env sock e w)
  unfolding hear recv_msg returns_in
  hear-Ends (Event.call a) n w i = (n, omega arith, i, refl)
  hear-Ends Event.signal n w i = (n, omega arith, i, refl)
  hear-Ends Event.execve n w i = (n, omega arith, i, refl)
  hear-Ends (Event.ret a) n w i =
      Ends-receive p _ sock (message_size p) w _ (Ends-checked p _ false _ _ _ (λ e. cc)) λ k e.
        Ends-checked p _ _ _ _ _ λ full. assert-Ends p _ _ _ _ λ valid.
          let (m, due, left) = after_reply n k w.incoming i ((==_iff _ _).0 full) in
          (m, due, left, refl)

-- A round of the server's loop on a whole message is a step of the server.
pub serve_lem :
    (p : Platform) (sock f : ℕ) (hs m : HandlerMap) (stk chunk stk' : List ℕ) (w u v : World)
    → receive p sock (message_size p) w ≡ returns (some chunk) u
    → length chunk ≡ message_size p
    → dispatch p hs stk chunk sock u ≡ returns (stk', m) v
    → serve p (suc f) hs stk sock w ≡ serve p f m stk' sock v
unfolding serve round
serve_lem p sock f hs m stk chunk stk' w u v got full made =
    rw (got, (==_iff (length chunk) (message_size p)).1 full, assert-true p _ u)
      (rw (not_empty (length chunk) p.pointer_size full, made) refl)
