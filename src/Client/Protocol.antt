-- ===== src/Client/Protocol.antt =====
-- What the external client (dr_external_ss_events.cpp) puts on its socket: the messages of its events in
-- their order, and after each return a reply that it has waited for.
use dr_shadow_stack.Base.{
  ℕ, suc, ◌^◌, ◌<◌, ◌≡◌, refl, sym, ap, ◌∙◌, subst, false, List, [], ◌∷◌, ◌++◌, take, drop, length,
  min, ==_iff, append_assoc, append-nil, take-append-drop,
}
use dr_shadow_stack.Platform.{Platform, World, recv, sent}
use dr_shadow_stack.Platform.Post.{Ends, Frame, IsNoLog, Ends-and_then, Ends-mono}
use dr_shadow_stack.Runtime.{verbose_log}
use dr_shadow_stack.Runtime.Termination.{assert-Ends, Ends-checked, Ends-receive, verbose_log-Ends}
use dr_shadow_stack.Message.{
  with_body, Message, header, message_size, to_memory, send_msg, send_msg_with_body, recv_msg,
}
use dr_shadow_stack.Message.Codec.{header_of_is_a_valid}
use dr_shadow_stack.Message.Events.{Encodes, Stream, end, more}
use dr_shadow_stack.ShadowStack.{Event, returns_in}
use dr_shadow_stack.Client.{tell_ret, on_call, on_ret, on_signal}
use dr_shadow_stack.Client.Messages.{
  Sent, send_msg-Ends, send_msg_with_body-Ends, Encodes-call, Encodes-ret, Encodes-signal,
}

-- `n` replies Continue have been taken from the bytes that wait.
pub data Replies (p : Platform) : ℕ → List ℕ → List ℕ → Type 0 where
  none_due : {bs left : List ℕ} → bs ≡ left → Replies p 0 bs left
  reply :
      {n : ℕ} (chunk mid : List ℕ) {bs left : List ℕ}
      → length chunk ≡ message_size p
      → take 4 chunk ≡ header Message.continue
      → bs ≡ chunk ++ mid
      → Replies p n mid left
      → Replies p (suc n) bs left

-- The bytes of messages, given newest first, in the order in which they went out.
abbrev pub stream_of : List (List ℕ) → List ℕ
stream_of [] = []
stream_of (m ∷ ms) = stream_of ms ++ m

-- The messages of a history have gone out, and a reply has come in for each of its returns.
pub record Told (p : Platform) (sock : ℕ) (es : List Event) (w v : World) : Type 0 where
  pub chunks : List (List ℕ)
  pub same : v ≡ record w { trace = v.trace; incoming = v.incoming }
  pub out : sent sock v.trace ≡ chunks ++ sent sock w.trace
  pub spelled : Stream p [] es (stream_of chunks)
  pub replied : Replies p (returns_in es) w.incoming v.incoming

module _ (p : Platform) (sock : ℕ) where
  pub Told-nil : (w : World) → Told p sock [] w w
  unfolding returns_in
  Told-nil w = record {
    chunks = [];
    same = refl;
    out = refl;
    spelled = end refl;
    replied = none_due refl;
  }

  -- One message, for an event that waits for no reply.
  pub Told-Sent :
      (e : Event) (chunk : List ℕ) (w v : World)
      → returns_in (e ∷ []) ≡ 0
      → Encodes p e chunk
      → Sent sock chunk w v
      → Told p sock (e ∷ []) w v
  Told-Sent e chunk w v z c s = record {
    chunks = chunk ∷ [];
    same = s.same ∙ (λ i. record w { trace = v.trace; incoming = unread i });
    out = s.out;
    spelled = more e chunk [] c (sym (append-nil chunk)) (end refl);
    replied = subst (λ n. Replies p n w.incoming v.incoming) (sym z) (none_due unread);
  }
    where
      unread : w.incoming ≡ v.incoming
      unread = sym (ap (λ (u : World). u.incoming) s.same)

  -- The wait of `on_ret` for a whole message Continue.
  recv_msg-Ends :
      (m : Message) (w v : World) (a : ℕ) (chunk : List ℕ)
      → Encodes p (Event.ret a) chunk
      → Sent sock chunk w v
      → Ends (λ _ u. Told p sock (Event.ret a ∷ []) w u) (recv_msg p m sock v)
  unfolding recv_msg sent returns_in
  recv_msg-Ends m w v a chunk c s =
      Ends-receive p _ sock (message_size p) v _ (Ends-checked p _ false _ _ _ (λ e. cc)) λ k e.
        Ends-checked p _ _ _ _ _ λ full. assert-Ends p _ _ _ _ λ valid. record {
          chunks = chunk ∷ [];
          same = λ i. record (s.same i) {
            trace = recv sock (message_size p) ∷ v.trace;
            incoming = drop (min (message_size p) k) v.incoming;
          };
          out = s.out;
          spelled = more (Event.ret a) chunk [] c (sym (append-nil chunk)) (end refl);
          replied =
              reply (take (min (message_size p) k) v.incoming) _ ((==_iff _ _).0 full)
                (header_of_is_a_valid Message.continue _ valid)
                (sym (ap (λ (u : World). u.incoming) s.same)
                  ∙ sym (take-append-drop (min (message_size p) k) v.incoming))
                (none_due refl);
        }

stream_of-append : (xs ys : List (List ℕ)) → stream_of (xs ++ ys) ≡ stream_of ys ++ stream_of xs
stream_of-append [] ys = sym (append-nil (stream_of ys))
stream_of-append (x ∷ xs) ys =
    ap (λ s. s ++ x) (stream_of-append xs ys) ∙ append_assoc (stream_of ys) (stream_of xs) x

module _ (p : Platform) where
  Stream-cons :
      (e : Event) (es : List Event) (bs cs : List ℕ)
      → Stream p [] (e ∷ []) bs
      → Stream p [] es cs
      → Stream p [] (e ∷ es) (bs ++ cs)
  Stream-cons e es bs cs (more _ chunk mid c i (end z)) st =
      more e chunk cs c (ap (λ s. s ++ cs) (i ∙ ap (◌++◌ chunk) z ∙ append-nil chunk)) st

  Replies-cons :
      (e : Event) (es : List Event) (a b c : List ℕ)
      → Replies p (returns_in (e ∷ [])) a b
      → Replies p (returns_in es) b c
      → Replies p (returns_in (e ∷ es)) a c
  unfolding returns_in
  Replies-cons (Event.ret x) es a b c (reply chunk mid full head i (none_due z)) r =
      reply chunk b full head (i ∙ ap (◌++◌ chunk) z) r
  Replies-cons (Event.call x) es a b c (none_due z) r =
      subst (λ s. Replies p (returns_in es) s c) (sym z) r
  Replies-cons Event.signal es a b c (none_due z) r =
      subst (λ s. Replies p (returns_in es) s c) (sym z) r
  Replies-cons Event.execve es a b c (none_due z) r =
      subst (λ s. Replies p (returns_in es) s c) (sym z) r

  pub Told-cons :
      (sock : ℕ) (e : Event) (es : List Event) (w v u : World)
      → Told p sock (e ∷ []) w v
      → Told p sock es v u
      → Told p sock (e ∷ es) w u
  Told-cons sock e es w v u a b = record {
    chunks = b.chunks ++ a.chunks;
    same = b.same ∙ (λ i. record (a.same i) { trace = u.trace; incoming = u.incoming });
    out = b.out ∙ ap (◌++◌ b.chunks) a.out ∙ sym (append_assoc b.chunks a.chunks _);
    spelled =
        subst (Stream p [] (e ∷ es)) (sym (stream_of-append b.chunks a.chunks))
          (Stream-cons e es _ _ a.spelled b.spelled);
    replied = Replies-cons e es _ _ _ a.replied b.replied;
  }

  pub on_call-Ends :
      (a sock : ℕ) (w : World)
      → a < 256 ^ p.pointer_size
      → IsNoLog w sock
      → Ends (λ _ v. Told p sock (Event.call a ∷ []) w v) (on_call p sock a w)
  unfolding on_call returns_in
  on_call-Ends a sock w h n =
      Ends-and_then (λ _ v. Frame w v) _ (verbose_log p _ w) _ (verbose_log-Ends p _ w)
        λ _ v q.
          Ends-mono _ _ (send_msg_with_body p Message.call sock (to_memory p.pointer_size a) v)
            (send_msg_with_body-Ends p Message.call sock _ w v n q)
            λ _ u s. Told-Sent p sock (Event.call a) _ w u refl (Encodes-call p a h) s

  pub tell_ret-Ends :
      (a sock : ℕ) (w : World)
      → IsNoLog w sock
      → Ends
          (λ _ v. Sent sock (with_body p Message.ret (to_memory p.pointer_size a)) w v)
          (tell_ret p sock a w)
  unfolding tell_ret
  tell_ret-Ends a sock w n =
      Ends-and_then (λ _ v. Frame w v) _ (verbose_log p _ w) _ (verbose_log-Ends p _ w)
        λ _ v q. send_msg_with_body-Ends p Message.ret sock _ w v n q

  pub on_ret-Ends :
      (a sock : ℕ) (w : World)
      → a < 256 ^ p.pointer_size
      → IsNoLog w sock
      → Ends (λ _ v. Told p sock (Event.ret a ∷ []) w v) (on_ret p sock a w)
  unfolding on_ret
  on_ret-Ends a sock w h n =
      Ends-and_then _ _ (tell_ret p sock a w) _ (tell_ret-Ends a sock w n)
        λ _ u s. recv_msg-Ends p sock Message.continue w u a _ (Encodes-ret p a h) s

  pub on_signal-Ends :
      (sock : ℕ) (w : World)
      → IsNoLog w sock
      → Ends (λ _ v. Told p sock (Event.signal ∷ []) w v) (on_signal p sock w)
  unfolding on_signal returns_in
  on_signal-Ends sock w n =
      Ends-mono _ _ (send_msg p Message.new_signal sock w)
        (send_msg-Ends p Message.new_signal sock w n)
        λ _ u s. Told-Sent p sock Event.signal _ w u refl (Encodes-signal p) s
