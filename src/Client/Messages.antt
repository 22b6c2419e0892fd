-- ===== src/Client/Messages.antt =====
-- Single messages of the external client (dr_external_ss_events.cpp, message.hpp): each goes out whole
-- and spells its event.
use dr_shadow_stack.Base.{
  ◌++◌, suc, length, ℕ, ◌^◌, ◌<◌, ◌≡◌, ap, subst, true, List, [], ◌∷◌, take, drop, ==_refl,
  take-length,
}
use dr_shadow_stack.Platform.{Platform, World, write, sent}
use dr_shadow_stack.Runtime.Logging.{Works, assert-Returns, wrote_all-Works}
use dr_shadow_stack.Platform.Post.{Returns, Frame-refl, Ends, Frame, IsNoLog}
use dr_shadow_stack.Runtime.{wrote_all}
use dr_shadow_stack.Runtime.Termination.{assert-Ends}
use dr_shadow_stack.Message.{
  tabulate, header, Message, with_body, at_header, to_memory, from_memory, send_msg,
  send_msg_with_body,
}
use dr_shadow_stack.Message.Codec.{
  at_header_lem, length-to_memory, from_memory-to_memory, length-with_body, length-at_header,
  take-with_body, take-at_header, drop-with_body,
}
use dr_shadow_stack.Message.Events.{Encodes}
use dr_shadow_stack.ShadowStack.{Event}

-- One message has gone out, and nothing but the trace has changed.
pub record Sent (sock : ℕ) (chunk : List ℕ) (w v : World) : Type 0 where
  pub same : v ≡ record w { trace = v.trace }
  pub out : sent sock v.trace ≡ chunk ∷ sent sock w.trace

Sent-write :
    (sock : ℕ) (chunk : List ℕ) (w v : World)
    → IsNoLog w sock
    → Frame w v
    → Sent sock chunk w (record v { trace = write sock chunk ∷ v.trace })
unfolding sent
Sent-write sock chunk w v n q = record {
  same = λ i. record (q.same i) { trace = write sock chunk ∷ v.trace };
  out = rw (==_refl sock) (ap (◌∷◌ chunk) (q.apart sock n));
}

-- An address fits a pointer of the target.
abbrev pub InRange : Platform → List Event → Type 0
InRange p [] = Unit {0}
InRange p (Event.call a ∷ es) = (a < 256 ^ p.pointer_size) × InRange p es
InRange p (Event.ret a ∷ es) = (a < 256 ^ p.pointer_size) × InRange p es
InRange p (_ ∷ es) = InRange p es

pub InRange-cons :
    (p : Platform) (e : Event) (es : List Event)
    → InRange p (e ∷ es)
    → InRange p (e ∷ []) × InRange p es
InRange-cons p (Event.call a) es r = ((r.0, tt), r.1)
InRange-cons p (Event.ret a) es r = ((r.0, tt), r.1)
InRange-cons p Event.signal es r = (tt, r)
InRange-cons p Event.execve es r = (tt, r)

module _ (p : Platform) where
  pub send_msg-Ends :
      (m : Message) (sock : ℕ) (w : World)
      → IsNoLog w sock
      → Ends (λ _ v. Sent sock (at_header p m) w v) (send_msg p m sock w)
  unfolding send_msg
  send_msg-Ends m sock w n =
      assert-Ends p (λ _ v. Sent sock (at_header p m) w v) _ _
        (record w { trace = write sock (at_header p m) ∷ w.trace })
        λ _. Sent-write sock (at_header p m) w w n (Frame-refl w)

  -- On any kernel, for a pointer of at least one byte and a socket that is no log descriptor:
  -- send_msg of a header-only message ends, by a return or with the group killed. If it returns, it
  -- has sent the header, its NUL, and one byte less than a pointer has of the memory that lies
  -- behind the literal.
  pub send_msg-Literal :
      (m : Message) (k sock : ℕ) (w : World)
      → p.pointer_size ≡ suc k
      → IsNoLog w sock
      → Ends
          (λ _ v. Sent sock (header m ++ 0 ∷ tabulate k (p.past_literal (header m))) w v)
          (send_msg p m sock w)
  send_msg-Literal m k sock w h n =
      subst (λ bs. Ends (λ _ v. Sent sock bs w v) (send_msg p m sock w)) (at_header_lem p m k h)
        (send_msg-Ends m sock w n)

  pub send_msg_with_body-Ends :
      (m : Message) (sock : ℕ) (bdy : List ℕ) (w v : World)
      → IsNoLog w sock
      → Frame w v
      → Ends (λ _ u. Sent sock (with_body p m bdy) w u) (send_msg_with_body p m sock bdy v)
  unfolding send_msg_with_body
  send_msg_with_body-Ends m sock bdy w v n q =
      assert-Ends p (λ _ u. Sent sock (with_body p m bdy) w u) _ _
        (record v { trace = write sock (with_body p m bdy) ∷ v.trace })
        λ _. Sent-write sock (with_body p m bdy) w v n q

  pub send_msg-Returns :
      (ok : Works p) (m : Message) (sock : ℕ) (w : World)
      → Returns (λ _ _. Unit {0}) (send_msg p m sock w)
  unfolding send_msg
  send_msg-Returns ok m sock w =
      assert-Returns p (λ _ _. Unit {0}) _ _
        (record w { trace = write sock (at_header p m) ∷ w.trace })
        (subst (λ n. wrote_all (p.result w.trace (write sock (at_header p m))) n ≡ true)
          (length-at_header p m) (wrote_all-Works p ok w.trace sock (at_header p m)))
        tt

  pub send_msg_with_body-Returns :
      (ok : Works p) (m : Message) (sock : ℕ) (bdy : List ℕ) (w : World)
      → length bdy ≡ p.pointer_size
      → Returns (λ _ _. Unit {0}) (send_msg_with_body p m sock bdy w)
  unfolding send_msg_with_body
  send_msg_with_body-Returns ok m sock bdy w h =
      assert-Returns p (λ _ _. Unit {0}) _ _
        (record w { trace = write sock (with_body p m bdy) ∷ w.trace })
        (subst (λ n. wrote_all (p.result w.trace (write sock (with_body p m bdy))) n ≡ true)
          (length-with_body p m bdy h) (wrote_all-Works p ok w.trace sock (with_body p m bdy)))
        tt

  -- A message with a body spells its event, if the address fits.
  with_body-address :
      (m : Message) (a : ℕ)
      → a < 256 ^ p.pointer_size
      → from_memory (take p.pointer_size (drop 4 (with_body p m (to_memory p.pointer_size a)))) ≡ a
  with_body-address m a h =
      let whole = take-length (to_memory p.pointer_size a) (length-to_memory p.pointer_size a) in
      rw (drop-with_body p m (to_memory p.pointer_size a), whole, whole)
        (from_memory-to_memory p.pointer_size a h)

  pub Encodes-call :
      (a : ℕ)
      → a < 256 ^ p.pointer_size
      → Encodes p (Event.call a) (with_body p Message.call (to_memory p.pointer_size a))
  Encodes-call a h = record {
    full = length-with_body p Message.call _ (length-to_memory p.pointer_size a);
    head = take-with_body p Message.call _;
    body = with_body-address Message.call a h;
  }

  pub Encodes-ret :
      (a : ℕ)
      → a < 256 ^ p.pointer_size
      → Encodes p (Event.ret a) (with_body p Message.ret (to_memory p.pointer_size a))
  Encodes-ret a h = record {
    full = length-with_body p Message.ret _ (length-to_memory p.pointer_size a);
    head = take-with_body p Message.ret _;
    body = with_body-address Message.ret a h;
  }

  pub Encodes-signal : Encodes p Event.signal (at_header p Message.new_signal)
  Encodes-signal = record {
    full = length-at_header p Message.new_signal;
    head = take-at_header p Message.new_signal;
    body = tt;
  }

  pub Encodes-execve : Encodes p Event.execve (at_header p Message.execve)
  Encodes-execve = record {
    full = length-at_header p Message.execve;
    head = take-at_header p Message.execve;
    body = tt;
  }
