-- ===== src/Lockstep/Channel.antt =====
-- The two byte streams between client and server (message.hpp, and recv with MSG_WAITALL): whole
-- messages go in at one end and come out at the other.
use dr_shadow_stack.Base.{
  ℕ, zero, suc, ◌+◌, ◌≡◌, refl, sym, ap, ◌∙◌, subst, Option, none, some, List, [], ◌∷◌, ◌++◌, take,
  drop, length, min, replicate, arith, append_assoc, append-nil, length-take, take-append,
  drop-append,
}
use dr_shadow_stack.Platform.{Platform, World, returns, receive, recv, deliver}
use dr_shadow_stack.Platform.Post.{Returns}
use dr_shadow_stack.Message.{continue, header_only_message, message_size}
use dr_shadow_stack.Message.Events.{Encodes, Stream, end, more}
use dr_shadow_stack.ShadowStack.{Event, check, run, returns_in}
use dr_shadow_stack.Client.Protocol.{stream_of}

pub returns_in-append : (es fs : List Event) → returns_in (es ++ fs) ≡ returns_in es + returns_in fs
unfolding returns_in
returns_in-append [] fs = omega arith
returns_in-append (Event.ret a ∷ es) fs = omega (arith, returns_in-append es fs)
returns_in-append (Event.call a ∷ es) fs = returns_in-append es fs
returns_in-append (Event.signal ∷ es) fs = returns_in-append es fs
returns_in-append (Event.execve ∷ es) fs = returns_in-append es fs

-- The abstract shadow stack stops at returns only.
pub run_without_returns :
    (w : ℕ) (stk : List ℕ) (es : List Event)
    → returns_in es ≡ 0
    → (s : List ℕ) × (run w stk es ≡ some s)
unfolding returns_in run check
run_without_returns w stk [] z = (stk, refl)
run_without_returns w stk (Event.ret a ∷ es) z = absurd (omega arith)
run_without_returns w stk (Event.call a ∷ es) z = run_without_returns w (a ∷ stk) es z
run_without_returns w stk (Event.signal ∷ es) z = run_without_returns w (w ∷ stk) es z
run_without_returns w stk (Event.execve ∷ es) z = run_without_returns w [] es z

module _ (p : Platform) where
  -- `n` answers in a row.
  abbrev pub replies : ℕ → List ℕ
  replies n = stream_of (replicate n (header_only_message p continue))

  pub replies_add : (n k : ℕ) → replies n ++ replies k ≡ replies (k + n)
  replies_add n zero = append-nil (replies n) ∙ ap replies (let e : n ≡ 0 + n = omega arith in e)
  replies_add n (suc k) =
      sym (append_assoc (replies n) (replies k) _)
      ∙ ap (λ bs. bs ++ header_only_message p continue) (replies_add n k)
      ∙ ap replies (let e : suc (k + n) ≡ suc k + n = omega arith in e)

  pub replies_first : (k : ℕ) → replies (suc k) ≡ header_only_message p continue ++ replies k
  replies_first k = ap replies (let e : suc k ≡ k + 1 = omega arith in e) ∙ sym (replies_add 1 k)

  pub Stream-append :
      {es fs : List Event} {bs cs : List ℕ}
      → Stream p [] es bs
      → Stream p [] fs cs
      → Stream p [] (es ++ fs) (bs ++ cs)
  Stream-append {fs} {cs} (end z) t = subst (λ bs. Stream p [] fs (bs ++ cs)) (sym z) t
  Stream-append {cs} (more e chunk mid c i s) t =
      more e chunk (mid ++ cs) c (ap (λ bs. bs ++ cs) i ∙ append_assoc chunk mid cs)
        (Stream-append s t)

  -- A recv that has handed over all that was asked for has taken it from the front.
  pub receive_whole :
      (sock n : ℕ) (w v : World) (chunk : List ℕ)
      → receive p sock n w ≡ returns (some chunk) v
      → length chunk ≡ n
      → (chunk ≡ take n w.incoming)
        × (v ≡ record w { trace = v.trace; incoming = v.incoming })
        × (v.incoming ≡ drop n w.incoming)
  receive_whole sock n w v chunk e full =
      subst (Returns Whole) e (go (p.result w.trace (recv sock n))) full
    where
      Whole : Option (List ℕ) → World → Type 0
      Whole none v = Unit {0}
      Whole (some bs) v =
          length bs ≡ n
          → (bs ≡ take n w.incoming)
            × (v ≡ record w { trace = v.trace; incoming = v.incoming })
            × (v.incoming ≡ drop n w.incoming)

      go : (o : Option ℕ) → Returns Whole (deliver sock n o w)
      go none = tt
      go (some k) = λ f.
          let all : min n k ≡ n = omega (arith, length-take (min n k) w.incoming) in
          (ap (λ m. take m w.incoming) all, refl, ap (λ m. drop m w.incoming) all)

  -- The message at the front of those that wait.
  pub first_pending :
      (chunk : List ℕ) (es : List Event) (bs : List ℕ)
      → Stream p [] es bs
      → chunk ≡ take (message_size p) bs
      → length chunk ≡ message_size p
      → (e : Event) × (rest : List Event) × (es ≡ e ∷ rest)
        × Encodes p e chunk
        × Stream p [] rest (drop (message_size p) bs)
  first_pending chunk es bs (end z) front full =
      absurd (omega (arith, full, ap length front, length-take (message_size p) bs, ap length z))
  first_pending chunk es bs (more e c mid {es = rest} h i s) front full = (
    e,
    rest,
    refl,
    subst (Encodes p e) (sym (front ∙ ap (take (message_size p)) i ∙ take-append c mid h.full)) h,
    subst (Stream p [] rest) (sym (ap (drop (message_size p)) i ∙ drop-append c mid h.full)) s,
  )
