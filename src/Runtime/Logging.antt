-- ===== src/Runtime/Logging.antt =====
-- Logging (utilities.hpp, utilities.cpp) on a kernel that writes all that it is given and knows every
-- thread's id: no log line kills the group.
use dr_shadow_stack.Base.{
  false, arith, min, drop, Bool, ◌∷◌, take, ℕ, suc, ◌≡◌, refl, ◌∙◌, ap, sym, subst, true, Option,
  none, some, List, length, ==_refl,
}
use dr_shadow_stack.Text.{Arg}
use dr_shadow_stack.Platform.{
  set_tls_field, M, returns, receive, Platform, World, Syscall, write, recv, gettid, skip, and_then,
}
use dr_shadow_stack.Platform.Post.{
  Returns, Frame, Frame-refl, Frame-trans, IsNoLog-Frame, Returns-and_then, Returns-if,
}
use dr_shadow_stack.Runtime.{
  assert, log_error_on, message_on, write_log_on, tid_prefix_on, get_tid_on, assert_on, wrote_all,
  log, log_error, message, verbose_log,
}
use dr_shadow_stack.Runtime.Termination.{assert-true}
use dr_shadow_stack.Runtime.Fuel.{IsLog, Frame-gettid, Frame-write_log}

-- The calls succeed in full: writes are complete, threads have an id, and recv with MSG_WAITALL hands
-- over what was asked for unless the peer has closed the stream. DynamoRIO's fields can be set.
pub record Works (p : Platform) : Type 0 where
  pub writes :
      (h : List Syscall) (fd : ℕ) (bs : List ℕ) → p.result h (write fd bs) ≡ some (length bs)
  pub tid : List Syscall → ℕ
  pub tids : (h : List Syscall) → p.result h gettid ≡ some (tid h)
  pub stores : (h : List Syscall) (t : ℕ) → p.result h (set_tls_field t) ≡ some 1
  pub waits : (h : List Syscall) (fd n : ℕ) → p.result h (recv fd n) ≡ some n

module _ (p : Platform) (ok : Works p) where
  get_tid_on-Returns : (f : ℕ) (w : World) → Returns (λ _ v. Frame w v) (get_tid_on p (suc f) w)
  unfolding get_tid_on
  get_tid_on-Returns f w = rw (ok.tids w.trace) (Frame-gettid w)

  tid_prefix_on-Returns :
      (f : ℕ) (w : World) → Returns (λ _ v. Frame w v) (tid_prefix_on p (suc (suc f)) w)
  unfolding tid_prefix_on
  tid_prefix_on-Returns f w =
      Returns-if (λ _ v. Frame w v) w.is_multi_thread_or_process _ _ w
        (λ e.
          Returns-and_then (λ _ v. Frame w v) (λ _ v. Frame w v) (get_tid_on p (suc f) w) _
            (get_tid_on-Returns f w) (λ a v q. q))
        (λ e. Frame-refl w)

  IsLog-Frame : (w v : World) (o : Option ℕ) → Frame w v → IsLog w o → IsLog v o
  IsLog-Frame w v o q l = λ d fd n e. l d fd ((IsNoLog-Frame w v d q).1 n) e

  assert_wrote-Returns :
      (f : ℕ) (w v : World) (r : Option ℕ) (n : ℕ)
      → r ≡ some n
      → Frame w v
      → Returns (λ _ u. Frame w u) (assert_on p (suc (suc f)) (wrote_all r n) none v)
  unfolding assert_on
  assert_wrote-Returns f w v r n e q =
      subst (λ b. Returns (λ _ u. Frame w u) (assert_on p (suc (suc f)) b none v)) (sym full) q
    where
      full : wrote_all r n ≡ true
      full = rw e (==_refl n)

  write_log_on-Returns :
      (f : ℕ) (w v : World) (o : Option ℕ) (args : List Arg)
      → Frame w v
      → IsLog w o
      → Returns (λ _ u. Frame w u) (write_log_on p (suc (suc (suc f))) o args v)
  unfolding write_log_on
  write_log_on-Returns f w v none args q l = q
  write_log_on-Returns f w v (some fd) args q l =
      Returns-and_then (λ _ u. Frame v u) _ (tid_prefix_on p (suc (suc f)) v) _
        (tid_prefix_on-Returns f v)
        λ prefix u r. assert_wrote-Returns f w _ _ _ (ok.writes u.trace fd _) (
          Frame-trans (Frame-trans q r) (
            Frame-write_log u fd _
              (λ d n. IsLog-Frame w u (some fd) (Frame-trans q r) l d fd n refl)))

  two_logs-Returns :
      (f : ℕ) (w : World) (args : List Arg) (second : World → Option ℕ)
      → ((v : World) → Frame w v → IsLog w (second v))
      → Returns
          (λ _ u. Frame w u)
          (and_then
            (write_log_on p (suc (suc (suc f))) w.log_fd args w)
            (λ _ v. write_log_on p (suc (suc (suc f))) (second v) args v))
  two_logs-Returns f w args second l =
      Returns-and_then (λ _ u. Frame w u) (λ _ u. Frame w u)
        (write_log_on p (suc (suc (suc f))) w.log_fd args w) _
        (write_log_on-Returns f w w w.log_fd args (Frame-refl w)
          (λ d fd n e g. n.not_log (e ∙ ap some g)))
        λ _ v q. write_log_on-Returns f w v (second v) args q (l v q)

  pub log-Returns : (args : List Arg) (w : World) → Returns (λ _ u. Frame w u) (log p args w)
  unfolding log
  log-Returns args w =
      write_log_on-Returns 13 w w w.log_fd args (Frame-refl w)
        (λ d fd n e g. n.not_log (e ∙ ap some g))

  pub log_error-Returns :
      (args : List Arg) (w : World) → Returns (λ _ u. Frame w u) (log_error p args w)
  unfolding log_error log_error_on
  log_error-Returns args w =
      two_logs-Returns 12 w args (λ v. v.error_fd)
        (λ v q d fd n e g. ((IsNoLog-Frame w v d q).0 n).not_error (e ∙ ap some g))

  pub message-Returns :
      (args : List Arg) (w : World) → Returns (λ _ u. Frame w u) (message p args w)
  unfolding message message_on
  message-Returns args w =
      two_logs-Returns 12 w args (λ v. v.stdout_fd)
        (λ v q d fd n e g. ((IsNoLog-Frame w v d q).0 n).not_stdout (e ∙ ap some g))

  pub verbose_log-Returns :
      (args : List Arg) (w : World) → Returns (λ _ u. Frame w u) (verbose_log p args w)
  unfolding verbose_log
  verbose_log-Returns args w =
      Returns-if (λ _ u. Frame w u) p.verbose (log p args) skip w (λ e. log-Returns args w)
        (λ e. Frame-refl w)

  -- A whole message, or all that the peer has left.
  pub receive-Works :
      (sock n : ℕ) (w : World)
      → receive p sock n w
        ≡ returns
            (some (take n w.incoming))
            (record w { trace = recv sock n ∷ w.trace; incoming = drop n w.incoming })
  receive-Works sock n w =
      let e : min n n ≡ n = omega arith in
      rw (ok.waits w.trace sock n) (
        ap
          (λ k.
            returns (some (take k w.incoming))
              (record w { trace = recv sock n ∷ w.trace; incoming = drop k w.incoming }))
          e)

  pub receive-and_then {ℓ} :
      {B : Type ℓ} (sock n : ℕ) (w : World) (f : Option (List ℕ) → M B)
      → and_then (receive p sock n w) f
        ≡ f
            (some (take n w.incoming))
            (record w { trace = recv sock n ∷ w.trace; incoming = drop n w.incoming })
  receive-and_then sock n w f = ap (λ o. and_then o f) (receive-Works sock n w)

  -- A check of a complete write passes.
  pub wrote_all-Works :
      (h : List Syscall) (fd : ℕ) (bs : List ℕ)
      → wrote_all (p.result h (write fd bs)) (length bs) ≡ true
  wrote_all-Works h fd bs = rw (ok.writes h fd bs) (==_refl (length bs))

module _ {ℓ} (p : Platform) {A : Type ℓ} where
  pub Returns-checked :
      (R : A → World → Type 0) (b : Bool) (s : Option (List Arg)) (w : World) (f : M A)
      → b ≡ true
      → Returns R (f w)
      → Returns R (and_then (assert p b s w) (λ _. f))
  Returns-checked R true s w f e h = rw (assert-true p s w) h
  Returns-checked R false s w f e h = cc

pub assert-Returns :
    (p : Platform) (Q : Unit {0} → World → Type 0) (b : Bool) (s : Option (List Arg)) (w : World)
    → b ≡ true
    → Q tt w
    → Returns Q (assert p b s w)
assert-Returns p Q true s w e h = rw (assert-true p s w) h
assert-Returns p Q false s w e h = cc
