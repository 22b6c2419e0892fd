-- ===== src/Runtime/Fuel.antt =====
-- Logging, error checks and `Group::terminate` (utilities.cpp, group.cpp) on their fuel: how much of it is
-- enough for each, if termination kills on what is left.
use dr_shadow_stack.Base.{
  ℕ, suc, ◌≡◌, refl, ◌∙◌, ap, Bool, true, false, Option, none, some, List, ◌∷◌, inl, inr,
  Option-cases, arith, length, ◌≢◌,
}
use dr_shadow_stack.Text.{Arg}
use dr_shadow_stack.Platform.{Platform, World, write, gettid, fflush, sent, steps, and_then}
use dr_shadow_stack.Platform.Post.{
  Ends, Kills, Frame, Frame-refl, Frame-trans, IsNoLog, IsNoLog-Frame, Ends-and_then,
  Kills-and_then, Ends-if, Ends-mono, Ends-of_Kills,
}
use dr_shadow_stack.Runtime.{
  terminate_on, announce_on, log_error_on, message_on, write_log_on, tid_prefix_on, get_tid_on,
  assert_on, wrote_all,
}

-- A system call that is no write leaves what was sent as it was, as does one to a log's descriptor.
pub Frame-gettid : (w : World) → Frame w (record w { trace = gettid ∷ w.trace })
unfolding sent steps
Frame-gettid w = record { same = refl; apart = λ fd h. refl; settled = refl }

pub Frame-write_log :
    (w : World) (fd : ℕ) (bs : List ℕ)
    → ((d : ℕ) → IsNoLog w d → fd ≢ d)
    → Frame w (record w { trace = write fd bs ∷ w.trace })
unfolding sent steps
Frame-write_log w fd bs h = record {
  same = refl;
  apart = λ d n. ground (arith, h d n);
  settled = refl;
}

-- The descriptors that log lines go to.
abbrev pub IsLog : World → Option ℕ → Type 0
IsLog w o = (d fd : ℕ) → IsNoLog w d → o ≡ some fd → fd ≢ d

module _ (p : Platform) where
  -- From every state with this value of the static flag, `terminate` kills on this fuel.
  abbrev KillsAt : ℕ → Bool → Type 0
  KillsAt f b =
      (v : World)
      → v.terminate_already_called ≡ b
      → (msg : Option (List Arg)) (e : Bool) → Kills (terminate_on p f msg e v)

  module _ (f : ℕ) (b : Bool) (k : KillsAt f b) where
    get_tid_on-Ends :
        (w : World)
        → w.terminate_already_called ≡ b
        → Ends (λ _ v. Frame w v) (get_tid_on p (suc f) w)
    unfolding terminate_on
    get_tid_on-Ends w h = elim (Option-cases (p.result w.trace gettid)) [
      | inl e ↦ rw e (Kills-and_then _ _ _ (k _ h _ _))
      | inr (tid, e) ↦ rw e (Frame-gettid w)
    ]

    pub tid_prefix_on-Ends :
        (w : World)
        → w.terminate_already_called ≡ b
        → Ends (λ _ v. Frame w v) (tid_prefix_on p (suc (suc f)) w)
    unfolding terminate_on
    tid_prefix_on-Ends w h =
        Ends-if (λ _ v. Frame w v) w.is_multi_thread_or_process _ _ w
          (λ e.
            Ends-and_then (λ _ v. Frame w v) (λ _ v. Frame w v) (get_tid_on p (suc f) w) _
              (get_tid_on-Ends w h) (λ a v q. q))
          (λ e. Frame-refl w)

    -- The check of a log line's own write passes no message, so it cannot log again.
    assert_on-Ends :
        (c : Bool) (w : World)
        → w.terminate_already_called ≡ b
        → Ends (λ _ v. Frame w v) (assert_on p (suc (suc f)) c none w)
    unfolding terminate_on
    assert_on-Ends true w h = Frame-refl w
    assert_on-Ends false w h = Ends-of_Kills _ _ (k w h none true)

    flag-Frame :
        (w v : World) → Frame w v → w.terminate_already_called ≡ b → v.terminate_already_called ≡ b
    flag-Frame w v q h = cc (q.same)

    IsLog-Frame : (w v : World) (o : Option ℕ) → Frame w v → IsLog w o → IsLog v o
    IsLog-Frame w v o q l = λ d fd n e. l d fd ((IsNoLog-Frame w v d q).1 n) e

    -- The write of a line and the check of its result.
    line-Ends :
        (w v : World) (fd : ℕ) (bs : List ℕ)
        → Frame w v
        → IsLog w (some fd)
        → w.terminate_already_called ≡ b
        → Ends
            (λ _ u. Frame w u)
            (assert_on p
              (suc (suc f))
              (wrote_all (p.result v.trace (write fd bs)) (length bs))
              none
              (record v { trace = write fd bs ∷ v.trace }))
    line-Ends w v fd bs q l h =
        Ends-mono {A = Unit} (λ _ u. Frame written u) (λ _ u. Frame w u)
          (assert_on p (suc (suc f)) (wrote_all (p.result v.trace (write fd bs)) (length bs)) none
            written)
          (assert_on-Ends _ written (flag-Frame w v q h))
          (λ _ u r. Frame-trans (Frame-trans q here) r)
      where
        written : World
        written = record v { trace = write fd bs ∷ v.trace }

        here : Frame v written
        here = Frame-write_log v fd bs (λ d n. IsLog-Frame w v (some fd) q l d fd n refl)

    pub write_log_on-Ends :
        (w v : World) (o : Option ℕ) (args : List Arg)
        → Frame w v
        → IsLog w o
        → w.terminate_already_called ≡ b
        → Ends (λ _ u. Frame w u) (write_log_on p (suc (suc (suc f))) o args v)
    unfolding terminate_on
    write_log_on-Ends w v none args q l h = q
    write_log_on-Ends w v (some fd) args q l h =
        Ends-and_then (λ _ u. Frame v u) _ (tid_prefix_on p (suc (suc f)) v) _
          (tid_prefix_on-Ends v (flag-Frame w v q h))
          λ prefix u r. line-Ends w u fd _ (Frame-trans q r) l h

    two_logs-Ends :
        (w : World) (args : List Arg) (second : World → Option ℕ)
        → ((v : World) → Frame w v → IsLog w (second v))
        → w.terminate_already_called ≡ b
        → Ends
            (λ _ u. Frame w u)
            (and_then
              (write_log_on p (suc (suc (suc f))) w.log_fd args w)
              (λ _ v. write_log_on p (suc (suc (suc f))) (second v) args v))
    two_logs-Ends w args second l h =
        Ends-and_then (λ _ u. Frame w u) (λ _ u. Frame w u)
          (write_log_on p (suc (suc (suc f))) w.log_fd args w) _
          (write_log_on-Ends w w w.log_fd args (Frame-refl w)
            (λ d fd n e g. n.not_log (e ∙ ap some g)) h)
          λ _ v q. write_log_on-Ends w v (second v) args q (l v q) h

    pub log_error_on-Ends :
        (w : World) (args : List Arg)
        → w.terminate_already_called ≡ b
        → Ends (λ _ u. Frame w u) (log_error_on p (suc (suc (suc (suc f)))) args w)
    unfolding terminate_on
    log_error_on-Ends w args h =
        two_logs-Ends w args (λ v. v.error_fd)
          (λ v q d fd n e g. ((IsNoLog-Frame w v d q).0 n).not_error (e ∙ ap some g)) h

    pub message_on-Ends :
        (w : World) (args : List Arg)
        → w.terminate_already_called ≡ b
        → Ends (λ _ u. Frame w u) (message_on p (suc (suc (suc (suc f)))) args w)
    unfolding terminate_on
    message_on-Ends w args h =
        two_logs-Ends w args (λ v. v.stdout_fd)
          (λ v q d fd n e g. ((IsNoLog-Frame w v d q).0 n).not_stdout (e ∙ ap some g)) h

    announce_on-Ends :
        (w : World) (msg : Option (List Arg)) (is_error : Bool)
        → w.terminate_already_called ≡ b
        → Ends (λ _ u. Frame w u) (announce_on p (suc (suc (suc (suc (suc f))))) msg is_error w)
    unfolding terminate_on
    announce_on-Ends w none is_error h = Frame-refl w
    announce_on-Ends w (some s) true h = log_error_on-Ends w s h
    announce_on-Ends w (some s) false h = message_on-Ends w s h

  -- A call of `terminate` that finds the flag set kills at once.
  terminate_again-Kills : (f : ℕ) → KillsAt (suc f) true
  unfolding terminate_on
  terminate_again-Kills f w h msg e = rw h (w.trace, refl)

  -- So the first call, which sets the flag, survives any failure of its own message.
  pub terminate_on-Kills :
      (f : ℕ) (b : Bool) → KillsAt (suc (suc (suc (suc (suc (suc (suc f))))))) b
  unfolding terminate_on
  terminate_on-Kills f true w h msg e = rw h (w.trace, refl)
  terminate_on-Kills f false w h msg e = rw h (
      Ends-and_then (λ _ u. Frame called u) _
        (announce_on p (suc (suc (suc (suc (suc (suc f)))))) msg e called) _
        (announce_on-Ends (suc f) true (terminate_again-Kills f) called msg e refl)
        λ _ v q. (fflush ∷ v.trace, refl))
    where
      called : World
      called = record w { terminate_already_called = true }
