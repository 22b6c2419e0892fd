-- ===== src/Runtime/Termination.antt =====
-- Logging, error checks and `Group::terminate` (utilities.cpp, group.cpp) call one another, yet every
-- call of them ends: by a return that changed nothing but the trace, or with the group killed.
use dr_shadow_stack.Base.{
  min, take, drop, ℕ, ◌≡◌, refl, ◌∙◌, ap, Bool, true, false, Option, none, some, List, ◌∷◌,
}
use dr_shadow_stack.Text.{Arg}
use dr_shadow_stack.Platform.{deliver, M, Platform, World, recv, receive, returns, skip, and_then}
use dr_shadow_stack.Platform.Post.{
  Ends, Kills, Frame, Frame-refl, Ends-and_then, Kills-and_then, Ends-if, Ends-of_Kills,
}
use dr_shadow_stack.Runtime.{
  terminate_on, log_error_on, terminate, err, assert, log, log_error, message, verbose_log,
}
use dr_shadow_stack.Runtime.Fuel.{
  write_log_on-Ends, log_error_on-Ends, message_on-Ends, terminate_on-Kills,
}

module _ (p : Platform) where
  -- On any kernel and from any state, with a message or without: Group::terminate ends with the
  -- group killed, also where its own logging fails and calls it again.
  pub terminate-Kills :
      (msg : Option (List Arg)) (e : Bool) (w : World) → Kills (terminate p msg e w)
  unfolding terminate
  terminate-Kills msg e w = terminate_on-Kills p 9 w.terminate_already_called w refl msg e

  -- On any kernel and from any state, with a message or without: Utilities::err ends with the group
  -- killed.
  pub err-Kills : (s : Option (List Arg)) (w : World) → Kills (err p s w)
  unfolding err terminate_on
  err-Kills none w = terminate_on-Kills p 8 _ w refl none true
  err-Kills (some s) w =
      Ends-and_then (λ _ u. Frame w u) _ (log_error_on p 15 _ w) _
        (log_error_on-Ends p 11 w.terminate_already_called (terminate_on-Kills p 4 _) w _ refl)
        λ _ v q. terminate_on-Kills p 8 _ v refl none true

  pub assert-false : (s : Option (List Arg)) (w : World) → Kills (assert p false s w)
  unfolding assert terminate_on
  assert-false none w = terminate_on-Kills p 7 _ w refl none true
  assert-false (some s) w =
      Ends-and_then (λ _ u. Frame w u) _ (log_error_on p 14 _ w) _
        (log_error_on-Ends p 10 w.terminate_already_called (terminate_on-Kills p 3 _) w _ refl)
        λ _ v q. terminate_on-Kills p 7 _ v refl none true

  pub assert-true : (s : Option (List Arg)) (w : World) → assert p true s w ≡ returns tt w
  unfolding assert terminate_on
  assert-true s w = refl

  -- A check that does not kill has passed, and changes nothing.
  pub assert-Ends :
      (Q : Unit {0} → World → Type 0) (b : Bool) (s : Option (List Arg)) (w : World)
      → (b ≡ true → Q tt w)
      → Ends Q (assert p b s w)
  assert-Ends Q true s w h = rw (assert-true s w) (h refl)
  assert-Ends Q false s w h = Ends-of_Kills Q (assert p false s w) (assert-false s w)

  pub Ends-checked {ℓ} :
      {B : Type ℓ} (R : B → World → Type 0) (b : Bool) (s : Option (List Arg)) (w : World) (f : M B)
      → (b ≡ true → Ends R (f w))
      → Ends R (and_then (assert p b s w) (λ _. f))
  Ends-checked R true s w f h = rw (assert-true s w) (h refl)
  Ends-checked R false s w f h = Kills-and_then R (assert p false s w) _ (assert-false s w)

  -- recv fails, or it moves some of the waiting bytes to the buffer.
  abbrev pub after_recv : ℕ → ℕ → ℕ → World → World
  after_recv sock n k w = record w {
    trace = recv sock n ∷ w.trace;
    incoming = drop (min n k) w.incoming;
  }

  pub Ends-receive {ℓ} :
      {B : Type ℓ} (R : B → World → Type 0) (sock n : ℕ) (w : World) (f : Option (List ℕ) → M B)
      → Ends R (f none (record w { trace = recv sock n ∷ w.trace }))
      → ((k : ℕ)
          → p.result w.trace (recv sock n) ≡ some k
          → Ends R (f (some (take (min n k) w.incoming)) (after_recv sock n k w)))
      → Ends R (and_then (receive p sock n w) f)
  Ends-receive R sock n w f failed received = go (p.result w.trace (recv sock n)) refl
    where
      go :
          (o : Option ℕ)
          → p.result w.trace (recv sock n) ≡ o
          → Ends R (and_then (deliver sock n o w) f)
      go none e = failed
      go (some k) e = received k e

  pub log-Ends : (args : List Arg) (w : World) → Ends (λ _ u. Frame w u) (log p args w)
  unfolding log
  log-Ends args w =
      write_log_on-Ends p 13 w.terminate_already_called (terminate_on-Kills p 6 _) w w w.log_fd args
        (Frame-refl w) (λ d fd n e g. n.not_log (e ∙ ap some g)) refl

  -- On any kernel: log_error ends, by a return or with the group killed. If it returns, nothing but
  -- the list of calls made has changed, and nothing was written to a descriptor other than those of
  -- the logs.
  pub log_error-Ends : (args : List Arg) (w : World) → Ends (λ _ u. Frame w u) (log_error p args w)
  unfolding log_error
  log_error-Ends args w =
      log_error_on-Ends p 12 w.terminate_already_called (terminate_on-Kills p 5 _) w args refl

  pub message-Ends : (args : List Arg) (w : World) → Ends (λ _ u. Frame w u) (message p args w)
  unfolding message
  message-Ends args w =
      message_on-Ends p 12 w.terminate_already_called (terminate_on-Kills p 5 _) w args refl

  pub verbose_log-Ends :
      (args : List Arg) (w : World) → Ends (λ _ u. Frame w u) (verbose_log p args w)
  unfolding verbose_log
  verbose_log-Ends args w =
      Ends-if (λ _ u. Frame w u) p.verbose (log p args) skip w (λ e. log-Ends args w)
        (λ e. Frame-refl w)
