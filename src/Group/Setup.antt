-- ===== src/Group/Setup.antt =====
-- What Group::setup (group.cpp) has done when it returns, and that it is done once.
use dr_shadow_stack.Base.{
  ℕ, zero, suc, ◌≡◌, refl, ap, ◌∙◌, Bool, true, false, not, ◌&&◌, Option, none, some, List, [], ◌∷◌,
  ◌++◌, if◌then◌else◌, ◌==◌, append-nil,
}
use dr_shadow_stack.Text.{text}
use dr_shadow_stack.Platform.{
  Platform, World, Syscall, default_signal_handler, setsid, getpgrp, signal, steps, and_then, skip,
}
use dr_shadow_stack.Platform.Calls.{Called, Called-Frame, Called-trans}
use dr_shadow_stack.Platform.Post.{
  Ends, Kills, Frame, Frame-refl, Ends-and_then, Ends-if, Ends-mono, Ends-of_Kills, Kills-and_then,
}
use dr_shadow_stack.Runtime.{terminate, log, log_error, destroy, disable}
use dr_shadow_stack.Runtime.Termination.{terminate-Kills, log-Ends, log_error-Ends}
use dr_shadow_stack.Group.{
  no_change, in_set, nsig, failed, einval, failure_report, check_changed, set_up_group,
  handle_signal, change_handler, change_handlers, set_default_signal_handler, setup,
}

-- The calls of the loop over `n` signals from `i` on, newest first.
unfoldable pub remapped : ℕ → ℕ → List Syscall
remapped zero i = []
remapped (suc n) i =
    remapped n (suc i) ++ (if in_set i no_change then [] else signal i default_signal_handler ∷ [])

module _ (p : Platform) where
  pub handle_signal-Kills : (sig : ℕ) (w : World) → Kills (handle_signal p sig w)
  unfolding handle_signal
  handle_signal-Kills sig w =
      Ends-and_then (λ _ v. Frame w v) _ (log_error p _ w) _ (log_error-Ends p _ w)
        λ _ v q. terminate-Kills p _ _ v

  -- What one round of the loop has called.
  abbrev change : ℕ → List Syscall
  change i = if in_set i no_change then [] else signal i default_signal_handler ∷ []

  check_changed-Ends :
      (i : ℕ) (r : Option ℕ) (w : World) → Ends (λ _ v. Frame w v) (check_changed p i r w)
  unfolding check_changed
  check_changed-Ends i r w =
      Ends-if (λ _ v. Frame w v) (failed r && not (p.errno w.trace == einval)) _ _ w
        (λ bad.
          Ends-and_then (λ _ v. Frame w v) _ (log_error p (failure_report p i w) w) _
            (log_error-Ends p (failure_report p i w) w)
            λ _ v q. Ends-of_Kills (λ _ u. Frame w u) _ (terminate-Kills p none true v))
        λ good. Frame-refl w

  change_handler-Ends :
      (i : ℕ) (w : World) → Ends (λ _ v. Called (change i) w v) (change_handler p i w)
  unfolding change_handler steps
  change_handler-Ends i w =
      Ends-if (λ _ v. Called (change i) w v) (in_set i no_change) skip
        (λ v. check_changed p i (p.result v.trace (signal i default_signal_handler)) (called v)) w
        (λ e. rw e (Called-Frame (Frame-refl w)))
        λ e.
          Ends-mono _ _
            (check_changed p i (p.result w.trace (signal i default_signal_handler)) (called w))
            (check_changed-Ends i _ (called w))
            λ _ v q. rw e (record { same = q.same; made = q.settled })
    where
      called : World → World
      called v = record v { trace = signal i default_signal_handler ∷ v.trace }

  change_handlers-Ends :
      (n i : ℕ) (w : World) → Ends (λ _ v. Called (remapped n i) w v) (change_handlers p n i w)
  unfolding change_handlers remapped
  change_handlers-Ends zero i w = Called-Frame (Frame-refl w)
  change_handlers-Ends (suc n) i w =
      Ends-and_then _ _ (change_handler p i w) _ (change_handler-Ends i w) λ _ v a.
        Ends-mono _ _ (change_handlers p n (suc i) v) (change_handlers-Ends n (suc i) v)
          λ _ u b. Called-trans (change i) (remapped n (suc i)) a b

  -- What the first branch of `Group::setup` has done.
  set_up_group-Ends :
      (w : World)
      → Ends
          (λ _ v.
            (v ≡ record w { trace = v.trace; setup_complete = true })
            × (steps v.trace ≡ remapped nsig 1 ++ getpgrp ∷ setsid ∷ steps w.trace))
          (set_up_group p w)
  unfolding set_up_group set_default_signal_handler steps
  set_up_group-Ends w =
      Ends-and_then (λ _ v. Frame started v) _ (log p _ started) _ (log-Ends p _ started)
        λ _ v q.
          Ends-and_then (λ _ u. Called (remapped nsig 1) v u) _ (change_handlers p nsig 1 v) _
            (change_handlers-Ends nsig 1 v)
            λ _ u c.
              Ends-mono (λ _ x. Frame u x) _ (log p _ u) (log-Ends p _ u) λ _ x r. done v u x q c r
    where
      started : World
      started = record w { trace = getpgrp ∷ setsid ∷ w.trace; setup_complete = true }

      done :
          (v u x : World)
          → Frame started v
          → Called (remapped nsig 1) v u
          → Frame u x
          → (x ≡ record w { trace = x.trace; setup_complete = true })
            × (steps x.trace ≡ remapped nsig 1 ++ getpgrp ∷ setsid ∷ steps w.trace)
      done v u x q c r =
          let all : Called (remapped nsig 1 ++ []) started x =
            Called-trans (remapped nsig 1 ++ []) []
              (Called-trans [] (remapped nsig 1) (Called-Frame q) c) (Called-Frame r) in
          (
            all.same,
            all.made
                ∙ ap (λ cs. cs ++ getpgrp ∷ setsid ∷ steps w.trace) (append-nil (remapped nsig 1)),
          )

  -- On any kernel: Group::setup ends, by a return or with the group killed. If it returns, it had
  -- not been called before, it has set its flag and changed nothing else, and its calls, apart from
  -- logging, are setsid, getpgrp and one call of signal for each number from 1 to _NSIG that is not
  -- in no_change, in this order.
  pub group_setup-Ends :
      (w : World)
      → Ends
          (λ _ v.
            (w.setup_complete ≡ false)
            × (v ≡ record w { trace = v.trace; setup_complete = true })
            × (steps v.trace ≡ remapped nsig 1 ++ getpgrp ∷ setsid ∷ steps w.trace))
          (setup p w)
  unfolding setup destroy disable
  group_setup-Ends w = go w.setup_complete refl
    where
      Set : World → Type 0
      Set v =
          (w.setup_complete ≡ false)
          × (v ≡ record w { trace = v.trace; setup_complete = true })
          × (steps v.trace ≡ remapped nsig 1 ++ getpgrp ∷ setsid ∷ steps w.trace)

      go :
          (b : Bool)
          → w.setup_complete ≡ b
          → Ends
              (λ _ v. Set v)
              (and_then
                ((if not b
                    then set_up_group p
                    else terminate p
                        (some (
                          text "ERROR: setup is complete already.\n\tTerminating program...\n"
                          ∷ []))
                        true)
                  w)
                (λ _. skip))
      go true e = Kills-and_then _ (terminate p _ true w) _ (terminate-Kills p _ true w)
      go false e =
          Ends-and_then _ (λ _ v. Set v) (set_up_group p w) _ (set_up_group-Ends w)
            λ _ v q. (e, q.0, q.1)

  -- On any kernel: after a Group::setup that has returned, a second one ends with the group killed.
  pub group_setup-setup : (w : World) → Ends (λ _ v. Kills (setup p v)) (setup p w)
  unfolding setup
  group_setup-setup w = Ends-mono _ _ (setup p w) (group_setup-Ends w) λ _ v q.
      Ends-mono _ _ (setup p v) (group_setup-Ends v)
        λ _ u r. not_both (r.0) (ap (λ (x : World). x.setup_complete) q.1)
    where
      not_both : {b : Bool} → b ≡ false → b ≡ true → ⊥
      not_both e f = cc
