-- ===== src/Runtime/Failure.antt =====
-- A log line that cannot be written (Utilities::write_log of utilities.hpp, which checks its own write).
use dr_shadow_stack.Base.{
  ℕ, suc, ◌≡◌, ◌≢◌, refl, ap, Bool, true, false, none, some, Option, List, length, ◌==◌, Bool-cases,
  inl, inr, ==_iff,
}
use dr_shadow_stack.Text.{Arg}
use dr_shadow_stack.Platform.{Platform, World, Syscall, write}
use dr_shadow_stack.Platform.Post.{Kills, Frame, Ends-and_then, Kills-and_then}
use dr_shadow_stack.Runtime.{
  log, log_error, message, wrote_all, write_log_on, tid_prefix_on, assert_on, terminate_on,
}
use dr_shadow_stack.Runtime.Fuel.{tid_prefix_on-Ends, terminate_on-Kills}

-- No write is complete.
abbrev pub WritesFail : Platform → Type 0
WritesFail p =
    (h : List Syscall) (fd : ℕ) (bs : List ℕ) → p.result h (write fd bs) ≢ some (length bs)

module _ (p : Platform) (fails : WritesFail p) where
  not_wrote_all : (r : Option ℕ) (n : ℕ) → r ≢ some n → wrote_all r n ≡ false
  not_wrote_all none n h = refl
  not_wrote_all (some k) n h = elim (Bool-cases (k == n)) [
    | inl y ↦ absurd (h (ap some ((==_iff k n).0 y)))
    | inr z ↦ z
  ]

  failed_line-Kills :
      (f : ℕ) (c : Bool) (w : World)
      → c ≡ false
      → Kills (assert_on p (suc (suc (suc (suc (suc (suc (suc (suc (suc f))))))))) c none w)
  unfolding terminate_on
  failed_line-Kills f true w e = cc
  failed_line-Kills f false w e = terminate_on-Kills p f w.terminate_already_called w refl none true

  write_log_on-Kills :
      (f fd : ℕ) (o : Option ℕ) (args : List Arg) (w : World)
      → o ≡ some fd
      → Kills
          (write_log_on p (suc (suc (suc (suc (suc (suc (suc (suc (suc (suc f)))))))))) o args w)
  unfolding terminate_on
  write_log_on-Kills f fd none args w e = cc
  write_log_on-Kills f fd (some d) args w e =
      Ends-and_then (λ _ u. Frame w u) (λ _ _. ⊥)
        (tid_prefix_on p (suc (suc (suc (suc (suc (suc (suc (suc (suc f))))))))) w) _
        (tid_prefix_on-Ends p (suc (suc (suc (suc (suc (suc (suc f))))))) w.terminate_already_called
          (terminate_on-Kills p f _) w refl)
        λ prefix u r. failed_line-Kills f _ _ (not_wrote_all _ _ (fails u.trace d _))

  -- On a kernel on which no write is complete, in a process whose log is open: each of log,
  -- log_error and message ends with the group killed.
  pub log-Kills :
      (fd : ℕ) (args : List Arg) (w : World)
      → w.log_fd ≡ some fd
      → Kills (log p args w) × Kills (log_error p args w) × Kills (message p args w)
  unfolding log log_error message terminate_on
  log-Kills fd args w e = (
    write_log_on-Kills 6 fd w.log_fd args w e,
    Kills-and_then (λ _ _. ⊥) (write_log_on p 15 w.log_fd args w) _
        (write_log_on-Kills 5 fd w.log_fd args w e),
    Kills-and_then (λ _ _. ⊥) (write_log_on p 15 w.log_fd args w) _
        (write_log_on-Kills 5 fd w.log_fd args w e),
  )
