-- ===== src/Platform/Post.antt =====
-- Postconditions of an outcome, and how they compose along a sequence of steps.
use dr_shadow_stack.Base.{
  ℕ, ◌≡◌, ◌≢◌, refl, sym, subst, ◌∙◌, ◌↔◌, Bool, true, false, if◌then◌else◌, some, List, ◌∷◌,
}
use dr_shadow_stack.Platform.{
  Syscall, killpg, World, Outcome, returns, killed, exited, undefined, out_of_fuel, M, and_then,
  sent, steps,
}

-- The last call of a killed process is `killpg`.
abbrev pub EndsInKillpg : List Syscall → Type 0
EndsInKillpg t = (u : List Syscall) × (t ≡ killpg ∷ u)

-- The code ends, and does so by a return that meets `Q` or with the group killed.
abbrev pub Ends {ℓ} : {A : Type ℓ} → (A → World → Type 0) → Outcome A → Type 0
Ends Q (returns a w) = Q a w
Ends Q (killed w) = EndsInKillpg w.trace
Ends Q (exited n w) = ⊥
Ends Q (undefined w) = ⊥
Ends Q out_of_fuel = ⊥

abbrev pub Kills {ℓ} : {A : Type ℓ} → Outcome A → Type 0
Kills o = Ends (λ _ _. ⊥) o

-- The code returns, and the return meets `Q`.
abbrev pub Returns {ℓ} : {A : Type ℓ} → (A → World → Type 0) → Outcome A → Type 0
Returns Q (returns a w) = Q a w
Returns Q (killed w) = ⊥
Returns Q (exited n w) = ⊥
Returns Q (undefined w) = ⊥
Returns Q out_of_fuel = ⊥

module _ {ℓ κ} {A : Type ℓ} {B : Type κ} where
  pub Ends-and_then :
      (Q : A → World → Type 0) (R : B → World → Type 0) (m : Outcome A) (f : A → M B)
      → Ends Q m
      → ((a : A) (w : World) → Q a w → Ends R (f a w))
      → Ends R (and_then m f)
  Ends-and_then Q R (returns a w) f h k = k a w h
  Ends-and_then Q R (killed w) f h k = h
  Ends-and_then Q R (exited n v) f h k = elim h [ ]
  Ends-and_then Q R (undefined v) f h k = elim h [ ]
  Ends-and_then Q R out_of_fuel f h k = elim h [ ]

  pub Kills-and_then :
      (R : B → World → Type 0) (m : Outcome A) (f : A → M B) → Kills m → Ends R (and_then m f)
  Kills-and_then R (returns a w) f h = elim h [ ]
  Kills-and_then R (killed w) f h = h
  Kills-and_then R (exited n v) f h = elim h [ ]
  Kills-and_then R (undefined v) f h = elim h [ ]
  Kills-and_then R out_of_fuel f h = elim h [ ]

  pub Returns-and_then :
      (Q : A → World → Type 0) (R : B → World → Type 0) (m : Outcome A) (f : A → M B)
      → Returns Q m
      → ((a : A) (w : World) → Q a w → Returns R (f a w))
      → Returns R (and_then m f)
  Returns-and_then Q R (returns a w) f h k = k a w h
  Returns-and_then Q R (killed w) f h k = elim h [ ]
  Returns-and_then Q R (exited n v) f h k = elim h [ ]
  Returns-and_then Q R (undefined v) f h k = elim h [ ]
  Returns-and_then Q R out_of_fuel f h k = elim h [ ]

module _ {ℓ} {A : Type ℓ} where
  pub Ends-of_Kills : (R : A → World → Type 0) (m : Outcome A) → Kills m → Ends R m
  Ends-of_Kills R (returns a w) h = elim h [ ]
  Ends-of_Kills R (killed w) h = h
  Ends-of_Kills R (exited n v) h = elim h [ ]
  Ends-of_Kills R (undefined v) h = elim h [ ]
  Ends-of_Kills R out_of_fuel h = elim h [ ]

  pub Ends-mono :
      (Q R : A → World → Type 0) (m : Outcome A)
      → Ends Q m
      → ((a : A) (w : World) → Q a w → R a w)
      → Ends R m
  Ends-mono Q R (returns a w) h k = k a w h
  Ends-mono Q R (killed w) h k = h
  Ends-mono Q R (exited n v) h k = elim h [ ]
  Ends-mono Q R (undefined v) h k = elim h [ ]
  Ends-mono Q R out_of_fuel h k = elim h [ ]

  -- A branch, with the test's value at hand on either side.
  pub Ends-if :
      (Q : A → World → Type 0) (c : Bool) (m n : M A) (w : World)
      → (c ≡ true → Ends Q (m w))
      → (c ≡ false → Ends Q (n w))
      → Ends Q ((if c then m else n) w)
  Ends-if Q true m n w h k = h refl
  Ends-if Q false m n w h k = k refl

  pub Returns-if :
      (Q : A → World → Type 0) (c : Bool) (m n : M A) (w : World)
      → (c ≡ true → Returns Q (m w))
      → (c ≡ false → Returns Q (n w))
      → Returns Q ((if c then m else n) w)
  Returns-if Q true m n w h k = h refl
  Returns-if Q false m n w h k = k refl

  pub Returns-mono :
      (Q R : A → World → Type 0) (m : Outcome A)
      → Returns Q m
      → ((a : A) (w : World) → Q a w → R a w)
      → Returns R m
  Returns-mono Q R (returns a w) h k = k a w h
  Returns-mono Q R (killed w) h k = elim h [ ]
  Returns-mono Q R (exited n v) h k = elim h [ ]
  Returns-mono Q R (undefined v) h k = elim h [ ]
  Returns-mono Q R out_of_fuel h k = elim h [ ]

  pub Returns-inv :
      (Q : A → World → Type 0) (m : Outcome A)
      → Returns Q m
      → (a : A) × (w : World) × (m ≡ returns a w) × Q a w
  Returns-inv Q (returns a w) h = (a, w, refl, h)
  Returns-inv Q (killed w) h = elim h [ ]
  Returns-inv Q (exited n v) h = elim h [ ]
  Returns-inv Q (undefined v) h = elim h [ ]
  Returns-inv Q out_of_fuel h = elim h [ ]

  pub Ends-of_Returns : (Q : A → World → Type 0) (m : Outcome A) → Returns Q m → Ends Q m
  Ends-of_Returns Q (returns a w) h = h
  Ends-of_Returns Q (killed w) h = elim h [ ]
  Ends-of_Returns Q (exited n v) h = elim h [ ]
  Ends-of_Returns Q (undefined v) h = elim h [ ]
  Ends-of_Returns Q out_of_fuel h = elim h [ ]

  -- Code that returns meets whatever holds of its every end.
  pub Returns-of_Ends :
      (Q : A → World → Type 0) (m : Outcome A)
      → Returns (λ _ _. Unit {0}) m
      → Ends Q m
      → Returns Q m
  Returns-of_Ends Q (returns a w) r h = h
  Returns-of_Ends Q (killed w) r h = elim r [ ]
  Returns-of_Ends Q (exited n v) r h = elim r [ ]
  Returns-of_Ends Q (undefined v) r h = elim r [ ]
  Returns-of_Ends Q out_of_fuel r h = elim r [ ]

-- A descriptor that no log line goes to.
pub record IsNoLog (w : World) (fd : ℕ) : Type 0 where
  pub not_log : w.log_fd ≢ some fd
  pub not_stdout : w.stdout_fd ≢ some fd
  pub not_error : w.error_fd ≢ some fd

-- Logging changes the trace alone, sends nothing on other descriptors, and makes no other calls.
pub record Frame (w v : World) : Type 0 where
  pub same : v ≡ record w { trace = v.trace }
  pub apart : (fd : ℕ) → IsNoLog w fd → sent fd v.trace ≡ sent fd w.trace
  pub settled : steps v.trace ≡ steps w.trace

pub Frame-refl : (w : World) → Frame w w
Frame-refl w = record { same = refl; apart = λ fd h. refl; settled = refl }

pub IsNoLog-same :
    (w v : World) (fd : ℕ) → v ≡ record w { trace = v.trace } → IsNoLog w fd ↔ IsNoLog v fd
IsNoLog-same w v fd e = (
  λ h. subst (λ (u : World). IsNoLog u fd) (sym e) (copy w v.trace h),
  λ h. copy _ w.trace (subst (λ (u : World). IsNoLog u fd) e h),
)
  where
    copy : (u : World) (t : List Syscall) → IsNoLog u fd → IsNoLog (record u { trace = t }) fd
    copy u t h = record { not_log = h.not_log; not_stdout = h.not_stdout; not_error = h.not_error }

-- The same where bytes have been received too.
pub IsNoLog-moved :
    (w v : World) (fd : ℕ)
    → v ≡ record w { trace = v.trace; incoming = v.incoming }
    → IsNoLog w fd
    → IsNoLog v fd
IsNoLog-moved w v fd e h =
    subst (λ (u : World). IsNoLog u fd) (sym e)
      (record { not_log = h.not_log; not_stdout = h.not_stdout; not_error = h.not_error })

pub IsNoLog-Frame : (w v : World) (fd : ℕ) → Frame w v → IsNoLog w fd ↔ IsNoLog v fd
IsNoLog-Frame w v fd f = IsNoLog-same w v fd f.same

-- No descriptor has become a log's, and nothing has been written to one that is none.
abbrev pub Keeps : World → World → Type 0
Keeps w v = (fd : ℕ) → IsNoLog w fd → IsNoLog v fd × (sent fd v.trace ≡ sent fd w.trace)

pub Keeps-trans : {w v u : World} → Keeps w v → Keeps v u → Keeps w u
Keeps-trans a b fd k = let (x, d) = a fd k in let (y, e) = b fd x in (y, e ∙ d)

pub Keeps-Frame : {w v : World} → Frame w v → Keeps w v
Keeps-Frame {w} {v} q fd k = ((IsNoLog-Frame w v fd q).0 k, q.apart fd k)

-- A change of the trace by calls that write nothing, and of what logging does not look at.
pub Keeps-quiet :
    (w v : World)
    → v ≡ record w {
      trace = v.trace;
      environ = v.environ;
      is_multi_thread_or_process = v.is_multi_thread_or_process;
    }
    → ((fd : ℕ) → sent fd v.trace ≡ sent fd w.trace)
    → Keeps w v
Keeps-quiet w v e q fd k = (
  subst (λ (u : World). IsNoLog u fd) (sym e)
      (record { not_log = k.not_log; not_stdout = k.not_stdout; not_error = k.not_error }),
  q fd,
)

pub Frame-trans : {w v u : World} → Frame w v → Frame v u → Frame w u
Frame-trans {w} {v} {u} f g = record {
  same = g.same ∙ both;
  apart = λ fd h. g.apart fd ((IsNoLog-Frame w v fd f).0 h) ∙ f.apart fd h;
  settled = g.settled ∙ f.settled;
}
  where
    both : record v { trace = u.trace } ≡ record w { trace = u.trace }
    both = λ i. record (f.same i) { trace = u.trace }
