-- ===== src/Internal/Stacks.antt =====
-- The threads' shadow stacks in internal mode (dr_internal_ss_events.cpp), and what it is for a handler to
-- have made the abstract step of its event.
use dr_shadow_stack.Base.{ℕ, ◌≡◌, ◌≢◌, sym, ap, ◌∙◌, Option, none, some, List, [], arith, ==_refl}
use dr_shadow_stack.Platform.{Platform, World}
use dr_shadow_stack.Platform.Post.{Frame}
use dr_shadow_stack.Message.{wildcard}
use dr_shadow_stack.ShadowStack.{Event, check}
use dr_shadow_stack.Internal.{update}

abbrev pub stack_in : Option (List ℕ) → List ℕ
stack_in none = []
stack_in (some s) = s

-- The thread's shadow stack; a thread that has none yet has an empty one.
abbrev pub stack_of : World → ℕ → List ℕ
stack_of w t = stack_in (w.tls t)

-- The thread's field holds the stack `s`; nothing but the trace and this field has changed.
pub record Holds (t : ℕ) (s : List ℕ) (w v : World) : Type 0 where
  pub only : v ≡ record w { trace = v.trace; tls = v.tls }
  pub here : v.tls t ≡ some s
  pub others : (u : ℕ) → t ≢ u → v.tls u ≡ w.tls u

-- The thread has made the abstract step.
pub record Stepped (p : Platform) (t : ℕ) (e : Event) (w v : World) : Type 0 where
  pub only : v ≡ record w { trace = v.trace; tls = v.tls }
  pub made : check (wildcard p) (stack_of w t) e ≡ some (stack_of v t)
  pub others : (u : ℕ) → t ≢ u → v.tls u ≡ w.tls u

pub update_self : (f : ℕ → Option (List ℕ)) (t : ℕ) (s : List ℕ) → update f t s t ≡ some s
update_self f t s = rw (==_refl t)

pub update_other : (f : ℕ → Option (List ℕ)) (t u : ℕ) (s : List ℕ) → t ≢ u → update f t s u ≡ f u
update_other f t u s h = ground arith

pub Holds-Frame : {t : ℕ} {s : List ℕ} {w v u : World} → Holds t s w v → Frame v u → Holds t s w u
Holds-Frame {t} {s} {w} {v} {u} h q = record {
  only =
      q.same
      ∙ (λ i. record (h.only i) { trace = u.trace })
      ∙ (λ i. record w { trace = u.trace; tls = tls_same (sym q.same) i });
  here = ap (λ f. f t) (tls_same q.same) ∙ h.here;
  others = λ x n. ap (λ f. f x) (tls_same q.same) ∙ h.others x n;
}
  where
    tls_same : {a b : World} → a ≡ b → a.tls ≡ b.tls
    tls_same e = ap (λ (x : World). x.tls) e

pub Frame-Holds : {t : ℕ} {s : List ℕ} {w v u : World} → Frame w v → Holds t s v u → Holds t s w u
Frame-Holds {t} {s} {w} {v} {u} q h = record {
  only = h.only ∙ (λ i. record (q.same i) { trace = u.trace; tls = u.tls });
  here = h.here;
  others = λ x n. h.others x n ∙ ap (λ (y : World). y.tls x) q.same;
}

pub Holds-store :
    {t : ℕ} {s : List ℕ} {w v : World} (s' : List ℕ)
    → Holds t s w v
    → Holds t s' w (record v { tls = update v.tls t s' })
Holds-store {t} {s} {w} {v} s' h = record {
  only = λ i. record (h.only i) { tls = update v.tls t s' };
  here = update_self v.tls t s';
  others = λ u n. update_other v.tls t u s' n ∙ h.others u n;
}
