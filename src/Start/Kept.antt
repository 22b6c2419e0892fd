-- ===== src/Start/Kept.antt =====
-- What main (shadow_stack.cpp) leaves alone: the log descriptors, so that an accepted connection stays
-- apart from them.
use dr_shadow_stack.Base.{ℕ, ◌≡◌, refl, sym, ◌∙◌, subst, some, List}
use dr_shadow_stack.Platform.{Platform, World, Syscall, accept}
use dr_shadow_stack.Platform.Post.{IsNoLog}

-- The log descriptors are as they were.
pub record Kept (w v : World) : Type 0 where
  pub same : v ≡ record w {
    trace = v.trace;
    environ = v.environ;
    is_multi_thread_or_process = v.is_multi_thread_or_process;
    setup_complete = v.setup_complete;
  }

pub Kept-refl : (w : World) → Kept w w
Kept-refl w = record { same = refl }

pub Kept-trans : {w v u : World} → Kept w v → Kept v u → Kept w u
Kept-trans {w} {v} {u} a b = record {
  same = b.same ∙ (λ i. record (a.same i) {
    trace = u.trace;
    environ = u.environ;
    is_multi_thread_or_process = u.is_multi_thread_or_process;
    setup_complete = u.setup_complete;
  });
}

pub Kept-same : {w v : World} → v ≡ record w { trace = v.trace } → Kept w v
Kept-same {w} {v} e = record {
  same = e ∙ (λ i. record w {
    trace = v.trace;
    environ = (sym e i).environ;
    is_multi_thread_or_process = (sym e i).is_multi_thread_or_process;
    setup_complete = (sym e i).setup_complete;
  });
}

-- The kernel gives an accepted connection a descriptor that is not in use.
abbrev pub Fresh : Platform → World → Type 0
Fresh p w = (h : List Syscall) (s fd : ℕ) → p.result h (accept s) ≡ some fd → IsNoLog w fd

pub Fresh-Kept : (p : Platform) (w v : World) → Kept w v → Fresh p w → Fresh p v
Fresh-Kept p w v k f h s fd e =
    let n = f h s fd e in
    subst (λ (x : World). IsNoLog x fd) (sym k.same)
      (record { not_log = n.not_log; not_stdout = n.not_stdout; not_error = n.not_error })
