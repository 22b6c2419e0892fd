-- ===== src/Platform/Calls.antt =====
-- What code has called, where it changes nothing else.
use dr_shadow_stack.Base.{◌≡◌, sym, ap, ◌∙◌, List, [], ◌++◌, append_assoc}
use dr_shadow_stack.Platform.{Syscall, World, steps}
use dr_shadow_stack.Platform.Post.{Frame}

-- The calls have been made, and nothing but the trace has changed.
pub record Called (cs : List Syscall) (w v : World) : Type 0 where
  pub same : v ≡ record w { trace = v.trace }
  pub made : steps v.trace ≡ cs ++ steps w.trace

pub Called-Frame : {w v : World} → Frame w v → Called [] w v
Called-Frame q = record { same = q.same; made = q.settled }

pub Called-trans :
    {w v u : World} (cs ds : List Syscall) → Called cs w v → Called ds v u → Called (ds ++ cs) w u
Called-trans {w} {v} {u} cs ds a b = record {
  same = b.same ∙ (λ i. record (a.same i) { trace = u.trace });
  made = b.made ∙ ap (◌++◌ ds) a.made ∙ sym (append_assoc ds cs (steps w.trace));
}
