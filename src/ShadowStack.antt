-- ===== src/ShadowStack.antt =====
-- What both modes promise (README.md): an abstract shadow stack over the events of one thread, a
-- specification that names no process, socket or message. The modes are compared with it.
pub mod Nesting
pub mod Steps
use dr_shadow_stack.Base.{
  ℕ, suc, Bool, Option, none, some, List, [], ◌∷◌, ◌==◌, ◌||◌, if◌then◌else◌,
}

-- A call with its return address, a return with its target, a signal's delivery, an exec.
pub data Event : Type 0 where
  call : ℕ → Event
  ret : ℕ → Event
  signal : Event
  execve : Event

-- An entry allows a return to its own address, the wildcard to any.
unfoldable pub allows : ℕ → ℕ → ℕ → Bool
allows wildcard top target = top == target || top == wildcard

unfoldable pub check : ℕ → List ℕ → Event → Option (List ℕ)
unfolding allows
check wildcard stk (call a) = some (a ∷ stk)
check wildcard [] (ret a) = none
check wildcard (top ∷ stk) (ret a) = if allows wildcard top a then some stk else none
check wildcard stk signal = some (wildcard ∷ stk)
check wildcard stk execve = some []

-- The stack after a history, `none` if one of its returns is not allowed.
unfoldable pub run : ℕ → List ℕ → List Event → Option (List ℕ)
run wildcard stk [] = some stk
run wildcard stk (e ∷ es) = elim (check wildcard stk e) [
  | none ↦ none
  | some stk' ↦ run wildcard stk' es
]

-- How many returns a history holds: each is answered once.
unfoldable pub returns_in : List Event → ℕ
returns_in [] = 0
returns_in (ret a ∷ es) = suc (returns_in es)
returns_in (_ ∷ es) = returns_in es
