-- ===== src/DrClient/Instrumented.antt =====
-- From the target's instructions to the verdict: what event_app_instruction
-- (dr_shadow_stack_client.cpp) inserts makes every executed call and return an event of the mode.
use dr_shadow_stack.Base.{
  ℕ, ◌+◌, ◌%◌, ◌^◌, ◌≡◌, ◌≢◌, refl, sym, ap, ◌∙◌, subst, true, false, none, List, [], ◌∷◌, ◌++◌,
  map, arith, append_assoc,
}
use dr_shadow_stack.Platform.{Platform, World}
use dr_shadow_stack.Platform.Post.{Kills, Returns, IsNoLog}
use dr_shadow_stack.Runtime.Logging.{Works}
use dr_shadow_stack.Message.{wildcard}
use dr_shadow_stack.Message.Events.{Stream}
use dr_shadow_stack.ShadowStack.{Event, run, check, allows}
use dr_shadow_stack.ShadowStack.Nesting.{
  WellNested, HasNoExecve, done, frame, WellNested-run, run-append, run-step, run-stop,
  check-ret_not,
}
use dr_shadow_stack.ShadowStack.Steps.{not_allows}
use dr_shadow_stack.Server.{start_external_shadow_stack}
use dr_shadow_stack.Server.Verdict.{start_external_shadow_stack-Kills}
use dr_shadow_stack.Internal.{run_events}
use dr_shadow_stack.Internal.Stacks.{stack_of}
use dr_shadow_stack.Modes.{in_thread, in_thread-Kills}
use dr_shadow_stack.Protection.{in_thread-WellNested}
use dr_shadow_stack.DrClient.{
  Instr, Inserted, clean_call, mbr_instrumentation, event_app_instruction,
}

-- An executed instruction, with the address of the one that is executed next.
abbrev pub Executed : Type 0
Executed = Instr × ℕ

-- What the inserted code tells the handlers.
abbrev pub handler_event : ℕ → Inserted → Event
handler_event next (clean_call a) = Event.call a
handler_event next mbr_instrumentation = Event.ret next

module _ (p : Platform) where
  unfoldable pub events_in : List Executed → List Event
  events_in [] = []
  events_in ((i, next) ∷ is) = map (handler_event next) (event_app_instruction p i) ++ events_in is

  -- The address behind an instruction.
  abbrev pub address_after : Instr → ℕ
  address_after i = (i.app_pc + i.size) % 256 ^ p.pointer_size

  abbrev pub IsPlain : Instr → Type 0
  IsPlain i = (i.is_call ≡ false) × (i.is_return ≡ false)

  abbrev pub IsCall : Instr → Type 0
  IsCall i = (i.is_call ≡ true) × (i.is_return ≡ false)

  abbrev pub IsReturn : Instr → Type 0
  IsReturn i = (i.is_call ≡ false) × (i.is_return ≡ true)

  -- A part of an execution in which every return goes to the address behind its call.
  pub data Execution : List Executed → Type 0 where
    finished : Execution []
    plain :
        (i : Instr) (next : ℕ) (rest : List Executed) {is : List Executed}
        → IsPlain i
        → Execution rest
        → is ≡ (i, next) ∷ rest
        → Execution is
    subroutine :
        (i r : Instr) (next : ℕ) (body rest : List Executed) {is : List Executed}
        → IsCall i
        → IsReturn r
        → Execution body
        → Execution rest
        → is ≡ (i, next) ∷ (body ++ (r, address_after i) ∷ rest)
        → Execution is

  events_in-append : (xs ys : List Executed) → events_in (xs ++ ys) ≡ events_in xs ++ events_in ys
  unfolding events_in
  events_in-append [] ys = refl
  events_in-append ((i, next) ∷ xs) ys =
      ap (◌++◌ (map (handler_event next) (event_app_instruction p i))) (events_in-append xs ys)
      ∙ sym (
          append_assoc (map (handler_event next) (event_app_instruction p i)) (events_in xs)
            (events_in ys))

  events_in-plain :
      (i : Instr) (next : ℕ) (is : List Executed)
      → IsPlain i
      → events_in ((i, next) ∷ is) ≡ events_in is
  unfolding events_in event_app_instruction
  events_in-plain i next is h = rw (h.0, h.1) refl

  events_in-call :
      (i : Instr) (next : ℕ) (is : List Executed)
      → IsCall i
      → events_in ((i, next) ∷ is) ≡ Event.call (address_after i) ∷ events_in is
  unfolding events_in event_app_instruction
  events_in-call i next is h = rw (h.0, h.1) refl

  events_in-return :
      (i : Instr) (next : ℕ) (is : List Executed)
      → IsReturn i
      → events_in ((i, next) ∷ is) ≡ Event.ret next ∷ events_in is
  unfolding events_in event_app_instruction
  events_in-return i next is h = rw (h.0, h.1) refl

  -- A call, what is executed in it, and its return.
  events_in-frame :
      (i r : Instr) (next target : ℕ) (body rest : List Executed)
      → IsCall i
      → IsReturn r
      → events_in ((i, next) ∷ (body ++ (r, target) ∷ rest))
        ≡ Event.call (address_after i) ∷ (events_in body ++ Event.ret target ∷ events_in rest)
  events_in-frame i r next target body rest c h =
      events_in-call i next (body ++ (r, target) ∷ rest) c
      ∙ ap (◌∷◌ (Event.call (address_after i))) (
          events_in-append body ((r, target) ∷ rest)
          ∙ ap (◌++◌ (events_in body)) (events_in-return r target rest h))

  allows_self : (a : ℕ) → allows (wildcard p) a a ≡ true
  unfolding allows
  allows_self a = ground arith

  Execution-WellNested :
      {is : List Executed} → Execution is → WellNested (wildcard p) (events_in is)
  unfolding events_in
  Execution-WellNested finished = done
  Execution-WellNested (plain i next rest h x e) =
      subst (WellNested (wildcard p)) (sym (ap events_in e ∙ events_in-plain i next rest h))
        (Execution-WellNested x)
  Execution-WellNested (subroutine i r next body rest c h x y e) =
      frame (address_after i) (address_after i) (events_in body) (events_in rest)
        (allows_self (address_after i)) (Execution-WellNested x) (Execution-WellNested y)
        (ap events_in e ∙ events_in-frame i r next (address_after i) body rest c h)

  HasNoExecve-append :
      (es fs : List Event) → HasNoExecve es → HasNoExecve fs → HasNoExecve (es ++ fs)
  HasNoExecve-append [] fs h k = k
  HasNoExecve-append (Event.call a ∷ es) fs h k = HasNoExecve-append es fs h k
  HasNoExecve-append (Event.ret a ∷ es) fs h k = HasNoExecve-append es fs h k
  HasNoExecve-append (Event.signal ∷ es) fs h k = HasNoExecve-append es fs h k
  HasNoExecve-append (Event.execve ∷ es) fs h k = elim h [ ]

  HasNoExecve-handler_event :
      (next : ℕ) (xs : List Inserted) → HasNoExecve (map (handler_event next) xs)
  HasNoExecve-handler_event next [] = tt
  HasNoExecve-handler_event next (clean_call a ∷ xs) = HasNoExecve-handler_event next xs
  HasNoExecve-handler_event next (mbr_instrumentation ∷ xs) = HasNoExecve-handler_event next xs

  HasNoExecve-events_in : (is : List Executed) → HasNoExecve (events_in is)
  unfolding events_in
  HasNoExecve-events_in [] = tt
  HasNoExecve-events_in ((i, next) ∷ is) =
      HasNoExecve-append (map (handler_event next) (event_app_instruction p i)) (events_in is)
        (HasNoExecve-handler_event next (event_app_instruction p i)) (HasNoExecve-events_in is)

  -- A subroutine that returns to another address than the one behind its call.
  abbrev pub hijacked :
      List Executed → Instr → ℕ → List Executed → Instr → ℕ → List Executed → List Executed
  hijacked before i next body r target rest = before ++ (i, next) ∷ (body ++ (r, target) ∷ rest)

  module _ (ok : Works p) where
    -- On a kernel whose calls succeed, in a thread with an empty stack: when a target executes
    -- instructions of which every return goes to the address behind its call, internal mode handles
    -- all events of the inserted code and leaves the thread's stack empty.
    pub executed-Returns :
        (t : ℕ) (is : List Executed) (w : World)
        → Execution is
        → stack_of w t ≡ []
        → Returns (λ _ v. stack_of v t ≡ []) (run_events p (in_thread t (events_in is)) w)
    executed-Returns t is w x fresh =
        (in_thread-WellNested p ok t (events_in is) w (HasNoExecve-events_in is) fresh).1
          (Execution-WellNested x)

    pub hijacked-none :
        (before body rest : List Executed) (i r : Instr) (next target : ℕ)
        → Execution before
        → IsCall i
        → Execution body
        → IsReturn r
        → target ≢ address_after i
        → address_after i ≢ wildcard p
        → run (wildcard p) [] (events_in (hijacked before i next body r target rest)) ≡ none
    unfolding check
    hijacked-none before body rest i r next target x c y h other wild =
        ap (run (wildcard p) []) (
          events_in-append before _
          ∙ ap (◌++◌ (events_in before)) (events_in-frame i r next target body rest c h))
        ∙ run-append (wildcard p) [] [] (events_in before) _
            (WellNested-run (wildcard p) (Execution-WellNested x) [])
        ∙ run-step (wildcard p) [] (address_after i ∷ []) (Event.call (address_after i)) _ refl
        ∙ run-append (wildcard p) _ (address_after i ∷ []) (events_in body) _
            (WellNested-run (wildcard p) (Execution-WellNested y) (address_after i ∷ []))
        ∙ run-stop (wildcard p) (address_after i ∷ []) (Event.ret target) (events_in rest) (
            check-ret_not (wildcard p) (address_after i) target []
              (not_allows (wildcard p) (address_after i) target (ground arith) (ground arith)))

    -- On a kernel whose calls succeed: when a target executes instructions of which every return
    -- goes to the address behind its call, then a call, more such instructions, and a return to
    -- another address than the one behind this call, which is not the wildcard, then whatever comes
    -- after, the events of the inserted code make internal mode kill the group in a thread with an
    -- empty stack, and make the server kill it when their messages wait on a socket that is no log
    -- descriptor.
    pub hijacked-Kills :
        (t sock : ℕ) (before body rest : List Executed) (i r : Instr) (next target : ℕ)
        (w v : World)
        → Execution before
        → IsCall i
        → Execution body
        → IsReturn r
        → target ≢ address_after i
        → address_after i ≢ wildcard p
        → stack_of w t ≡ []
        → IsNoLog v sock
        → Stream p [] (events_in (hijacked before i next body r target rest)) v.incoming
        → Kills
            (run_events p (in_thread t (events_in (hijacked before i next body r target rest))) w)
          × Kills (start_external_shadow_stack p sock v)
    hijacked-Kills t sock before body rest i r next target w v x c y h other wild fresh n st =
        let es = events_in (hijacked before i next body r target rest) in
        let bad = hijacked-none before body rest i r next target x c y h other wild in
        (
          in_thread-Kills p ok t es w (ap (λ s. run (wildcard p) s es) fresh ∙ bad),
          start_external_shadow_stack-Kills p ok es sock v n st bad,
        )
