-- ===== src/Lockstep/Counting.antt =====
-- How many steps the two processes of external mode make (dr_external_ss_events.cpp,
-- external_stack_server.cpp): each event costs the client two and the server one, and the bytes that
-- wait tell how far each of them is.
use dr_shadow_stack.Base.{
  ℕ, zero, suc, ◌+◌, ◌*◌, ◌≤◌, ◌≡◌, refl, sym, ap, ◌∙◌, subst, some, List, [], ◌∷◌, ◌++◌, take,
  length, arith, length-append, take-append, append_assoc,
}
use dr_shadow_stack.Platform.{Platform, World}
use dr_shadow_stack.Platform.Post.{Ends, IsNoLog}
use dr_shadow_stack.Message.{message_size, continue, header_only_message}
use dr_shadow_stack.Message.Codec.{length-header_only_message}
use dr_shadow_stack.Message.Events.{Stream, end, more}
use dr_shadow_stack.ShadowStack.{Event, returns_in}
use dr_shadow_stack.Client.{next_of}
use dr_shadow_stack.Client.Messages.{InRange, InRange-cons}
use dr_shadow_stack.Lockstep.{
  Session, open_event, Step, tells, hears, serves, Reach, start, later, init, written,
}
use dr_shadow_stack.Lockstep.Channel.{replies}
use dr_shadow_stack.Lockstep.Messages.{Tells, tell-Ends}
use dr_shadow_stack.Lockstep.Invariant.{Consistent, serves-Answered}
use dr_shadow_stack.Lockstep.Safety.{Reach-Consistent}
use dr_shadow_stack.Lockstep.Completion.{length-Stream}

module _ (p : Platform) where
  -- The bytes of so many messages.
  abbrev times : ℕ → ℕ
  times zero = 0
  times (suc k) = message_size p + times k

  times_lem : (k : ℕ) → times k ≡ message_size p * k
  times_lem zero = omega arith
  times_lem (suc k) = omega (arith, times_lem k)

  times_add : (k n : ℕ) → times (k + n) ≡ times k + times n
  times_add zero n =
      let e : 0 + n ≡ n = omega arith in
      let same : times (0 + n) ≡ times n = ap times e in omega (arith, same)
  times_add (suc k) n =
      let e : suc k + n ≡ suc (k + n) = omega arith in
      let step : times (suc k + n) ≡ message_size p + times (k + n) = ap times e in
      omega (arith, step, times_add k n)

  times_inj : (k n : ℕ) → times k ≡ times n → k ≡ n
  times_inj zero zero h = refl
  times_inj zero (suc n) h = absurd (omega (arith, h))
  times_inj (suc k) zero h = absurd (omega (arith, h))
  times_inj (suc k) (suc n) h = ap suc (times_inj k n (omega (arith, h)))

  length-whole : (es : List Event) {bs : List ℕ} → Stream p [] es bs → length bs ≡ times (length es)
  length-whole [] (end z) = ap length z
  length-whole (e ∷ es) (more _ chunk mid c i st) =
      omega (arith, ap length i, length-append chunk mid, c.full, length-whole es st)

  length-replies : (k : ℕ) → length (replies p k) ≡ times k
  length-replies zero = refl
  length-replies (suc k) = omega (
    arith,
    length-append (replies p k) (header_only_message p continue),
    length-header_only_message p continue,
    length-replies k,
  )

  -- What an event costs before its message is sent, in bytes of messages.
  abbrev cost : List Event → ℕ
  cost [] = 0
  cost (e ∷ es) = times 3 + cost es

  cost_lem : (es : List Event) → cost es ≡ times (3 * length es)
  cost_lem [] = refl
  cost_lem (e ∷ es) =
      let three : 3 * suc (length es) ≡ 3 + 3 * length es = omega arith in
      ap (λ n. times 3 + n) (cost_lem es) ∙ sym (times_add 3 (3 * length es)) ∙ sym (ap times three)

  abbrev weight : Session → ℕ
  weight s = cost s.todo + times (length (open_event s.phase)) + length s.server.incoming

-- How many steps lead from one state to another.
abbrev pub count :
    {p : Platform} {env : List (List ℕ)} {sock sock' : ℕ} {s t : Session}
    → Reach p env sock sock' s t
    → ℕ
count start = 0
count (later r st) = suc (count r)

module _ (p : Platform) (env : List (List ℕ)) (entry : List ℕ) (sock sock' : ℕ) (es : List Event)
    (w v : World) (h : next_of env ≡ some entry) (range : InRange p es) (n : IsNoLog w sock)
    (m : IsNoLog v sock') where
  abbrev Begun : Session → Type 0
  Begun s = Reach p env sock sock' (init p env sock sock' es w v) s

  reach : {s : Session} → Begun s → Consistent p sock sock' es w.environ s
  reach r = Reach-Consistent p env entry sock sock' es w v h range n m r

  weight-Step :
      (s u : Session)
      → Consistent p sock sock' es w.environ s
      → Step p env sock sock' s u
      → weight p s ≡ message_size p + weight p u
  weight-Step s u c (tells e rest {w = x} ph td made) =
      let range = InRange-cons p e rest (subst (InRange p) td c.in_range) in
      let told : Tells p sock e s.client x =
        subst (Ends (λ _ y. Tells p sock e s.client y)) made
          (tell-Ends p sock env entry e s.client h range.0 c.client_apart) in
      omega (
        arith,
        length-append s.server.incoming (written sock s.client x),
        length-Stream p e _ told.spelled,
        ap (cost p) td,
        ap (λ f. times p (length (open_event f))) ph,
      )
  weight-Step s u c (hears e ph made) = omega (arith, ap (λ f. times p (length (open_event f))) ph)
  weight-Step s u c (serves chunk stk k {w = x} {v = y} got full made) =
      let (e, rest, _, _, (_, _, _, _, less)) =
        serves-Answered p env sock sock' es w.environ s chunk stk k x y got full made c in
      omega (arith, less)

  count-weight : {s : Session} (r : Begun s) → times p (count r) + weight p s ≡ cost p es
  count-weight start = omega arith
  count-weight (later {t = s} {u} r st) =
      omega (arith, count-weight r, weight-Step s u (reach r) st)

  -- On any kernel, with addresses that fit a pointer, an envp that has an entry whose name starts
  -- with DR_SS_ENV_FD and sockets that are no log descriptors: for every way in which client and
  -- server reach a state, there is a number of messages that the server has served. The steps made
  -- are two for each event that has passed, one for an event whose handler is waiting, and one for
  -- each message served, and so at most three for each event of the history. The bytes that wait for
  -- the server are those of the messages told and not yet served, and the bytes that wait for the
  -- client are those of one answer for each return served and not yet passed.
  pub count_lem :
      {s : Session} (r : Reach p env sock sock' (init p env sock sock' es w v) s)
      → (served : ℕ) × (count r ≡ 2 * length s.passed + length (open_event s.phase) + served)
        × (count r ≤ 3 * length es)
        × (length s.server.incoming + message_size p * served
            ≡ message_size p * (length s.passed + length (open_event s.phase)))
        × (length s.client.incoming + message_size p * returns_in s.passed
            ≡ message_size p * returns_in (take served es))
  count_lem {s} r =
      let c = reach r in
      let told = length s.passed + length (open_event s.phase) in
      let split : length c.handled + length c.pending ≡ told =
        sym (length-append c.handled c.pending)
        ∙ ap length c.split
        ∙ length-append s.passed (open_event s.phase) in
      let whole : length es ≡ told + length s.todo = omega (
        arith,
        ap length (sym c.whole),
        length-append s.passed (open_event s.phase ++ s.todo),
        length-append (open_event s.phase) s.todo,
      ) in
      let unread : length s.server.incoming ≡ times p (length c.pending) =
        length-whole p c.pending c.to_server in
      let spent : times p
            (count r + (3 * length s.todo + (length (open_event s.phase) + length c.pending)))
          ≡ times p (3 * length es) =
        omega (
          arith,
          count-weight r,
          cost_lem p es,
          cost_lem p s.todo,
          unread,
          times_add p (count r)
              (3 * length s.todo + (length (open_event s.phase) + length c.pending)),
          times_add p (3 * length s.todo) (length (open_event s.phase) + length c.pending),
          times_add p (length (open_event s.phase)) (length c.pending),
        ) in
      let counted = times_inj p _ _ spent in
      let front : take (length c.handled) es ≡ c.handled =
        ap (take (length c.handled)) (
          sym c.whole
          ∙ sym (append_assoc s.passed (open_event s.phase) s.todo)
          ∙ ap (λ xs. xs ++ s.todo) (sym c.split)
          ∙ append_assoc c.handled c.pending s.todo)
        ∙ take-append c.handled (c.pending ++ s.todo) refl in
      (
        length c.handled,
        omega (arith, counted, split, whole),
        omega (arith, counted, split, whole),
        omega (
          arith,
          unread,
          times_lem p (length c.handled),
          times_lem p told,
          ap (times p) (sym split),
          times_add p (length c.handled) (length c.pending),
        ),
        omega (
          arith,
          ap length c.to_client,
          length-replies p c.unheard,
          times_lem p (returns_in s.passed),
          times_lem p (returns_in (take (length c.handled) es)),
          ap (λ xs. times p (returns_in xs)) front,
          ap (times p) c.balance,
          times_add p (returns_in s.passed) c.unheard,
        ),
      )
