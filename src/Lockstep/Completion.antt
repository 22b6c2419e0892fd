-- ===== src/Lockstep/Completion.antt =====
-- Where the steps of the two processes of external mode lead
-- (dr_external_ss_events.cpp, external_stack_server.cpp).
use dr_shadow_stack.Base.{
  ℕ, zero, suc, ◌+◌, ◌<◌, ◌≡◌, refl, sym, ap, ◌∙◌, subst, some, List, [], ◌∷◌, ◌++◌, inl, inr, ◌⊎◌,
  none, length, arith, append-nil, length-append,
}
use dr_shadow_stack.Platform.{Platform, World}
use dr_shadow_stack.Platform.Post.{Ends, IsNoLog}
use dr_shadow_stack.Runtime.Logging.{Works}
use dr_shadow_stack.Environment.{getenv, dr_ss_env_fd}
use dr_shadow_stack.Message.{message_size, wildcard}
use dr_shadow_stack.Message.Events.{Stream, end, more}
use dr_shadow_stack.ShadowStack.{Event, run}
use dr_shadow_stack.Client.{next_of}
use dr_shadow_stack.Client.Messages.{InRange, InRange-cons}
use dr_shadow_stack.Lockstep.{
  Session, open_event, Step, tells, hears, serves, Reach, start, later, init, written,
}
use dr_shadow_stack.Lockstep.Messages.{Tells, tell-Ends}
use dr_shadow_stack.Lockstep.Invariant.{Consistent, serves-Answered}
use dr_shadow_stack.Lockstep.Safety.{Reach-Consistent}
use dr_shadow_stack.Lockstep.Rounds.{RoundKills}
use dr_shadow_stack.Lockstep.Liveness.{IsFinal, final, goes_on, kills, Consistent-step}

-- A message on its way counts for each of its bytes, an event for its message, its two halves.
abbrev cost : Platform → List Event → ℕ
cost p [] = 0
cost p (e ∷ es) = message_size p + 2 + cost p es

abbrev measure : Platform → Session → ℕ
measure p s = cost p s.todo + length (open_event s.phase) + length s.server.incoming

-- All events made and checked, or the server's next round kills the group.
abbrev pub Decided : Platform → ℕ → List Event → Session → Type 0
Decided p sock' es u =
    (IsFinal u × (u.passed ≡ es) × (run (wildcard p) [] es ≡ some u.stack))
    ⊎ (RoundKills p sock' u.handlers u.stack u.server × (run (wildcard p) [] es ≡ none))

pub length-Stream :
    (p : Platform) (e : Event) (bs : List ℕ) → Stream p [] (e ∷ []) bs → length bs ≡ message_size p
length-Stream p e bs (more _ chunk mid c i (end z)) =
    ap length (i ∙ ap (◌++◌ chunk) z ∙ append-nil chunk) ∙ c.full

module _ (p : Platform) (env : List (List ℕ)) (sock sock' : ℕ) where
  Reach-first :
      {s t u : Session}
      → Step p env sock sock' s t
      → Reach p env sock sock' t u
      → Reach p env sock sock' s u
  Reach-first st start = later start st
  Reach-first st (later r x) = later (Reach-first st r) x

  measure-Step :
      (es : List Event) (vars : List (List ℕ × List ℕ)) (entry : List ℕ) (s u : Session)
      → next_of env ≡ some entry
      → Consistent p sock sock' es vars s
      → Step p env sock sock' s u
      → measure p u < measure p s
  measure-Step es vars entry s u h c (tells e rest {w} ph td made) =
      let range = InRange-cons p e rest (subst (InRange p) td c.in_range) in
      let told : Tells p sock e s.client w =
        subst (Ends (λ _ v. Tells p sock e s.client v)) made
          (tell-Ends p sock env entry e s.client h range.0 c.client_apart) in
      omega (
        arith,
        length-append s.server.incoming (written sock s.client w),
        length-Stream p e _ told.spelled,
        ap (cost p) td,
        ap (λ f. length (open_event f)) ph,
      )
  measure-Step es vars entry s u h c (hears e ph made) =
      omega (arith, ap (λ f. length (open_event f)) ph)
  measure-Step es vars entry s u h c (serves chunk stk m {w} {v} got full made) =
      let (e, rest, _, _, (_, _, _, _, less)) =
        serves-Answered p env sock sock' es vars s chunk stk m w v got full made c in
      omega (arith, less)

  module _ (entry : List ℕ) (es : List Event) (w v : World) (h : next_of env ≡ some entry)
      (range : InRange p es) (n : IsNoLog w sock) (m : IsNoLog v sock') where
    abbrev begin : Session
    begin = init p env sock sock' es w v

    reach : {s : Session} → Reach p env sock sock' begin s → Consistent p sock sock' es w.environ s
    reach r = Reach-Consistent p env entry sock sock' es w v h range n m r

    -- Where nothing is left to do, the whole history has been made and checked.
    final-whole :
        (u : Session)
        → Consistent p sock sock' es w.environ u
        → IsFinal u
        → (u.passed ≡ es) × (run (wildcard p) [] es ≡ some u.stack)
    final-whole u c f =
        let passed : u.passed ≡ es =
          sym (append-nil u.passed)
          ∙ ap (λ xs. u.passed ++ xs) (sym f.finished)
          ∙ ap (λ x. u.passed ++ (open_event x ++ u.todo)) (sym f.rested)
          ∙ c.whole in
        let handled : c.handled ≡ es =
          sym (append-nil c.handled)
          ∙ ap (λ xs. c.handled ++ xs) (sym (nothing_unread c.pending c.to_server f.server_read))
          ∙ c.split
          ∙ ap (λ x. u.passed ++ open_event x) f.rested
          ∙ append-nil u.passed
          ∙ passed in
        (passed, ap (run (wildcard p) []) (sym handled) ∙ c.made)
      where
        nothing_unread : (xs : List Event) {bs : List ℕ} → Stream p [] xs bs → bs ≡ [] → xs ≡ []
        nothing_unread [] st e = refl
        nothing_unread (x ∷ xs) (more _ chunk mid k i st) e =
            absurd (omega (arith, ap length i, ap length e, length-append chunk mid, k.full))

    module _ (ok : Works p) (fd : List ℕ) (g : getenv dr_ss_env_fd w.environ ≡ some fd) where
      decides_on :
          (f : ℕ) (s : Session)
          → measure p s < f
          → Reach p env sock sock' begin s
          → (u : Session) × Reach p env sock sock' s u × Decided p sock' es u
      decides_on zero s less r = absurd (omega arith)
      decides_on (suc f) s less r =
          elim (Consistent-step p ok env entry fd sock sock' es w.environ h g s (reach r)) [
            | final done ↦
                let (passed, ran) = final-whole s (reach r) done in
                (s, start, inl (done, passed, ran))
            | goes_on u st ↦
                let shrinks = measure-Step es w.environ entry s u h (reach r) st in
                let (x, r', fin) = decides_on f u (omega (arith, shrinks, less)) (later r st) in
                (x, Reach-first st r', fin)
            | kills bad killed ↦ (s, start, inr (killed, bad))
          ]

      -- On a kernel whose calls succeed, with addresses that fit a pointer, an envp that has an
      -- entry whose name starts with DR_SS_ENV_FD, a value of DR_SS_ENV_FD at the client and sockets
      -- that are no log descriptors: from every state that client and server can reach together,
      -- they can go on to a state in which either all handlers of the history have returned, nothing
      -- is on the wire and the server's stack is the abstract one, or the server's next round kills
      -- the group and the abstract shadow stack does not accept the history.
      pub decides :
          {s : Session}
          → Reach p env sock sock' begin s
          → (u : Session) × Reach p env sock sock' s u × Decided p sock' es u
      decides {s} r = decides_on (suc (measure p s)) s (omega arith) r
