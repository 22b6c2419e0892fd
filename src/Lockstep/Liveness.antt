-- ===== src/Lockstep/Liveness.antt =====
-- The two processes of external mode on a kernel whose calls succeed: one of them can always go on,
-- until the history is over or the server kills the group (dr_external_ss_events.cpp,
-- external_stack_server.cpp).
use dr_shadow_stack.Base.{
  ℕ, ◌+◌, ◌≡◌, refl, sym, ap, ◌∙◌, subst, none, some, List, [], ◌∷◌, ◌++◌, inl, inr, arith,
  append_assoc, append-nil, Option-cases,
}
use dr_shadow_stack.Platform.{Platform}
use dr_shadow_stack.Platform.Post.{Returns-inv}
use dr_shadow_stack.Runtime.Logging.{Works}
use dr_shadow_stack.Environment.{getenv, dr_ss_env_fd}
use dr_shadow_stack.Message.{wildcard}
use dr_shadow_stack.Message.Events.{Stream, end}
use dr_shadow_stack.ShadowStack.{Event, check, run, returns_in}
use dr_shadow_stack.Server.{dispatch}
use dr_shadow_stack.Lockstep.Channel.{returns_in-append}
use dr_shadow_stack.ShadowStack.Nesting.{run-append, run-stop}
use dr_shadow_stack.Client.{next_of}
use dr_shadow_stack.Lockstep.{
  call_correct_function, Session, Phase, running, answering, open_event, Step, tells, hears, serves,
  tell, hear,
}
use dr_shadow_stack.Lockstep.Channel.{replies}
use dr_shadow_stack.Lockstep.Invariant.{Consistent}
use dr_shadow_stack.Lockstep.Rounds.{RoundKills, serve-Returns, serve-RoundKills}
use dr_shadow_stack.Lockstep.Progress.{tell-Returns, hear-Returns}

-- The program has made all its events, and nothing is on the wire.
pub record IsFinal (s : Session) : Type 0 where
  pub rested : s.phase ≡ running
  pub finished : s.todo ≡ []
  pub server_read : s.server.incoming ≡ []
  pub client_read : s.client.incoming ≡ []

-- How a session goes on, given whether the abstract shadow stack rejects its history.
pub data Next (p : Platform) (env : List (List ℕ)) (sock sock' : ℕ) (rejected : Type 0)
    (s : Session) : Type 0 where
  final : IsFinal s → Next p env sock sock' rejected s
  goes_on : (u : Session) → Step p env sock sock' s u → Next p env sock sock' rejected s
  kills :
      rejected → RoundKills p sock' s.handlers s.stack s.server → Next p env sock sock' rejected s

module _ (p : Platform) (ok : Works p) (env : List (List ℕ)) (entry fd : List ℕ) (sock sock' : ℕ)
    (es : List Event) (vars : List (List ℕ × List ℕ)) (h : next_of env ≡ some entry)
    (g : getenv dr_ss_env_fd vars ≡ some fd) where
  abbrev OnStep : Session → Type 0
  OnStep s = Next p env sock sock' (run (wildcard p) [] es ≡ none) s

  serves-step :
      (s : Session) (e : Event) (rest : List Event) (stk : List ℕ)
      → Consistent p sock sock' es vars s
      → Stream p [] (e ∷ rest) s.server.incoming
      → check (wildcard p) s.stack e ≡ some stk
      → OnStep s
  serves-step s e rest stk c st step =
      let r = serve-Returns p ok sock' e rest s.stack stk s.server c.server_apart st step in
      goes_on _ (
        serves r.chunk stk call_correct_function r.got r.full
          (ap (λ hs. dispatch p hs s.stack r.chunk sock' r.read) c.mapped ∙ r.made))

  -- What is still to be checked, against the server's stack.
  unread_lem :
      (s : Session) (c : Consistent p sock sock' es vars s)
      → run (wildcard p) s.stack (c.pending ++ s.todo) ≡ run (wildcard p) [] es
  unread_lem s c =
      sym (run-append (wildcard p) [] s.stack c.handled (c.pending ++ s.todo) c.made)
      ∙ ap (run (wildcard p) []) (
          sym (append_assoc c.handled c.pending s.todo)
          ∙ ap (λ xs. xs ++ s.todo) c.split
          ∙ append_assoc s.passed (open_event s.phase) s.todo
          ∙ c.whole)

  -- The client goes on when the server has read all.
  client-step :
      (s : Session) (c : Consistent p sock sock' es vars s)
      → c.pending ≡ []
      → s.server.incoming ≡ []
      → OnStep s
  unfolding returns_in
  client-step s c none_left quiet = go s.phase s.todo refl refl
    where
      told : (f : Phase) → s.phase ≡ f → c.handled ≡ s.passed ++ open_event f
      told f ph =
          sym (append-nil c.handled)
          ∙ ap (λ xs. c.handled ++ xs) (sym none_left)
          ∙ c.split
          ∙ ap (λ f. s.passed ++ open_event f) ph

      due : (f : Phase) → s.phase ≡ f → c.unheard ≡ returns_in (open_event f) + 0
      due f ph =
          omega
            (arith, c.balance, ap returns_in (told f ph), returns_in-append s.passed (open_event f))

      go : (f : Phase) (xs : List Event) → s.phase ≡ f → s.todo ≡ xs → OnStep s
      go running [] ph td = final (record {
        rested = ph;
        finished = td;
        server_read = quiet;
        client_read =
            c.to_client
            ∙ ap (replies p) (let z : c.unheard ≡ 0 = omega (arith, due running ph) in z);
      })
      go running (e ∷ xs) ph td =
          let (_, v, made, _) = Returns-inv _ (tell p env sock e s.client) (
            tell-Returns p ok env sock entry fd e s.client h (ap (getenv dr_ss_env_fd) c.kept ∙ g)
              c.client_apart) in
          goes_on _ (tells e xs ph td made)
      go (answering e) xs ph td =
          let (_, v, made, _) = Returns-inv _ (hear p env sock e s.client) (
            hear-Returns p ok env sock e 0 s.client
              (c.to_client ∙ ap (replies p) (due (answering e) ph))) in
          goes_on _ (hears e ph made)

  -- A consistent state is final, or one of the two can go on, or the server kills the group.
  pub Consistent-step : (s : Session) → Consistent p sock sock' es vars s → OnStep s
  Consistent-step s c = go c.pending refl c.to_server
    where
      go : (xs : List Event) → c.pending ≡ xs → Stream p [] xs s.server.incoming → OnStep s
      go [] e (end quiet) = client-step s c e quiet
      go (x ∷ xs) e st = elim (Option-cases (check (wildcard p) s.stack x)) [
        | inl bad ↦
            kills
              (sym (unread_lem s c)
                ∙ ap (λ ys. run (wildcard p) s.stack (ys ++ s.todo)) e
                ∙ run-stop (wildcard p) s.stack x (xs ++ s.todo) bad)
              (subst (λ hs. RoundKills p sock' hs s.stack s.server) (sym c.mapped)
                (serve-RoundKills p ok sock' x xs s.stack s.server c.server_apart st bad))
        | inr (stk, step) ↦ serves-step s x xs stk c st step
      ]
