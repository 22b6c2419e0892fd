-- ===== src/Lockstep/Invariant.antt =====
-- The invariant of the two processes of external mode (dr_external_ss_events.cpp,
-- external_stack_server.cpp): what is on the wire between them at any time.
use dr_shadow_stack.Base.{
  length-append, take-append-drop, ℕ, ◌+◌, ◌≡◌, refl, sym, ap, ◌∙◌, subst, some, List, [], ◌∷◌,
  ◌++◌, take, drop, length, arith, append_assoc, append-nil,
}
use dr_shadow_stack.Platform.{Platform, World, returns, receive}
use dr_shadow_stack.Platform.Post.{Ends, IsNoLog, IsNoLog-same, IsNoLog-moved}
use dr_shadow_stack.Message.{message_size, wildcard}
use dr_shadow_stack.Message.Events.{Stream}
use dr_shadow_stack.ShadowStack.{check, Event, run, returns_in}
use dr_shadow_stack.ShadowStack.Nesting.{run-step, run-append, run-nil}
use dr_shadow_stack.Server.Handlers.{Served}
use dr_shadow_stack.Server.Answer.{dispatch-Answered}
use dr_shadow_stack.Server.{call_correct_function, dispatch}
use dr_shadow_stack.Client.{next_of}
use dr_shadow_stack.Client.Messages.{InRange, InRange-cons}
use dr_shadow_stack.Lockstep.{
  HandlerMap, Session, running, answering, open_event, tell, hear, written,
}
use dr_shadow_stack.Lockstep.Channel.{
  replies_add, first_pending, receive_whole, run_without_returns, returns_in-append, Stream-append,
  replies,
}
use dr_shadow_stack.Lockstep.Messages.{written_lem, hear-Ends, Hears, Tells, tell-Ends}

-- The server has read the messages of `handled`, and those of `pending` wait for it. `unheard`
-- answers wait for the client. `es` is what the program does in all.
pub record Consistent (p : Platform) (sock sock' : ℕ) (es : List Event)
    (vars : List (List ℕ × List ℕ)) (s : Session) : Type 0 where
  pub handled : List Event
  pub pending : List Event
  pub unheard : ℕ
  pub whole : s.passed ++ (open_event s.phase ++ s.todo) ≡ es
  pub split : handled ++ pending ≡ s.passed ++ open_event s.phase
  pub made : run (wildcard p) [] handled ≡ some s.stack
  pub mapped : s.handlers ≡ call_correct_function
  pub to_server : Stream p [] pending s.server.incoming
  pub to_client : s.client.incoming ≡ replies p unheard
  pub balance : returns_in handled ≡ returns_in s.passed + unheard
  pub allowed : (stk : List ℕ) × (run (wildcard p) [] s.passed ≡ some stk)
  pub client_apart : IsNoLog s.client sock
  pub server_apart : IsNoLog s.server sock'
  pub in_range : InRange p s.todo
  pub kept : s.client.environ ≡ vars

module _ (p : Platform) (env : List (List ℕ)) (sock sock' : ℕ) (es : List Event)
    (vars : List (List ℕ × List ℕ)) where
  abbrev Inv : Session → Type 0
  Inv = Consistent p sock sock' es vars

  same_apart :
      (w v : World) (fd : ℕ) → v ≡ record w { trace = v.trace } → IsNoLog w fd → IsNoLog v fd
  same_apart w v fd e n = (IsNoLog-same w v fd e).0 n

  pub tells-Consistent :
      (s : Session) (entry : List ℕ) (e : Event) (rest : List Event) (w : World)
      → next_of env ≡ some entry
      → s.phase ≡ running
      → s.todo ≡ e ∷ rest
      → tell p env sock e s.client ≡ returns tt w
      → Inv s
      → Inv (record s {
        client = w;
        phase = answering e;
        todo = rest;
        server = record s.server { incoming = s.server.incoming ++ written sock s.client w };
      })
  tells-Consistent s entry e rest w h ph td made c =
      let range = InRange-cons p e rest (subst (InRange p) td c.in_range) in
      let told : Tells p sock e s.client w =
        subst (Ends (λ _ v. Tells p sock e s.client v)) made
          (tell-Ends p sock env entry e s.client h range.0 c.client_apart) in
      record {
        handled = c.handled;
        pending = c.pending ++ e ∷ [];
        unheard = c.unheard;
        whole =
            ap (λ xs. s.passed ++ xs) (sym td)
            ∙ ap (λ f. s.passed ++ (open_event f ++ s.todo)) (sym ph)
            ∙ c.whole;
        split =
            sym (append_assoc c.handled c.pending (e ∷ []))
            ∙ ap (λ xs. xs ++ e ∷ [])
                (c.split ∙ ap (λ f. s.passed ++ open_event f) ph ∙ append-nil s.passed);
        made = c.made;
        mapped = c.mapped;
        to_server = Stream-append p c.to_server told.spelled;
        to_client = ap (λ (u : World). u.incoming) told.same ∙ c.to_client;
        balance = c.balance;
        allowed = c.allowed;
        client_apart = same_apart s.client w sock told.same c.client_apart;
        server_apart = IsNoLog-moved s.server _ sock' refl c.server_apart;
        in_range = range.1;
        kept = ap (λ (u : World). u.environ) told.same ∙ c.kept;
      }

  pub hears-Consistent :
      (s : Session) (e : Event) (w : World)
      → s.phase ≡ answering e
      → hear p env sock e s.client ≡ returns tt w
      → Inv s
      → Inv (record s { client = w; phase = running; passed = s.passed ++ e ∷ [] })
  hears-Consistent s e w ph made c =
      let (k, due, left, same) =
        subst (Ends (λ _ v. Hears p sock e c.unheard s.client v)) made
          (hear-Ends p env sock e c.unheard s.client c.to_client) in
      let split : c.handled ++ c.pending ≡ s.passed ++ e ∷ [] =
        c.split ∙ ap (λ f. s.passed ++ open_event f) ph in
      let balance : returns_in c.handled ≡ returns_in (s.passed ++ e ∷ []) + k =
        omega (arith, c.balance, due, returns_in-append s.passed (e ∷ [])) in
      let none_pending : returns_in c.pending ≡ 0 =
        omega (arith, balance, ap returns_in split, returns_in-append c.handled c.pending) in
      let (stk, ran) = run_without_returns (wildcard p) s.stack c.pending none_pending in
      record {
        handled = c.handled;
        pending = c.pending;
        unheard = k;
        whole =
            append_assoc s.passed (e ∷ []) s.todo
            ∙ ap (λ f. s.passed ++ (open_event f ++ s.todo)) (sym ph)
            ∙ c.whole;
        split = split ∙ sym (append-nil (s.passed ++ e ∷ []));
        made = c.made;
        mapped = c.mapped;
        to_server = c.to_server;
        to_client = left;
        balance = balance;
        allowed = (
          stk,
          ap (run (wildcard p) []) (sym split)
              ∙ run-append (wildcard p) [] s.stack c.handled c.pending c.made
              ∙ ran,
        );
        client_apart = IsNoLog-moved s.client w sock same c.client_apart;
        server_apart = c.server_apart;
        in_range = c.in_range;
        kept = ap (λ (u : World). u.environ) same ∙ c.kept;
      }

  -- What the server has done when a round of it has returned.
  abbrev Answered : Session → List Event → Event → World → List ℕ × HandlerMap → World → Type 0
  Answered s rest e w r v =
      (check (wildcard p) s.stack e ≡ some r.0)
      × (r.1 ≡ call_correct_function)
      × Served p sock' (returns_in (e ∷ [])) w v
      × Stream p [] rest v.incoming
      × (length s.server.incoming ≡ message_size p + length v.incoming)

  pub serves-Answered :
      (s : Session) (chunk stk : List ℕ) (m : HandlerMap) (w v : World)
      → receive p sock' (message_size p) s.server ≡ returns (some chunk) w
      → length chunk ≡ message_size p
      → dispatch p s.handlers s.stack chunk sock' w ≡ returns (stk, m) v
      → (c : Inv s)
      → (e : Event) × (rest : List Event) × (c.pending ≡ e ∷ rest)
        × IsNoLog v sock'
        × Answered s rest e w (stk, m) v
  serves-Answered s chunk stk m w v got full made c =
      let (front, rest, moved) = receive_whole p sock' (message_size p) s.server w chunk got full in
      let (e, pending, split, encodes, left) =
        first_pending p chunk c.pending s.server.incoming c.to_server front full in
      let apart = IsNoLog-moved s.server w sock' rest c.server_apart in
      let (step, mapped, served) =
        subst
          (Ends λ r v.
            (check (wildcard p) s.stack e ≡ some r.0)
            × (r.1 ≡ call_correct_function)
            × Served p sock' (returns_in (e ∷ [])) w v)
          (ap (λ h. dispatch p h s.stack chunk sock' w) (sym c.mapped) ∙ made)
          (dispatch-Answered p e chunk s.stack sock' w encodes apart) in
      let incoming : v.incoming ≡ drop (message_size p) s.server.incoming =
        ap (λ (u : World). u.incoming) served.same ∙ moved in
      (
        e,
        pending,
        split,
        same_apart w v sock' served.same apart,
        (
          step,
          mapped,
          served,
          subst (Stream p [] pending) (sym incoming) left,
          ap length (sym (take-append-drop (message_size p) s.server.incoming))
              ∙ length-append (take (message_size p) s.server.incoming) _
              ∙ (λ i. (ap length (sym front) ∙ full) i + length (sym incoming i)),
        ),
      )

  pub serves-Consistent :
      (s : Session) (chunk stk : List ℕ) (m : HandlerMap) (w v : World)
      → receive p sock' (message_size p) s.server ≡ returns (some chunk) w
      → length chunk ≡ message_size p
      → dispatch p s.handlers s.stack chunk sock' w ≡ returns (stk, m) v
      → Inv s
      → Inv (record s {
        client = record s.client { incoming = s.client.incoming ++ written sock' w v };
        server = v;
        stack = stk;
        handlers = m;
      })
  serves-Consistent s chunk stk m w v got full made c =
      let (e, pending, split, apart, (step, mapped, served, left, _)) =
        serves-Answered s chunk stk m w v got full made c in
      let sum : replies p c.unheard ++ written sock' w v
          ≡ replies p (returns_in (e ∷ []) + c.unheard) =
        ap (λ bs. replies p c.unheard ++ bs) (written_lem sock' w v _ served.replies)
        ∙ replies_add p c.unheard (returns_in (e ∷ [])) in
      record {
        handled = c.handled ++ e ∷ [];
        pending = pending;
        unheard = returns_in (e ∷ []) + c.unheard;
        whole = c.whole;
        split =
            append_assoc c.handled (e ∷ []) pending
            ∙ ap (λ xs. c.handled ++ xs) (sym split)
            ∙ c.split;
        made =
            run-append (wildcard p) [] s.stack c.handled (e ∷ []) c.made
            ∙ run-step (wildcard p) s.stack stk e [] step
            ∙ run-nil (wildcard p) stk;
        mapped = mapped;
        to_server = left;
        to_client = ap (λ bs. bs ++ written sock' w v) c.to_client ∙ sum;
        balance = omega (arith, c.balance, returns_in-append c.handled (e ∷ []));
        allowed = c.allowed;
        client_apart = IsNoLog-moved s.client _ sock refl c.client_apart;
        server_apart = apart;
        in_range = c.in_range;
        kept = c.kept;
      }
