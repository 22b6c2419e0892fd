-- ===== src/Lockstep/Safety.antt =====
-- What external mode guarantees of the program while both of its processes run
-- (dr_external_ss_events.cpp, external_stack_server.cpp).
use dr_shadow_stack.Base.{arith, ℕ, ◌≡◌, refl, some, List, [], ◌++◌}
use dr_shadow_stack.Platform.{Platform, World}
use dr_shadow_stack.Platform.Post.{IsNoLog, IsNoLog-moved}
use dr_shadow_stack.Message.{wildcard}
use dr_shadow_stack.Message.Events.{end}
use dr_shadow_stack.ShadowStack.{returns_in, Event, run}
use dr_shadow_stack.ShadowStack.Nesting.{run-nil}
use dr_shadow_stack.Client.{next_of}
use dr_shadow_stack.Client.Messages.{InRange}
use dr_shadow_stack.Lockstep.{Session, Reach, start, later, tells, hears, serves, init, open_event}
use dr_shadow_stack.Lockstep.Invariant.{
  Consistent, tells-Consistent, hears-Consistent, serves-Consistent,
}

module _ (p : Platform) (env : List (List ℕ)) (entry : List ℕ) (sock sock' : ℕ) (es : List Event)
    (w v : World) (h : next_of env ≡ some entry) (range : InRange p es) (n : IsNoLog w sock)
    (m : IsNoLog v sock') where
  init-Consistent : Consistent p sock sock' es w.environ (init p env sock sock' es w v)
  unfolding returns_in
  init-Consistent = record {
    handled = [];
    pending = [];
    unheard = 0;
    whole = refl;
    split = refl;
    made = run-nil (wildcard p) [];
    mapped = refl;
    to_server = end refl;
    to_client = refl;
    balance = omega arith;
    allowed = ([], run-nil (wildcard p) []);
    client_apart = IsNoLog-moved w _ sock refl n;
    server_apart = IsNoLog-moved v _ sock' refl m;
    in_range = range;
    kept = refl;
  }

  -- On any kernel, with addresses that fit a pointer, an envp that has an entry whose name starts
  -- with DR_SS_ENV_FD and sockets that are no log descriptors: in every state that client and server
  -- can reach together, the server's stack is the abstract one of the messages that it has read, the
  -- bytes that wait for it spell the events that it has yet to read, whole answers alone wait for
  -- the client, and as many returns have been checked as have been answered.
  pub Reach-Consistent :
      {s : Session}
      → Reach p env sock sock' (init p env sock sock' es w v) s
      → Consistent p sock sock' es w.environ s
  Reach-Consistent start = init-Consistent
  Reach-Consistent (later {t = s} r (tells e rest {w = u} ph td made)) =
      tells-Consistent p env sock sock' es w.environ s entry e rest u h ph td made
        (Reach-Consistent r)
  Reach-Consistent (later {t = s} r (hears e {w = u} ph made)) =
      hears-Consistent p env sock sock' es w.environ s e u ph made (Reach-Consistent r)
  Reach-Consistent (later {t = s} r (serves chunk stk hs {w = u} {v = x} got full made)) =
      serves-Consistent p env sock sock' es w.environ s chunk stk hs u x got full made
        (Reach-Consistent r)

  -- On any kernel, with addresses that fit a pointer, an envp that has an entry whose name starts
  -- with DR_SS_ENV_FD and sockets that are no log descriptors: in every state that client and server
  -- can reach together, in any order of their steps, the abstract shadow stack accepts the events
  -- whose handlers have returned in the client, and these events are the first of the program's
  -- history.
  pub passed-allowed :
      {s : Session}
      → Reach p env sock sock' (init p env sock sock' es w v) s
      → (stk : List ℕ) × (run (wildcard p) [] s.passed ≡ some stk)
        × (s.passed ++ (open_event s.phase ++ s.todo) ≡ es)
  passed-allowed r = let c = Reach-Consistent r in (c.allowed.0, c.allowed.1, c.whole)
