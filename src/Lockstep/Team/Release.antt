-- ===== src/Lockstep/Team/Release.antt =====
-- The answer to one process's return can be taken by another that waits on the same socket (on_ret of
-- dr_external_ss_events.cpp, ret_handler of external_stack_server.cpp).
use dr_shadow_stack.Base.{
  ==_refl, ℕ, ◌^◌, ◌<◌, ◌≡◌, ◌≢◌, refl, ◌∙◌, none, some, List, [], ◌∷◌, ◌++◌, ◌==◌, if◌then◌else◌,
  arith,
}
use dr_shadow_stack.Platform.{Platform, World, returns}
use dr_shadow_stack.Platform.Post.{IsNoLog, IsNoLog-moved, Returns-inv}
use dr_shadow_stack.Runtime.Logging.{Works}
use dr_shadow_stack.Environment.{getenv, dr_ss_env_fd}
use dr_shadow_stack.Message.{wildcard}
use dr_shadow_stack.Message.Events.{Stream, end}
use dr_shadow_stack.ShadowStack.{Event, check, run, returns_in}
use dr_shadow_stack.ShadowStack.Nesting.{run-step, run-stop, check-ret_not}
use dr_shadow_stack.ShadowStack.Steps.{check-ret, not_allows, allows_of_eq}
use dr_shadow_stack.Client.{next_of}
use dr_shadow_stack.Lockstep.{written, hear}
use dr_shadow_stack.Lockstep.Channel.{replies, Stream-append}
use dr_shadow_stack.Lockstep.Rounds.{RoundKills, ServerStep, serve-Returns, serve-RoundKills}
use dr_shadow_stack.Lockstep.Progress.{TellStep, tell-step, hear-Returns}
use dr_shadow_stack.Lockstep.Team.{
  Member, Team, tells, hears, serves, TeamReach, start, later, newcomer, assembled,
}

-- Process 0 makes a call and returns from it to another address; process 1 makes a call and returns
-- from it to its own.
abbrev pub attacked : ℕ → ℕ → List Event
attacked b bad = Event.call b ∷ Event.ret bad ∷ []

abbrev pub honest : ℕ → List Event
honest a = Event.call a ∷ Event.ret a ∷ []

abbrev pub pair : World → World → ℕ → ℕ → ℕ → ℕ → Member
pair w u a b bad i = if i == 0 then newcomer w (attacked b bad) else newcomer u (honest a)

module _ (p : Platform) (ok : Works p) (env : List (List ℕ)) (entry fd : List ℕ) (sock sock' : ℕ)
    (w u v : World) (a b bad : ℕ) (h : next_of env ≡ some entry) (fits_a : a < 256 ^ p.pointer_size)
    (fits_b : b < 256 ^ p.pointer_size) (fits_bad : bad < 256 ^ p.pointer_size) (n : IsNoLog w sock)
    (m : IsNoLog u sock) (k : IsNoLog v sock') (g : getenv dr_ss_env_fd w.environ ≡ some fd)
    (g' : getenv dr_ss_env_fd u.environ ≡ some fd) (other : b ≢ bad) (wild : b ≢ wildcard p) where
  abbrev silent : World → List ℕ → World
  silent x bs = record x { incoming = bs }

  -- The four messages, in the order in which they go out.
  told_first : TellStep p env sock fd (Event.call b) (silent w [])
  told_first =
      tell-step p ok env sock entry fd (Event.call b) (silent w []) h (fits_b, tt)
        (IsNoLog-moved w _ sock refl n) g

  told_second : TellStep p env sock fd (Event.call a) (silent u told_first.next.incoming)
  told_second =
      tell-step p ok env sock entry fd (Event.call a) (silent u told_first.next.incoming) h
        (fits_a, tt) (IsNoLog-moved u _ sock refl m) g'

  told_third :
      TellStep p env sock fd (Event.ret a) (silent told_second.next told_second.next.incoming)
  told_third =
      tell-step p ok env sock entry fd (Event.ret a) told_second.next h (fits_a, tt)
        told_second.apart told_second.set

  told_fourth :
      TellStep p env sock fd (Event.ret bad) (silent told_first.next told_third.next.incoming)
  told_fourth =
      tell-step p ok env sock entry fd (Event.ret bad)
        (silent told_first.next told_third.next.incoming) h (fits_bad, tt)
        (IsNoLog-moved told_first.next _ sock refl told_first.apart) told_first.set

  abbrev message_of_step : {e : Event} {x : World} → TellStep p env sock fd e x → List ℕ
  message_of_step {x} t = written sock x t.next

  -- All four have gone out, and none has been read.
  abbrev waiting : World
  waiting = silent v (
      ((([] ++ message_of_step told_first) ++ message_of_step told_second)
        ++ message_of_step told_third)
      ++ message_of_step told_fourth)

  waiting-Stream :
      Stream p [] (Event.call b ∷ Event.call a ∷ Event.ret a ∷ Event.ret bad ∷ []) waiting.incoming
  waiting-Stream =
      Stream-append p
        (Stream-append p
          (Stream-append p (Stream-append p (end refl) told_first.spelled) told_second.spelled)
          told_third.spelled)
        told_fourth.spelled

  waiting-IsNoLog : IsNoLog waiting sock'
  waiting-IsNoLog = IsNoLog-moved v _ sock' refl k

  -- The server reads three of them.
  read_first :
      ServerStep p sock'
        (Event.call b)
        (Event.call a ∷ Event.ret a ∷ Event.ret bad ∷ [])
        []
        (b ∷ [])
        waiting
  unfolding check
  read_first =
      serve-Returns p ok sock' (Event.call b) _ [] _ waiting waiting-IsNoLog waiting-Stream refl

  read_second :
      ServerStep p sock'
        (Event.call a)
        (Event.ret a ∷ Event.ret bad ∷ [])
        (b ∷ [])
        (a ∷ b ∷ [])
        read_first.next
  unfolding check
  read_second =
      serve-Returns p ok sock' (Event.call a) _ (b ∷ []) _ read_first.next read_first.apart
        read_first.left refl

  read_third :
      ServerStep p sock' (Event.ret a) (Event.ret bad ∷ []) (a ∷ b ∷ []) (b ∷ []) read_second.next
  read_third =
      serve-Returns p ok sock' (Event.ret a) _ (a ∷ b ∷ []) _ read_second.next read_second.apart
        read_second.left
        (check-ret (wildcard p) a a (b ∷ []) (allows_of_eq (wildcard p) a a (==_refl a)))

  bad-none : check (wildcard p) (b ∷ []) (Event.ret bad) ≡ none
  bad-none =
      check-ret_not (wildcard p) b bad []
        (not_allows (wildcard p) b bad (ground arith) (ground arith))

  -- One answer waits, which is process 1's.
  abbrev answer : List ℕ
  answer =
      ((told_fourth.next.incoming ++ written sock' read_first.read read_first.next)
        ++ written sock' read_second.read read_second.next)
      ++ written sock' read_third.read read_third.next

  answer_lem : answer ≡ replies p 1
  unfolding returns_in
  answer_lem = rw (read_first.answered, read_second.answered, read_third.answered, all_quiet) refl
    where
      all_quiet : told_fourth.next.incoming ≡ []
      all_quiet = told_fourth.quiet ∙ told_third.quiet ∙ told_second.quiet ∙ told_first.quiet

  released_reply :
      (x : World) × (hear p env sock (Event.ret bad) (silent told_fourth.next answer)
        ≡ returns tt x)
  unfolding returns_in
  released_reply =
      let (_, x, made, _) =
        Returns-inv _ (hear p env sock (Event.ret bad) (silent told_fourth.next answer)) (
          hear-Returns p ok env sock (Event.ret bad) 0 (silent told_fourth.next answer)
            answer_lem) in
      (x, made)

  -- On a kernel whose calls succeed, for three addresses that fit a pointer, an envp that has an
  -- entry whose name starts with DR_SS_ENV_FD, and two processes of the target that share the
  -- socket, have a value of DR_SS_ENV_FD and sockets that are no log descriptors: if one makes a
  -- call and a return to its own address, and the other a call and a return to another address than
  -- its own, which is not the wildcard, then they can reach a state in which the second process's
  -- return has passed, though the abstract shadow stack does not accept that process's events, and
  -- the server's next round kills the group.
  pub released :
      (s : Team) × TeamReach p env sock sock' (assembled (pair w u a b bad) v) s
      × ((s.members 0).passed ≡ attacked b bad)
      × (run (wildcard p) [] (attacked b bad) ≡ none)
      × RoundKills p sock' s.handlers s.stack s.server
  unfolding hear check
  released = (
    _,
    later
        (later
          (later
            (later
              (later
                (later
                  (later
                    (later
                      (later (later start (tells 0 (Event.call b) _ refl refl told_first.made))
                        (hears 0 (Event.call b) refl refl))
                      (tells 1 (Event.call a) _ refl refl told_second.made))
                    (hears 1 (Event.call a) refl refl))
                  (tells 1 (Event.ret a) _ refl refl told_third.made))
                (tells 0 (Event.ret bad) _ refl refl told_fourth.made))
              (serves read_first.chunk _ _ read_first.got read_first.full read_first.made))
            (serves read_second.chunk _ _ read_second.got read_second.full read_second.made))
          (serves read_third.chunk _ _ read_third.got read_third.full read_third.made))
        (hears 0 (Event.ret bad) refl released_reply.1),
    refl,
    run-step (wildcard p) [] (b ∷ []) (Event.call b) _ refl
        ∙ run-stop (wildcard p) (b ∷ []) (Event.ret bad) [] bad-none,
    serve-RoundKills p ok sock' (Event.ret bad) [] (b ∷ []) read_third.next read_third.apart
        read_third.left bad-none,
  )
