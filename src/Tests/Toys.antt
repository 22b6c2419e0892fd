-- ===== src/Tests/Toys.antt =====
-- The test programs with library functions that call nothing, and what toy.c writes.
use dr_shadow_stack.Base.{
  false, append-nil, ℕ, ◌≡◌, ◌≢◌, refl, ◌∙◌, some, List, [], ◌∷◌, ◌++◌, ◌==◌, if◌then◌else◌,
  Bool-cases, inl, inr, arith, codes,
}
use dr_shadow_stack.Text.{digit}
use dr_shadow_stack.Platform.Post.{Kills, Returns}
use dr_shadow_stack.Message.{wildcard, from_memory}
use dr_shadow_stack.ShadowStack.{Event}
use dr_shadow_stack.ShadowStack.Nesting.{done}
use dr_shadow_stack.Internal.{run_events}
use dr_shadow_stack.Internal.Threads.{events_of}
use dr_shadow_stack.Modes.{in_thread, events_of-in_thread}
use dr_shadow_stack.TestPrograms.{
  Library, called, toy_main, signals_main, print_numbers, threads_main, hacked_main, win_64, win_32,
  forks_main,
}
use dr_shadow_stack.TestPrograms.Toy.{pnt, itr_output, lines_of, itr_output_lem}
use dr_shadow_stack.TestPrograms.Runs.{Sound, programs_lem}
use dr_shadow_stack.Tests.{helpful, helpful-Works, process}

abbrev lib : Library
lib = record {
  write = (101, []);
  getpid = (102, []);
  set_signal = (103, []);
  kill = 104;
  restorer = 105;
  memcpy = (106, []);
  printf = (107, []);
  fflush = (108, []);
  pthread_create = (109, []);
  pthread_join = (110, []);
  fork = (111, []);
  perror = (112, []);
  exit = (113, []);
}

lib-Sound : Sound (wildcard helpful) lib
lib-Sound = record {
  write = done;
  getpid = done;
  set_signal = done;
  memcpy = done;
  printf = done;
  fflush = done;
  pthread_create = done;
  pthread_join = done;
  fork = done;
}

pnt_seven : pnt 7 ≡ some (codes "Itr(7)\n")
unfolding pnt digit
pnt_seven = refl

-- Thread 4 runs while thread 3 is in its own loop.
abbrev created : List Event
created = called 109 []

abbrev joined : List Event
joined = called 200 (print_numbers lib 1000) ++ called 110 []

abbrev worker : List Event
worker = called 300 (print_numbers lib 1000)

abbrev both : List (ℕ × Event)
both = in_thread 3 created ++ (in_thread 4 worker ++ in_thread 3 joined)

events_of-append :
    (t : ℕ) (xs ys : List (ℕ × Event)) → events_of t (xs ++ ys) ≡ events_of t xs ++ events_of t ys
unfolding events_of
events_of-append t [] ys = refl
events_of-append t ((u, e) ∷ xs) ys = elim (Bool-cases (u == t)) [
  | inl y ↦ rw (y, events_of-append t xs ys) refl
  | inr n ↦ rw (n, events_of-append t xs ys) refl
]

both-events :
    (t : ℕ)
    → events_of t both
      ≡ (if 3 == t then created else [])
        ++ ((if 4 == t then worker else []) ++ (if 3 == t then joined else []))
both-events t =
    events_of-append t (in_thread 3 created) (in_thread 4 worker ++ in_thread 3 joined)
    ∙ (λ i.
        events_of-in_thread 3 t created i
        ++ events_of-append t (in_thread 4 worker) (in_thread 3 joined) i)
    ∙ (λ i.
        (if 3 == t then created else [])
        ++ (events_of-in_thread 4 t worker i ++ events_of-in_thread 3 t joined i))

others-events : (x : ℕ) → x ≢ 3 → x ≢ 4 → events_of x both ≡ []
others-events x n m =
    let y : (3 == x) ≡ false = ground arith in
    let z : (4 == x) ≡ false = ground arith in both-events x ∙ rw (y, z) refl

first-events : events_of 3 both ≡ threads_main lib 200
unfolding threads_main
first-events = both-events 3

worker-events : events_of 4 both ≡ called 300 (print_numbers lib 1000)
worker-events = both-events 4 ∙ append-nil worker

programs_lem_example :
    Returns
      (λ _ _. Unit {0})
      (run_events helpful (in_thread 3 (toy_main lib 201 202)) (process [] []))
    × Returns
        (λ _ _. Unit {0})
        (run_events helpful (in_thread 3 (signals_main lib)) (process [] []))
    × Returns
        (λ _ _. Unit {0})
        (run_events helpful (in_thread 3 (forks_main lib false 200)) (process [] []))
    × Returns (λ _ _. Unit {0}) (run_events helpful both (process [] []))
    × Kills (
        run_events helpful
          (in_thread 3 (Event.call 203 ∷ (hacked_main lib (win_64 lib) ++ [])))
          (process [] []))
    × Kills (
        run_events helpful
          (in_thread 3 (Event.call 203 ∷ (hacked_main lib (win_32 lib) ++ [])))
          (process [] []))
unfolding from_memory
programs_lem_example =
    programs_lem helpful helpful-Works lib lib-Sound 201 202 200 300 203 3 4 [] both (process [] [])
      first-events worker-events others-events refl (λ e. omega arith) (λ e. omega arith)
      (λ e. omega arith)

itr_output_lem_example : itr_output 99 ≡ some (lines_of 99)
itr_output_lem_example = itr_output_lem 99 (omega arith)
