-- ===== src/TestPrograms.antt =====
-- The programs under test-files that are run under DrShadowStack: the calls, returns and signals that
-- each makes. What a library function does inside is a parameter, and so are return addresses.
pub mod Toy
pub mod Runs
use dr_shadow_stack.Base.{Bool, if◌then◌else◌, ℕ, zero, suc, List, [], ◌∷◌, ◌++◌}
use dr_shadow_stack.ShadowStack.{Event, call, ret, signal}
use dr_shadow_stack.Message.{from_memory}

-- A call with its return address, and what is done in it.
abbrev pub called : ℕ → List Event → List Event
called a body = call a ∷ (body ++ ret a ∷ [])

-- A signal's delivery; the handler returns to an address of the kernel's.
abbrev pub handled : ℕ → List Event → List Event
handled b body = signal ∷ (body ++ ret b ∷ [])

-- The functions of the libraries that the programs call: the address behind the call, and the events.
-- Those of exit are all that there is after it.
pub record Library : Type 0 where
  pub write : ℕ × List Event
  pub getpid : ℕ × List Event
  pub set_signal : ℕ × List Event
  pub kill : ℕ
  pub restorer : ℕ
  pub memcpy : ℕ × List Event
  pub printf : ℕ × List Event
  pub fflush : ℕ × List Event
  pub pthread_create : ℕ × List Event
  pub pthread_join : ℕ × List Event
  pub fork : ℕ × List Event
  pub perror : ℕ × List Event
  pub exit : ℕ × List Event

abbrev calls : ℕ × List Event → List Event
calls (a, body) = called a body

module _ (lib : Library) where
  -- toy.c; `r` is the address behind the recursive call.
  unfoldable pub itr : ℕ → ℕ → List Event
  itr r zero = calls lib.write
  itr r (suc n) = calls lib.write ++ called r (itr r n)

  unfoldable pub toy_main : ℕ → ℕ → List Event
  unfolding itr
  toy_main r m = called m (itr r 99)

  -- signals.c. The signal is delivered before kill returns.
  abbrev pub s3 : List Event
  s3 = calls lib.write ++ calls lib.write

  abbrev pub s1 : List Event
  s1 =
      calls lib.write
      ++ (calls lib.getpid ++ (called lib.kill (handled lib.restorer s3) ++ calls lib.write))

  unfoldable pub signals_main : List Event
  signals_main =
      calls lib.set_signal
      ++ (calls lib.set_signal ++ (calls lib.getpid ++ called lib.kill (handled lib.restorer s1)))

  -- threads.c, and forks.c too.
  unfoldable pub print_numbers : ℕ → List Event
  print_numbers zero = []
  print_numbers (suc n) = calls lib.printf ++ (calls lib.fflush ++ print_numbers n)

  -- main of threads.c; `q` is the address behind its call of print_numbers.
  unfoldable pub threads_main : ℕ → List Event
  unfolding print_numbers
  threads_main q =
      calls lib.pthread_create ++ (called q (print_numbers 1000) ++ calls lib.pthread_join)

  -- main of forks.c, in the parent and in the child; what fork's call leaves on a shadow stack is in both.
  unfoldable pub forks_main : Bool → ℕ → List Event
  unfolding print_numbers
  forks_main fork_failed q =
      calls lib.fork
      ++ (if fork_failed
          then calls lib.perror ++ call lib.exit.0 ∷ lib.exit.1
          else called q (print_numbers 1000))

  -- hacked_toy64.c and hacked_toy32.c: the return addresses that memcpy puts over main's, and main
  -- with its return, to one of them.
  abbrev pub win_64 : ℕ
  win_64 = from_memory (246 ∷ 5 ∷ 64 ∷ 0 ∷ 0 ∷ 0 ∷ 0 ∷ 0 ∷ [])

  abbrev pub win_32 : ℕ
  win_32 = from_memory (155 ∷ 132 ∷ 4 ∷ 8 ∷ [])

  unfoldable pub hacked_main : ℕ → List Event
  hacked_main target = calls lib.memcpy ++ ret target ∷ []
