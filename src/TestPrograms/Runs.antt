-- ===== src/TestPrograms/Runs.antt =====
-- The test programs under the shadow stack: those that are not attacked are handled whole, and
-- the hacked ones kill the group.
use dr_shadow_stack.Base.{
  false, inr, inl, Bool-cases, ℕ, zero, suc, ◌≡◌, ◌≢◌, refl, ap, ◌∙◌, true, none, some, List, [],
  ◌∷◌, ◌++◌, ◌==◌, arith, append_assoc,
}
use dr_shadow_stack.Platform.{Platform, World}
use dr_shadow_stack.Platform.Post.{Kills, Returns}
use dr_shadow_stack.Runtime.Logging.{Works}
use dr_shadow_stack.Message.{wildcard}
use dr_shadow_stack.ShadowStack.{Event, call, ret, signal, allows, check, run}
use dr_shadow_stack.ShadowStack.Nesting.{
  WellNested, done, frame, handler, WellNested-run, run-append, run-step, run-stop, check-ret_not,
}
use dr_shadow_stack.ShadowStack.Steps.{not_allows}
use dr_shadow_stack.Internal.{run_events}
use dr_shadow_stack.Internal.Stacks.{stack_of}
use dr_shadow_stack.Internal.Threads.{events_of}
use dr_shadow_stack.Internal.Verdict.{run_events-Returns}
use dr_shadow_stack.Modes.{in_thread-Returns, in_thread, in_thread-Kills}
use dr_shadow_stack.TestPrograms.{
  Library, called, handled, itr, toy_main, s1, s3, signals_main, print_numbers, threads_main,
  forks_main, win_64, win_32, hacked_main,
}

module _ (w : ℕ) where
  WellNested-append :
      {xs ys : List Event} → WellNested w xs → WellNested w ys → WellNested w (xs ++ ys)
  WellNested-append done y = y
  WellNested-append {ys} (frame a b body rest m x r e) y =
      frame a b body (rest ++ ys) m x (WellNested-append r y)
        (ap (λ zs. zs ++ ys) e ∙ ap (◌∷◌ (call a)) (append_assoc body (ret b ∷ rest) ys))
  WellNested-append {ys} (handler b body rest x r e) y =
      handler b body (rest ++ ys) x (WellNested-append r y)
        (ap (λ zs. zs ++ ys) e ∙ ap (◌∷◌ signal) (append_assoc body (ret b ∷ rest) ys))

  allows_self : (a : ℕ) → allows w a a ≡ true
  unfolding allows
  allows_self a = ground arith

  called-WellNested : (a : ℕ) {body : List Event} → WellNested w body → WellNested w (called a body)
  called-WellNested a {body} x = frame a a body [] (allows_self a) x done refl

  handled-WellNested :
      (b : ℕ) {body : List Event} → WellNested w body → WellNested w (handled b body)
  handled-WellNested b {body} x = handler b body [] x done refl

  -- Each of the libraries' functions returns as it should.
  pub record Sound (lib : Library) : Type 0 where
    pub write : WellNested w lib.write.1
    pub getpid : WellNested w lib.getpid.1
    pub set_signal : WellNested w lib.set_signal.1
    pub memcpy : WellNested w lib.memcpy.1
    pub printf : WellNested w lib.printf.1
    pub fflush : WellNested w lib.fflush.1
    pub pthread_create : WellNested w lib.pthread_create.1
    pub pthread_join : WellNested w lib.pthread_join.1
    pub fork : WellNested w lib.fork.1

  module _ (lib : Library) (ok : Sound lib) where
    itr-WellNested : (r n : ℕ) → WellNested w (itr lib r n)
    unfolding itr
    itr-WellNested r zero = called-WellNested _ ok.write
    itr-WellNested r (suc n) =
        WellNested-append (called-WellNested _ ok.write) (called-WellNested r (itr-WellNested r n))

    toy_main-WellNested : (r m : ℕ) → WellNested w (toy_main lib r m)
    unfolding toy_main
    toy_main-WellNested r m = called-WellNested m (itr-WellNested r 99)

    s3-WellNested : WellNested w (s3 lib)
    s3-WellNested = WellNested-append (called-WellNested _ ok.write) (called-WellNested _ ok.write)

    s1-WellNested : WellNested w (s1 lib)
    s1-WellNested = WellNested-append (called-WellNested _ ok.write) (
        WellNested-append (called-WellNested _ ok.getpid) (
          WellNested-append
            (called-WellNested lib.kill (handled-WellNested lib.restorer s3-WellNested))
            (called-WellNested _ ok.write)))

    signals_main-WellNested : WellNested w (signals_main lib)
    unfolding signals_main
    signals_main-WellNested = WellNested-append (called-WellNested _ ok.set_signal) (
        WellNested-append (called-WellNested _ ok.set_signal) (
          WellNested-append (called-WellNested _ ok.getpid)
            (called-WellNested lib.kill (handled-WellNested lib.restorer s1-WellNested))))

    print_numbers-WellNested : (n : ℕ) → WellNested w (print_numbers lib n)
    unfolding print_numbers
    print_numbers-WellNested zero = done
    print_numbers-WellNested (suc n) =
        WellNested-append (called-WellNested _ ok.printf)
          (WellNested-append (called-WellNested _ ok.fflush) (print_numbers-WellNested n))

    threads_main-WellNested : (q : ℕ) → WellNested w (threads_main lib q)
    unfolding threads_main
    threads_main-WellNested q = WellNested-append (called-WellNested _ ok.pthread_create) (
        WellNested-append (called-WellNested q (print_numbers-WellNested 1000))
          (called-WellNested _ ok.pthread_join))

    forks_main-WellNested : (q : ℕ) → WellNested w (forks_main lib false q)
    unfolding forks_main
    forks_main-WellNested q =
        WellNested-append (called-WellNested _ ok.fork)
          (called-WellNested q (print_numbers-WellNested 1000))

    hacked_main-none :
        (a target : ℕ) (rest : List Event)
        → a ≢ target
        → a ≢ w
        → run w [] (call a ∷ (hacked_main lib target ++ rest)) ≡ none
    unfolding hacked_main check
    hacked_main-none a target rest n k =
        run-step w [] (a ∷ []) (call a) _ refl
        ∙ ap (run w (a ∷ []))
            (append_assoc (called lib.memcpy.0 lib.memcpy.1) (ret target ∷ []) rest)
        ∙ run-append w (a ∷ []) (a ∷ []) (called lib.memcpy.0 lib.memcpy.1) _
            (WellNested-run w (called-WellNested lib.memcpy.0 ok.memcpy) (a ∷ []))
        ∙ run-stop w (a ∷ []) (ret target) rest
            (check-ret_not w a target [] (not_allows w a target (ground arith) (ground arith)))

module _ (p : Platform) (ok : Works p) (lib : Library) (sound : Sound (wildcard p) lib) where
  abbrev Runs : List (ℕ × Event) → World → Type 0
  Runs es w = Returns (λ _ _. Unit {0}) (run_events p es w)

  WellNested-Runs :
      (t : ℕ) (es : List Event) (w : World) → WellNested (wildcard p) es → Runs (in_thread t es) w
  WellNested-Runs t es w x =
      in_thread-Returns p ok t es w (stack_of w t) (WellNested-run (wildcard p) x (stack_of w t))

  -- Any interleaving of threads, each with the events of one program.
  threads-Runs :
      (q b t u : ℕ) (es : List (ℕ × Event)) (w : World)
      → events_of t es ≡ threads_main lib q
      → events_of u es ≡ called b (print_numbers lib 1000)
      → ((x : ℕ) → x ≢ t → x ≢ u → events_of x es ≡ [])
      → Runs es w
  threads-Runs q b t u es w first second others = run_events-Returns p ok es w (stack_of w) λ x.
      elim (Bool-cases (x == t)) [
        | inl y ↦
            let same : x ≡ t = ground arith in
            whole x (threads_main lib q) (ap (λ z. events_of z es) same ∙ first)
              (threads_main-WellNested (wildcard p) lib sound q)
        | inr n ↦ elim (Bool-cases (x == u)) [
          | inl y ↦
              let same : x ≡ u = ground arith in
              whole x (called b (print_numbers lib 1000)) (ap (λ z. events_of z es) same ∙ second) (
                called-WellNested (wildcard p) b
                  (print_numbers-WellNested (wildcard p) lib sound 1000))
          | inr m ↦ whole x [] (others x (ground arith) (ground arith)) done
        ]
      ]
    where
      whole :
          (x : ℕ) (fs : List Event)
          → events_of x es ≡ fs
          → WellNested (wildcard p) fs
          → run (wildcard p) (stack_of w x) (events_of x es) ≡ some (stack_of w x)
      whole x fs e n =
          ap (run (wildcard p) (stack_of w x)) e ∙ WellNested-run (wildcard p) n (stack_of w x)

  hacked_main-Kills :
      (t a target : ℕ) (rest : List Event) (w : World)
      → stack_of w t ≡ []
      → a ≢ target
      → a ≢ wildcard p
      → Kills (run_events p (in_thread t (call a ∷ (hacked_main lib target ++ rest))) w)
  hacked_main-Kills t a target rest w fresh n k =
      in_thread-Kills p ok t (call a ∷ (hacked_main lib target ++ rest)) w (
        ap (λ s. run (wildcard p) s (call a ∷ (hacked_main lib target ++ rest))) fresh
        ∙ hacked_main-none (wildcard p) lib sound a target rest n k)

  -- In internal mode, on a kernel whose calls succeed, where the library functions that the test
  -- programs call return as they should: toy.c, signals.c, each of the two processes of forks.c,
  -- where fork succeeds, and every interleaving of the two threads of threads.c are handled whole,
  -- while hacked_toy64.c and hacked_toy32.c, in a thread whose stack is empty before main is called,
  -- end with the group killed whatever they would do after main's return, provided that main's own
  -- return address is neither of those that they write nor the wildcard. For threads.c no third
  -- thread has events.
  pub programs_lem :
      (r m q b a t u : ℕ) (rest : List Event) (es : List (ℕ × Event)) (w : World)
      → events_of t es ≡ threads_main lib q
      → events_of u es ≡ called b (print_numbers lib 1000)
      → ((x : ℕ) → x ≢ t → x ≢ u → events_of x es ≡ [])
      → stack_of w t ≡ []
      → a ≢ win_64 lib
      → a ≢ win_32 lib
      → a ≢ wildcard p
      → Runs (in_thread t (toy_main lib r m)) w
        × Runs (in_thread t (signals_main lib)) w
        × Runs (in_thread t (forks_main lib false q)) w
        × Runs es w
        × Kills (run_events p (in_thread t (call a ∷ (hacked_main lib (win_64 lib) ++ rest))) w)
        × Kills (run_events p (in_thread t (call a ∷ (hacked_main lib (win_32 lib) ++ rest))) w)
  programs_lem r m q b a t u rest es w first second others fresh n l k = (
    WellNested-Runs t (toy_main lib r m) w (toy_main-WellNested (wildcard p) lib sound r m),
    WellNested-Runs t (signals_main lib) w (signals_main-WellNested (wildcard p) lib sound),
    WellNested-Runs t (forks_main lib false q) w (forks_main-WellNested (wildcard p) lib sound q),
    threads-Runs q b t u es w first second others,
    hacked_main-Kills t a (win_64 lib) rest w fresh n k,
    hacked_main-Kills t a (win_32 lib) rest w fresh l k,
  )
