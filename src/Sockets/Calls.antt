-- ===== src/Sockets/Calls.antt =====
-- The calls that the functions of quick_socket.cpp have made when they return, and the name that is too
-- long for a socket's address.
use dr_shadow_stack.Base.{
  ℕ, ◌<◌, ◌≤◌, ◌≡◌, refl, true, false, some, List, [], ◌∷◌, length, ltb, arith, inl, inr,
  Option-cases,
}
use dr_shadow_stack.Platform.{
  Platform, World, socket, bind, listen, connect, accept, steps, sent, pure, undefined,
}
use dr_shadow_stack.Platform.Post.{
  Keeps-Frame, Keeps-quiet, Keeps-trans, Keeps, Ends, Frame, Ends-and_then,
}
use dr_shadow_stack.Runtime.{log}
use dr_shadow_stack.Runtime.Termination.{Ends-checked, log-Ends, assert-true}
use dr_shadow_stack.Group.{value_of}
use dr_shadow_stack.Platform.Calls.{Called, Called-Frame, Called-trans}
use dr_shadow_stack.Sockets.{
  make_unix_server, create_server, create_client, accept_client, sun_path_size,
}

make_unix_server-fits :
    (fname : List ℕ) → length fname < sun_path_size → make_unix_server fname ≡ pure fname
unfolding make_unix_server
make_unix_server-fits fname h =
    let y : ltb (length fname) sun_path_size ≡ true = ground arith in rw y refl

make_unix_server-overflows :
    (fname : List ℕ) → sun_path_size ≤ length fname → make_unix_server fname ≡ (λ w. undefined w)
unfolding make_unix_server
make_unix_server-overflows fname h =
    let n : ltb (length fname) sun_path_size ≡ false = ground arith in rw n refl

module _ (p : Platform) where
  -- On any kernel, for a path of less than 108 bytes: create_server ends, by a return or with the
  -- group killed. If it returns, its calls, apart from logging, are socket, a bind of the socket
  -- that it returns to the path, and a listen on it, in this order.
  pub create_server-Ends :
      (fname : List ℕ) (w : World)
      → length fname < sun_path_size
      → Ends (λ s v. Called (listen s 1 ∷ bind s fname ∷ socket ∷ []) w v) (create_server p fname w)
  unfolding create_server steps
  create_server-Ends fname w h = Ends-checked p _ _ _ _ _ λ a. rw (make_unix_server-fits fname h) (
      Ends-checked p _ _ _ _ _ λ b. Ends-checked p _ _ _ _ _ λ c.
        Ends-and_then (λ _ u. Frame called u) _ (log p _ called) _ (log-Ends p _ called)
          λ _ u q.
            Called-trans (listen s 1 ∷ bind s fname ∷ socket ∷ []) []
              (record { same = refl; made = refl }) (Called-Frame q))
    where
      s : ℕ
      s = value_of (p.result w.trace socket)

      called : World
      called = record w { trace = listen s 1 ∷ bind s fname ∷ socket ∷ w.trace }

  pub create_client-Ends :
      (fname : List ℕ) (w : World)
      → length fname < sun_path_size
      → Ends
          (λ s v.
            (p.result w.trace socket ≡ some s)
            × Called (connect s fname ∷ socket ∷ []) w v
            × Keeps w v)
          (create_client p fname w)
  unfolding create_client steps sent
  create_client-Ends fname w h = elim (Option-cases (p.result w.trace socket)) [
    | inl e ↦ rw e (Ends-checked p _ false _ _ _ (λ c. cc))
    | inr (s, e) ↦ rw e (
        Ends-checked p _ true _ _ _ λ a. rw (make_unix_server-fits fname h) (
          Ends-checked p _ _ _ _ _ λ b.
            Ends-and_then (λ _ u. Frame (called s) u) _ (log p _ (called s)) _
              (log-Ends p _ (called s))
              λ _ u q. (
                refl,
                Called-trans (connect s fname ∷ socket ∷ []) []
                    (record { same = refl; made = refl }) (Called-Frame q),
                Keeps-trans (Keeps-quiet w (called s) refl (λ fd. refl)) (Keeps-Frame q),
              )))
  ]
    where
      called : ℕ → World
      called s = record w { trace = connect s fname ∷ socket ∷ w.trace }

  pub accept_client-Ends :
      (sock : ℕ) (w : World)
      → Ends
          (λ s v. (p.result w.trace (accept sock) ≡ some s) × Called (accept sock ∷ []) w v)
          (accept_client p sock w)
  unfolding accept_client steps
  accept_client-Ends sock w = elim (Option-cases (p.result w.trace (accept sock))) [
    | inl e ↦ rw e (Ends-checked p _ false _ _ _ (λ c. cc))
    | inr (s, e) ↦ rw e (
        Ends-checked p _ true _ _ _ λ c.
          Ends-and_then (λ _ u. Frame called u) _ (log p _ called) _ (log-Ends p _ called)
            λ _ u q. (
              refl,
              Called-trans (accept sock ∷ []) [] (record { same = refl; made = refl })
                  (Called-Frame q),
            ))
  ]
    where
      called : World
      called = record w { trace = accept sock ∷ w.trace }

  -- For a path of 108 bytes or more, on a kernel that gives a socket: create_server writes past the
  -- end of the address.
  pub create_server-undefined :
      (fname : List ℕ) (sock : ℕ) (w : World)
      → sun_path_size ≤ length fname
      → p.result w.trace socket ≡ some sock
      → (v : World) × (create_server p fname w ≡ undefined v)
  unfolding create_server
  create_server-undefined fname sock w h e = (
    record w { trace = socket ∷ w.trace },
    rw (e, assert-true p _ _, make_unix_server-overflows fname h) refl,
  )
