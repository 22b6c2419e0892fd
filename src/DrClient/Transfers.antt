-- ===== src/DrClient/Transfers.antt =====
-- The kernel's transfers of a thread (kernel_xfer_event_handler of dr_shadow_stack_client.cpp): those
-- that deliver a signal, and the others, which the client passes over.
use dr_shadow_stack.Base.{
  ℕ, zero, suc, ◌≡◌, ◌≢◌, refl, ap, ◌∙◌, subst, Bool, true, false, some, List, [], ◌∷◌, ◌++◌,
  replicate, Bool-cases, inl, inr,
}
use dr_shadow_stack.Platform.{Platform, World, M, skip, ◌>>◌}
use dr_shadow_stack.Platform.Post.{
  Ends, Frame, IsNoLog, IsNoLog-Frame, IsNoLog-moved, Ends-and_then, Ends-mono,
}
use dr_shadow_stack.Runtime.{verbose_log}
use dr_shadow_stack.Runtime.Termination.{verbose_log-Ends}
use dr_shadow_stack.Message.{wildcard}
use dr_shadow_stack.ShadowStack.{Event, check, returns_in}
use dr_shadow_stack.Internal
use dr_shadow_stack.Internal.Handlers.{on_signal-Ends}
use dr_shadow_stack.Internal.Stacks.{stack_of, stack_in, Stepped}
use dr_shadow_stack.Client
use dr_shadow_stack.Client.Protocol
use dr_shadow_stack.Client.Protocol.{Told, Told-nil, Told-cons, Replies}
use dr_shadow_stack.DrClient.{
  SsHandlers, KernelXferInfo, all_from, internal, external, kernel_xfer_event_handler,
  call_on_signal,
}

abbrev and_one : Bool → ℕ → ℕ
and_one true n = suc n
and_one false n = n

-- How many of them deliver a signal.
abbrev pub deliveries : List KernelXferInfo → ℕ
deliveries [] = 0
deliveries (info ∷ infos) = and_one info.is_signal_delivery (deliveries infos)

replicate-shift : (n x : ℕ) (s : List ℕ) → replicate n x ++ x ∷ s ≡ x ∷ (replicate n x ++ s)
replicate-shift zero x s = refl
replicate-shift (suc n) x s = ap (◌∷◌ x) (replicate-shift n x s)

module _ (p : Platform) where
  -- One transfer after the other, in thread `t`.
  unfoldable pub transfers : SsHandlers → ℕ → List KernelXferInfo → M (Unit {0})
  unfolding kernel_xfer_event_handler
  transfers handlers t [] = skip
  transfers handlers t (info ∷ infos) = do
    kernel_xfer_event_handler p handlers t info
    transfers handlers t infos

  -- A wildcard for each delivery lies on the thread's stack, and other threads have theirs.
  record Pushed (t n : ℕ) (w v : World) : Type 0 where
    own : stack_of v t ≡ replicate n (wildcard p) ++ stack_of w t
    others : (u : ℕ) → t ≢ u → stack_of v u ≡ stack_of w u

  stack_of-Frame : (w v : World) (u : ℕ) → Frame w v → stack_of v u ≡ stack_of w u
  stack_of-Frame w v u q = ap (λ (x : World). stack_of x u) q.same

  signal_stack :
      (t : ℕ) (w v : World)
      → Stepped p t Event.signal w v
      → stack_of v t ≡ wildcard p ∷ stack_of w t
  unfolding check
  signal_stack t w v st = let e = st.made in cc

  transfers-Pushed :
      (t : ℕ) (infos : List KernelXferInfo) (w : World)
      → Ends (λ _ v. Pushed t (deliveries infos) w v) (transfers (all_from internal) t infos w)
  unfolding transfers call_on_signal
  transfers-Pushed t [] w = record { own = refl; others = λ u n. refl }
  transfers-Pushed t (info ∷ infos) w = elim (Bool-cases info.is_signal_delivery) [
    | inl y ↦ rw y (
        Ends-and_then (λ _ x. Pushed t 1 w x) _ _ _
          (Ends-and_then (λ _ u. Frame w u) _ (verbose_log p _ w) _ (verbose_log-Ends p _ w)
            λ _ u q. Ends-mono _ _ (Internal.on_signal p t u) (on_signal-Ends p t u) λ _ x st.
              record {
                own = signal_stack t u x st ∙ ap (◌∷◌ (wildcard p)) (stack_of-Frame w u t q);
                others = λ z n. ap stack_in (st.others z n) ∙ stack_of-Frame w u z q;
              })
          λ _ x a.
            Ends-mono _ _ (transfers (all_from internal) t infos x) (transfers-Pushed t infos x)
              λ _ v b. record {
                own =
                    b.own
                    ∙ ap (λ s. replicate (deliveries infos) (wildcard p) ++ s) a.own
                    ∙ replicate-shift (deliveries infos) (wildcard p) (stack_of w t);
                others = λ u n. b.others u n ∙ a.others u n;
              })
    | inr n ↦ rw n (transfers-Pushed t infos w)
  ]

  Told-Frame :
      (sock : ℕ) (es : List Event) (w u v : World)
      → IsNoLog w sock
      → Frame w u
      → Told p sock es u v
      → Told p sock es w v
  Told-Frame sock es w u v n q t = record {
    chunks = t.chunks;
    same = t.same ∙ (λ i. record (q.same i) { trace = v.trace; incoming = v.incoming });
    out = t.out ∙ ap (λ xs. t.chunks ++ xs) (q.apart sock n);
    spelled = t.spelled;
    replied =
        subst (λ bs. Replies p (returns_in es) bs v.incoming)
          (ap (λ (x : World). x.incoming) q.same) t.replied;
  }

  transfers-Told :
      (t sock : ℕ) (infos : List KernelXferInfo) (w : World)
      → IsNoLog w sock
      → Ends
          (λ _ v. Told p sock (replicate (deliveries infos) Event.signal) w v)
          (transfers (all_from (external (some sock))) t infos w)
  unfolding transfers call_on_signal
  transfers-Told t sock [] w n = Told-nil p sock w
  transfers-Told t sock (info ∷ infos) w n = elim (Bool-cases info.is_signal_delivery) [
    | inl y ↦ rw y (
        Ends-and_then (λ _ x. Told p sock (Event.signal ∷ []) w x) _ _ _
          (Ends-and_then (λ _ u. Frame w u) _ (verbose_log p _ w) _ (verbose_log-Ends p _ w)
            λ _ u q.
              Ends-mono _ _ (Client.on_signal p sock u)
                (Protocol.on_signal-Ends p sock u ((IsNoLog-Frame w u sock q).0 n))
                λ _ x told. Told-Frame sock (Event.signal ∷ []) w u x n q told)
          λ _ x a.
            Ends-mono _ _ (transfers (all_from (external (some sock))) t infos x)
              (transfers-Told t sock infos x (IsNoLog-moved w x sock a.same n))
              λ _ v b.
                Told-cons p sock Event.signal (replicate (deliveries infos) Event.signal) w x v a b)
    | inr m ↦ rw m (transfers-Told t sock infos w n)
  ]

  -- On any kernel, for the kernel's transfers of one thread in any order, and a socket that is no
  -- log descriptor: in both modes the handlers of all of them end, by a return or with the group
  -- killed. If they return, then in internal mode the thread's stack has got one wildcard for each
  -- transfer that delivers a signal, above what was there, and other threads have the stacks that
  -- they had; and in external mode the bytes written to the socket spell one signal for each
  -- transfer that delivers one, and nothing else.
  pub transfers_lem :
      (t sock : ℕ) (infos : List KernelXferInfo) (w : World)
      → IsNoLog w sock
      → Ends
          (λ _ v.
            (stack_of v t ≡ replicate (deliveries infos) (wildcard p) ++ stack_of w t)
            × ((u : ℕ) → t ≢ u → stack_of v u ≡ stack_of w u))
          (transfers (all_from internal) t infos w)
        × Ends
            (λ _ v. Told p sock (replicate (deliveries infos) Event.signal) w v)
            (transfers (all_from (external (some sock))) t infos w)
  transfers_lem t sock infos w n = (
    Ends-mono _ _ (transfers (all_from internal) t infos w) (transfers-Pushed t infos w)
        λ _ v a. (a.own, a.others),
    transfers-Told t sock infos w n,
  )
