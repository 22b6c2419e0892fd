-- ===== src/Internal.antt =====
-- dr_internal_ss_events.cpp: internal mode, with a shadow stack in each thread's local storage. The
-- thread that runs a handler, DynamoRIO's current context, is an argument.
pub mod Handlers
pub mod Stacks
pub mod Threads
pub mod Verdict
use dr_shadow_stack.Base.{
  ℕ, Bool, true, false, Option, none, some, List, [], ◌∷◌, ◌==◌, if◌then◌else◌,
}
use dr_shadow_stack.Text.{Arg, text, pointer, character}
use dr_shadow_stack.Platform.{
  Platform, World, M, set_tls_field, syscall, pure, skip, returns, undefined, ◌>>=◌, ◌>>◌,
}
use dr_shadow_stack.Runtime.{
  assert, log_error, verbose_log, terminate, TerminateOnDestruction, tod, destroy,
}
use dr_shadow_stack.Message.{wildcard}
use dr_shadow_stack.Sym
use dr_shadow_stack.ShadowStack.{Event}
use dr_shadow_stack.Server.{is_empty, top_of, pop_all}

-- A write to one thread's field.
abbrev pub update : (ℕ → Option (List ℕ)) → ℕ → List ℕ → ℕ → Option (List ℕ)
update f t s t' = if t == t' then some s else f t'

abbrev set_succeeded : Option ℕ → Bool
set_succeeded none = false
set_succeeded (some r) = true

module _ (p : Platform) where
  -- `TLS::get`: the thread's stack, made on first use.
  tls_get_or_new : ℕ → Option (List ℕ) → M (List ℕ)
  tls_get_or_new t (some s) = pure s
  tls_get_or_new t none = do
    r ← syscall p (set_tls_field t)
    assert p (set_succeeded r) (some (text "drmgr_set_tls_field() failed." ∷ []))
    λ w. returns [] (record w { tls = update w.tls t [] })

  unfoldable pub tls_get : ℕ → M (List ℕ)
  unfolding tls_get_or_new
  tls_get t w = tls_get_or_new t (w.tls t) w

  -- A change made through the reference that `get` returns.
  abbrev pub tls_store : ℕ → List ℕ → M (Unit {0})
  tls_store t s w = returns tt (record w { tls = update w.tls t s })

  unfoldable pub on_call : ℕ → ℕ → M (Unit {0})
  unfolding tls_get
  on_call t ret_to_addr = do
    verbose_log p (text "Call @ " ∷ pointer ret_to_addr ∷ [])
    ss ← tls_get t
    tls_store t (ret_to_addr ∷ ss)

  abbrev pub empty_report : ℕ → List Arg
  empty_report target_addr =
      text "*** Shadow stack mistmach detected! ***\nAttempting to return to "
      ∷ pointer target_addr
      ∷ text "\n\tShadow stack is empty!\n"
      ∷ []

  abbrev pub mismatch_report : ℕ → ℕ → List Arg
  mismatch_report target_addr top =
      text "*** Shadow stack mistmach detected! ***\nAttempting to return to "
      ∷ pointer target_addr
      ∷ text "\n\tTop of shadow stack is "
      ∷ pointer top
      ∷ character b'\n'
      ∷ []

  -- The first test of `on_ret`.
  reject_empty : List ℕ → ℕ → M (Unit {0})
  reject_empty ss target_addr =
      if is_empty ss
      then (do
        Sym.print p (text "return address" ∷ []) target_addr
        log_error p (empty_report target_addr)
        terminate p none true)
      else skip

  -- The last branch of `on_ret`.
  reject_mismatch : List ℕ → ℕ → ℕ → M (Unit {0})
  reject_mismatch ss top target_addr = do
    log_error p (mismatch_report target_addr top)
    top' ← top_of ss
    Sym.print p (text "top of shadow stack" ∷ []) top'
    Sym.print p (text "return address" ∷ []) target_addr
    terminate p none true

  -- `ss.pop()`
  abbrev pub pop_store : ℕ → List ℕ → M (Unit {0})
  pop_store t [] = λ w. undefined w
  pop_store t (a ∷ ss) = tls_store t ss

  unfoldable pub on_ret : ℕ → ℕ → M (Unit {0})
  unfolding tls_get reject_empty reject_mismatch
  on_ret t target_addr = do
    verbose_log p (text "Ret to " ∷ pointer target_addr ∷ [])
    ss ← tls_get t
    reject_empty ss target_addr
    top ← top_of ss
    if top == target_addr
        then pop_store t ss
        else (if top == wildcard p
            then (do
              verbose_log p (text "Wildcard detected. Returning from signal handler." ∷ [])
              pop_store t ss)
            else reject_mismatch ss top target_addr)

  unfoldable pub on_signal : ℕ → M (Unit {0})
  unfolding tls_get
  on_signal t = do ss ← tls_get t; tls_store t (wildcard p ∷ ss)

  unfoldable pub on_execve : ℕ → M (Unit {0})
  unfolding tls_get pop_all
  on_execve t = do
    verbose_log p (text "execve syscall detected, clearing shadow stack!" ∷ [])
    ss ← tls_get t
    tls_store t (pop_all ss)

module _ (p : Platform) where
  unfoldable pub syscall_filter : ℕ → Bool
  syscall_filter sysnum = if sysnum == p.sys_execve then true else false

  -- `pre` is passed on, and looked at by nobody.
  unfoldable pub syscall_event : ℕ → ℕ → Bool → M (Unit {0})
  syscall_event t sysnum pre = if sysnum == p.sys_execve then on_execve p t else skip

  unfoldable pub pre_syscall_event : ℕ → ℕ → M Bool
  unfolding syscall_event
  pre_syscall_event t sysnum = do syscall_event t sysnum true; pure true

  unfoldable pub post_syscall_event : ℕ → ℕ → M (Unit {0})
  unfolding syscall_event
  post_syscall_event t sysnum = syscall_event t sysnum false

  -- The handler of an event in thread `t`.
  unfoldable pub on_event : ℕ → Event → M (Unit {0})
  on_event t (Event.call a) = on_call p t a
  on_event t (Event.ret a) = on_ret p t a
  on_event t Event.signal = on_signal p t
  on_event t Event.execve = on_execve p t

  -- An interleaving of the threads' events, each handled in its thread.
  unfoldable pub run_events : List (ℕ × Event) → M (Unit {0})
  unfolding on_event
  run_events [] = skip
  run_events ((t, e) ∷ es) = do on_event t e; run_events es
