-- ===== src/Server.antt =====
-- external_stack_server.cpp: the process that keeps the shadow stack in external mode. The stack is a
-- list with its top first; the socket is a descriptor and the bytes that wait on it.
pub mod Handlers
pub mod Loop
pub mod Round
pub mod Answer
pub mod Verdict
pub mod Bounds
use dr_shadow_stack.Base.{
  ℕ, zero, suc, ◌+◌, ◌≡◌, Bool, true, false, Option, none, some, List, [], ◌∷◌, ◌++◌, take, drop,
  bytes_eq, length, ◌==◌, ◌||◌, if◌then◌else◌,
}
use dr_shadow_stack.Text.{Arg, text, bytes, pointer}
use dr_shadow_stack.Platform.{
  Platform, World, M, write, syscall, receive, pure, skip, returns, undefined, out_of_fuel, ◌>>=◌,
  ◌>>◌,
}
use dr_shadow_stack.Runtime.{
  assert, wrote_all, log, log_error, verbose_log, terminate, TerminateOnDestruction, tod, disable,
  destroy,
}
use dr_shadow_stack.Message.{
  Message, continue, call, ret, new_signal, execve, message_header_length, header, from_memory,
  header_only_message, message_size, wildcard, received_all, contents,
}

-- The message handling functions, as data.
pub data MessageHandler : Type 0 where
  add_wildcard clear_stack call_handler ret_handler : MessageHandler

-- std::map<std::string, message_handler>: `operator[]` inserts nullptr at a key that is missing.
abbrev pub HandlerMap : Type 0
HandlerMap = List (List ℕ × Option MessageHandler)

unfoldable pub at : HandlerMap → List ℕ → Option MessageHandler × HandlerMap
at [] key = (none, (key, none) ∷ [])
at ((k, h) ∷ m) key =
    let (found, rest) = at m key in
    if bytes_eq k key then (h, (k, h) ∷ m) else (found, (k, h) ∷ rest)

unfoldable pub call_correct_function : HandlerMap
call_correct_function =
    (header new_signal, some add_wildcard)
    ∷ (header execve, some clear_stack)
    ∷ (header call, some call_handler)
    ∷ (header ret, some ret_handler)
    ∷ []

-- std::stack's empty, top and pop; the last two are undefined on the empty stack.
abbrev pub is_empty : List ℕ → Bool
is_empty [] = true
is_empty (a ∷ stk) = false

abbrev pub top_of : List ℕ → M ℕ
top_of [] = λ w. undefined w
top_of (a ∷ stk) = pure a

abbrev pub pop_of : List ℕ → M (List ℕ)
pop_of [] = λ w. undefined w
pop_of (a ∷ stk) = pure stk

-- `while ( stk.size() ) stk.pop();`
unfoldable pub pop_all : List ℕ → List ℕ
pop_all [] = []
pop_all (a ∷ stk) = pop_all stk

module _ (p : Platform) where
  abbrev pub empty_report : ℕ → List Arg
  empty_report addr =
      text "*** Shadow stack mistmach detected! ***\nAttempting to return to "
      ∷ pointer addr
      ∷ text "\n\tShadow Stack is empty.\n"
      ∷ []

  abbrev pub mismatch_report : ℕ → ℕ → List Arg
  mismatch_report addr top =
      text "*** Shadow stack mistmach detected! ***\nAttempting to return to "
      ∷ pointer addr
      ∷ text "\n\tTop of shadow stack is "
      ∷ pointer top
      ∷ text "\n"
      ∷ []

  -- `*( (char **) buffer )`
  abbrev pub pointer_in : List ℕ → ℕ
  pointer_in buffer = from_memory (take p.pointer_size buffer)

  unfoldable pub on_add_wildcard : List ℕ → M (List ℕ)
  on_add_wildcard stk = do
    verbose_log p (text "(server) Signal detected, adding wildcard!" ∷ [])
    pure (wildcard p ∷ stk)

  unfoldable pub on_clear_stack : List ℕ → M (List ℕ)
  unfolding pop_all
  on_clear_stack stk = do
    verbose_log p (text "(server) execve syscall detected, clearing shadow stack!" ∷ [])
    pure (pop_all stk)

  unfoldable pub on_call : List ℕ → List ℕ → M (List ℕ)
  on_call stk buffer = do
    let addr = pointer_in buffer
    verbose_log p (text "(server) Push(" ∷ pointer addr ∷ text ")" ∷ [])
    pure (addr ∷ stk)

  -- The steps of `ret_handler`, in their order.
  check_not_empty : List ℕ → ℕ → M (Unit {0})
  check_not_empty stk addr =
      if is_empty stk then (do log_error p (empty_report addr); terminate p none true) else skip

  check_top : ℕ → ℕ → M (Unit {0})
  check_top top addr =
      if top == wildcard p
      then verbose_log p (text "Wildcard detected, returning from signal handler allowed." ∷ [])
      else (if addr == top
          then skip
          else (do log_error p (mismatch_report addr top); terminate p none true))

  tell_continue : ℕ → M (Unit {0})
  tell_continue sock = do
    bytes_sent ← syscall p (write sock (header_only_message p continue))
    assert p (wrote_all bytes_sent (message_size p)) (some (text "write() failed." ∷ []))

  unfoldable pub on_ret : List ℕ → List ℕ → ℕ → M (List ℕ)
  unfolding check_not_empty check_top tell_continue
  on_ret stk buffer sock = do
    let addr = pointer_in buffer
    verbose_log p (text "(server) Pop(" ∷ pointer addr ∷ text ")\n" ∷ [])
    check_not_empty stk addr
    top ← top_of stk
    check_top top addr
    stk' ← pop_of stk
    tell_continue sock
    pure stk'

  -- `function_ptr( stk, buffer, sock )`
  unfoldable pub handle : Option MessageHandler → List ℕ → List ℕ → ℕ → M (List ℕ)
  handle none stk buffer sock = λ w. undefined w
  handle (some add_wildcard) stk buffer sock = on_add_wildcard stk
  handle (some clear_stack) stk buffer sock = on_clear_stack stk
  handle (some call_handler) stk buffer sock = on_call stk buffer
  handle (some ret_handler) stk buffer sock = on_ret stk buffer sock

  abbrev pub is_some : Option MessageHandler → Bool
  is_some none = false
  is_some (some h) = true

  -- The part of a round behind the receipt of a whole message.
  unfoldable pub dispatch : HandlerMap → List ℕ → List ℕ → ℕ → M (List ℕ × HandlerMap)
  dispatch m stk buffer sock = do
    let message_type = take message_header_length buffer
    let (function_ptr, m') = at m message_type
    verbose_log p (text "Got message header: " ∷ bytes message_type ∷ [])
    if is_some function_ptr
        then skip
        else log_error p (
            text "Sever recieved wrong type of message."
            ∷ text "\n\tMessage header was: "
            ∷ bytes message_type
            ∷ [])
    assert p (is_some function_ptr) (some (text "Sever recieved wrong type of message!" ∷ []))
    stk' ← handle function_ptr stk (drop message_header_length buffer) sock
    pure (stk', m')

  -- A round of the loop once recv has returned; `next` is the rest of the loop.
  unfoldable pub round :
      HandlerMap
      → List ℕ
      → ℕ
      → Option (List ℕ)
      → (HandlerMap → List ℕ → M (Unit {0}))
      → M (Unit {0})
  round m stk sock bytes_recv next = do
    assert p (received_all bytes_recv (message_size p) || received_all bytes_recv 0)
        (some (text "recv() failed" ∷ []))
    if received_all bytes_recv 0
        then log p (text "Client Disconnected." ∷ [])
        else (do (stk', m') ← dispatch m stk (contents bytes_recv) sock; next m' stk')

  -- The loop, on fuel: a round reads at least one byte or is the last.
  unfoldable pub serve : ℕ → HandlerMap → List ℕ → ℕ → M (Unit {0})
  serve zero m stk sock = λ w. out_of_fuel
  serve (suc f) m stk sock = do
    bytes_recv ← receive p sock (message_size p)
    round m stk sock bytes_recv (λ m' stk'. serve f m' stk' sock)

  -- A round more than there are bytes is enough.
  unfoldable pub start_external_shadow_stack : ℕ → M (Unit {0})
  unfolding serve
  start_external_shadow_stack sock = do
    λ w. serve (suc (length w.incoming)) call_correct_function [] sock w
    destroy p (disable tod)
