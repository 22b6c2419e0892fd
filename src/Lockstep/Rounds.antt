-- ===== src/Lockstep/Rounds.antt =====
-- One round of the server (external_stack_server.cpp) on a kernel whose calls succeed, as a step of a
-- session: it makes the abstract step, or it kills the group.
use dr_shadow_stack.Base.{
  none, drop-append, drop, length, ℕ, ◌≡◌, refl, sym, ap, ◌∙◌, subst, some, List, [], ◌∷◌, take,
  take-append,
}
use dr_shadow_stack.Platform.{recv, Platform, World}
use dr_shadow_stack.Platform.Post.{Returns-inv, IsNoLog-moved, IsNoLog}
use dr_shadow_stack.Server.{HandlerMap}
use dr_shadow_stack.Platform.Post.{IsNoLog-same, Kills}
use dr_shadow_stack.Runtime.Logging.{receive-Works, Works}
use dr_shadow_stack.Message.{message_size, wildcard}
use dr_shadow_stack.ShadowStack.{check, Event, returns_in}
use dr_shadow_stack.Lockstep.{returns, receive}
use dr_shadow_stack.Server.{call_correct_function, dispatch}
use dr_shadow_stack.Server.Answer.{dispatch-Returns, dispatch-Kills}
use dr_shadow_stack.Message.Events.{Stream, more}
use dr_shadow_stack.Lockstep.{written}
use dr_shadow_stack.Lockstep.Messages.{written_lem}
use dr_shadow_stack.Lockstep.Channel.{replies}

-- The server reads the message at the front and makes its step.
pub record ServerStep (p : Platform) (sock : ℕ) (e : Event) (rest : List Event) (stk s : List ℕ)
    (w : World) : Type 0 where
  pub chunk : List ℕ
  pub read : World
  pub next : World
  pub got : receive p sock (message_size p) w ≡ returns (some chunk) read
  pub full : length chunk ≡ message_size p
  pub made :
      dispatch p call_correct_function stk chunk sock read ≡ returns (s, call_correct_function) next
  pub apart : IsNoLog next sock
  pub left : Stream p [] rest next.incoming
  pub answered : written sock read next ≡ replies p (returns_in (e ∷ []))

pub serve-Returns :
    (p : Platform) (ok : Works p) (sock : ℕ) (e : Event) (rest : List Event) (stk s : List ℕ)
    (w : World)
    → IsNoLog w sock
    → Stream p [] (e ∷ rest) w.incoming
    → check (wildcard p) stk e ≡ some s
    → ServerStep p sock e rest stk s w
serve-Returns p ok sock e rest stk s w n (more _ chunk mid c i st) step =
    let read : World = record w {
      trace = recv sock (message_size p) ∷ w.trace;
      incoming = drop (message_size p) w.incoming;
    } in
    let front : take (message_size p) w.incoming ≡ chunk =
      ap (take (message_size p)) i ∙ take-append chunk mid c.full in
    let behind : drop (message_size p) w.incoming ≡ mid =
      ap (drop (message_size p)) i ∙ drop-append chunk mid c.full in
    let n' = IsNoLog-moved w read sock refl n in
    let ((s', m), v, made, (is, mapped, served)) =
      Returns-inv _ (dispatch p call_correct_function stk chunk sock read)
        (dispatch-Returns p ok e chunk stk s sock read c step n') in
    record {
      chunk = chunk;
      read = read;
      next = v;
      got = receive-Works p ok sock (message_size p) w ∙ (λ x. returns (some (front x)) read);
      full = c.full;
      made = made ∙ (λ x. returns (is x, mapped x) v);
      apart = (IsNoLog-same read v sock served.same).0 n';
      left =
          subst (Stream p [] rest) (sym (ap (λ (u : World). u.incoming) served.same ∙ behind)) st;
      answered = written_lem sock read v _ served.replies;
    }

-- The server's next round kills the group.
abbrev pub RoundKills : Platform → ℕ → HandlerMap → List ℕ → World → Type 0
RoundKills p sock' handlers stk server =
    (chunk : List ℕ) × (w : World) × (receive p sock' (message_size p) server
      ≡ returns (some chunk) w)
    × (length chunk ≡ message_size p)
    × Kills (dispatch p handlers stk chunk sock' w)

pub serve-RoundKills :
    (p : Platform) (ok : Works p) (sock : ℕ) (e : Event) (rest : List Event) (stk : List ℕ)
    (w : World)
    → IsNoLog w sock
    → Stream p [] (e ∷ rest) w.incoming
    → check (wildcard p) stk e ≡ none
    → RoundKills p sock call_correct_function stk w
serve-RoundKills p ok sock e rest stk w n (more _ chunk mid c i st) step =
    let read : World = record w {
      trace = recv sock (message_size p) ∷ w.trace;
      incoming = drop (message_size p) w.incoming;
    } in
    let front : take (message_size p) w.incoming ≡ chunk =
      ap (take (message_size p)) i ∙ take-append chunk mid c.full in
    (
      chunk,
      read,
      receive-Works p ok sock (message_size p) w ∙ (λ x. returns (some (front x)) read),
      c.full,
      dispatch-Kills p ok e chunk stk sock read c step (IsNoLog-moved w read sock refl n),
    )
