-- ===== src/Message/Unique.antt =====
-- No two histories are spelled by the same bytes (message.hpp): a message's header tells its type, and
-- its body the address.
use dr_shadow_stack.Base.{
  ℕ, ◌≡◌, refl, sym, ap, ◌∙◌, subst, Option, none, some, List, [], ◌∷◌, take, drop, length, codes,
  bytes_eq, if◌then◌else◌, arith, length-append, take-append, drop-append,
}
use dr_shadow_stack.Platform.{Platform}
use dr_shadow_stack.Message.{
  Message, continue, call, ret, new_signal, execve, fork, thread, header, from_memory, message_size,
}
use dr_shadow_stack.Message.Events.{Encodes, HasAddress, Stream, end, more, message_of}
use dr_shadow_stack.ShadowStack.{Event}

-- The type that a header stands for.
abbrev type_of : List ℕ → Option Message
type_of bs =
    if bytes_eq bs (codes "CONT")
    then some continue
    else (if bytes_eq bs (codes "CALL")
        then some call
        else (if bytes_eq bs (codes "RET-")
            then some ret
            else (if bytes_eq bs (codes "NEWS")
                then some new_signal
                else (if bytes_eq bs (codes "EXEC")
                    then some execve
                    else (if bytes_eq bs (codes "FORK")
                        then some fork
                        else (if bytes_eq bs (codes "THRD") then some thread else none))))))

type_of-header : (m : Message) → type_of (header m) ≡ some m
unfolding header
type_of-header continue = refl
type_of-header call = refl
type_of-header ret = refl
type_of-header new_signal = refl
type_of-header execve = refl
type_of-header fork = refl
type_of-header thread = refl

-- The static assertion on the length of headers aside, that no two types share a header.
pub header-injective : (m k : Message) → header m ≡ header k → m ≡ k
header-injective m k e =
    let q : some m ≡ some k = sym (type_of-header m) ∙ ap type_of e ∙ type_of-header k in cc

-- The event of a type and an address; three types have none.
abbrev event_with : ℕ → Option Message → Option Event
event_with a (some call) = some (Event.call a)
event_with a (some ret) = some (Event.ret a)
event_with a (some new_signal) = some Event.signal
event_with a (some execve) = some Event.execve
event_with a _ = none

module _ (p : Platform) where
  abbrev event_of : List ℕ → Option Event
  event_of chunk =
      event_with (from_memory (take p.pointer_size (drop 4 chunk))) (type_of (take 4 chunk))

  event_with-message_of :
      (e : Event) (body : List ℕ)
      → HasAddress p e body
      → event_with (from_memory (take p.pointer_size body)) (some (message_of e)) ≡ some e
  event_with-message_of (Event.call a) body h = ap (λ x. some (Event.call x)) h
  event_with-message_of (Event.ret a) body h = ap (λ x. some (Event.ret x)) h
  event_with-message_of Event.signal body h = refl
  event_with-message_of Event.execve body h = refl

  event_of-Encodes : (e : Event) (chunk : List ℕ) → Encodes p e chunk → event_of chunk ≡ some e
  event_of-Encodes e chunk c =
      ap (event_with (from_memory (take p.pointer_size (drop 4 chunk))))
        (ap type_of c.head ∙ type_of-header (message_of e))
      ∙ event_with-message_of e (drop 4 chunk) c.body

  pub Encodes-unique :
      (e f : Event) (chunk : List ℕ) → Encodes p e chunk → Encodes p f chunk → e ≡ f
  Encodes-unique e f chunk c d =
      let q : some e ≡ some f = sym (event_of-Encodes e chunk c) ∙ event_of-Encodes f chunk d in cc

  -- No two histories are spelled by the same bytes: where a stream is whole messages that stand for
  -- one history, and stands for another up to its end, the two are the same.
  pub Stream-unique :
      (es fs : List Event) (bs : List ℕ) → Stream p [] es bs → Stream p [] fs bs → es ≡ fs
  Stream-unique [] [] bs s t = refl
  Stream-unique [] (f ∷ fs) bs (end z) (more _ chunk mid c i t) =
      absurd (omega (arith, ap length z, ap length i, length-append chunk mid, c.full))
  Stream-unique (e ∷ es) [] bs (more _ chunk mid c i s) (end z) =
      absurd (omega (arith, ap length z, ap length i, length-append chunk mid, c.full))
  Stream-unique (e ∷ es) (f ∷ fs) bs (more _ chunk mid c i s) (more _ chunk' mid' d j t) =
      let first : chunk' ≡ chunk =
        sym (take-append chunk' mid' d.full)
        ∙ ap (take (message_size p)) (sym j ∙ i)
        ∙ take-append chunk mid c.full in
      let rest : mid' ≡ mid =
        sym (drop-append chunk' mid' d.full)
        ∙ ap (drop (message_size p)) (sym j ∙ i)
        ∙ drop-append chunk mid c.full in
      let head : e ≡ f = Encodes-unique e f chunk c (subst (Encodes p f) first d) in
      let tail : es ≡ fs = Stream-unique es fs mid s (subst (Stream p [] fs) rest t) in
      λ x. head x ∷ tail x
