-- ===== src/Message/Events.antt =====
-- How the client's messages (message.hpp) stand for the events of the abstract shadow stack: one
-- message for each, and a stream of bytes for a history.
use dr_shadow_stack.Base.{ℕ, ◌≡◌, List, [], ◌∷◌, ◌++◌, take, drop, length}
use dr_shadow_stack.Platform.{Platform}
use dr_shadow_stack.ShadowStack.{Event}
use dr_shadow_stack.Message.{Message, header, from_memory, message_size}

abbrev pub message_of : Event → Message
message_of (Event.call a) = Message.call
message_of (Event.ret a) = Message.ret
message_of Event.signal = Message.new_signal
message_of Event.execve = Message.execve

-- The address that a body must hold. The body of a header-only message is free.
abbrev pub HasAddress : Platform → Event → List ℕ → Type 0
HasAddress p (Event.call a) body = from_memory (take p.pointer_size body) ≡ a
HasAddress p (Event.ret a) body = from_memory (take p.pointer_size body) ≡ a
HasAddress p Event.signal body = Unit {0}
HasAddress p Event.execve body = Unit {0}

pub record Encodes (p : Platform) (e : Event) (chunk : List ℕ) : Type 0 where
  pub full : length chunk ≡ message_size p
  pub head : take 4 chunk ≡ header (message_of e)
  pub body : HasAddress p e (drop 4 chunk)

-- Bytes that spell a history, up to what is left of them.
pub data Stream (p : Platform) (rest : List ℕ) : List Event → List ℕ → Type 0 where
  end : {bs : List ℕ} → bs ≡ rest → Stream p rest [] bs
  more :
      (e : Event) (chunk mid : List ℕ) {es : List Event} {bs : List ℕ}
      → Encodes p e chunk
      → bs ≡ chunk ++ mid
      → Stream p rest es mid
      → Stream p rest (e ∷ es) bs
