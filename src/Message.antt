-- ===== src/Message.antt =====
-- message.hpp and message.cpp: the message types, their bytes, and their transfer. All messages have
-- one size: four bytes of header and a pointer, which is little-endian as on every x86.

pub mod Codec
pub mod Events
pub mod Receive
pub mod Unique
use dr_shadow_stack.Base.{
  ℕ, zero, suc, ◌+◌, ◌-◌, ◌*◌, ◌/◌, ◌%◌, ◌^◌, Bool, true, false, Option, none, some, List, [], ◌∷◌,
  ◌++◌, take, drop, replicate, codes, bytes_eq, length, ◌==◌,
}
use dr_shadow_stack.Text.{text}
use dr_shadow_stack.Platform.{Platform, M, write, syscall, receive, pure, ◌>>=◌, ◌>>◌}
use dr_shadow_stack.Runtime.{assert, wrote_all}

pub data Message : Type 0 where
  continue call ret new_signal execve fork thread : Message

abbrev pub message_header_length : ℕ
message_header_length = 4

unfoldable pub header : Message → List ℕ
header continue = codes "CONT"
header call = codes "CALL"
header ret = codes "RET-"
header new_signal = codes "NEWS"
header execve = codes "EXEC"
header fork = codes "FORK"
header thread = codes "THRD"

-- A pointer's bytes in memory, and the pointer that some bytes hold.
unfoldable pub to_memory : ℕ → ℕ → List ℕ
to_memory zero a = []
to_memory (suc k) a = (a % 256) ∷ to_memory k (a / 256)

unfoldable pub from_memory : List ℕ → ℕ
from_memory [] = 0
from_memory (b ∷ bs) = b + 256 * from_memory bs

-- strncpy copies up to the NUL, here the end of `src`, and pads with zeros.
strncpy : List ℕ → List ℕ → ℕ → List ℕ
strncpy dst src zero = dst
strncpy [] src (suc n) = []
strncpy (d ∷ dst) [] (suc n) = 0 ∷ strncpy dst [] n
strncpy (d ∷ dst) (c ∷ src) (suc n) = c ∷ strncpy dst src n

memset : List ℕ → ℕ → ℕ → List ℕ
memset dst c zero = dst
memset [] c (suc n) = []
memset (d ∷ dst) c (suc n) = c ∷ memset dst c n

unfoldable pub set_length : List ℕ → List ℕ → ℕ → List ℕ
unfolding strncpy memset
set_length dst src n = strncpy (memset dst 0 n) src n

unfoldable pub is_a_valid : Message → List ℕ → Bool
is_a_valid m buffer =
    bytes_eq (take message_header_length buffer) (take message_header_length (header m))

pub tabulate : ℕ → (ℕ → ℕ) → List ℕ
tabulate zero f = []
tabulate (suc n) f = f 0 ∷ tabulate n (λ i. f (suc i))

-- `bytes_recv == Msg::size`
abbrev pub received_all : Option (List ℕ) → ℕ → Bool
received_all none n = false
received_all (some bs) n = length bs == n

abbrev pub contents : Option (List ℕ) → List ℕ
contents none = []
contents (some bs) = bs

module _ (p : Platform) where
  abbrev pub message_size : ℕ
  message_size = p.pointer_size + message_header_length

  -- `(char *) WILDCARD`, that is the pointer -1.
  abbrev pub wildcard : ℕ
  wildcard = 256 ^ p.pointer_size - 1

  -- `MessageType<true, Info>::message`
  unfoldable pub header_only_message : Message → List ℕ
  header_only_message m = set_length (replicate message_size 0) (header m) message_size

  -- The constructor of `MessageType<false, Info>`: header, then the bytes at `ptr`.
  unfoldable pub with_body : Message → List ℕ → List ℕ
  with_body m ptr = take message_header_length (header m) ++ take p.pointer_size ptr

  -- The bytes from `Msg::header` on: the literal, its NUL, and what lies behind it.
  unfoldable pub at_header : Message → List ℕ
  unfolding tabulate
  at_header m =
      take message_size (header m ++ 0 ∷ tabulate message_size (p.past_literal (header m)))

  -- send_msg of a header-only message writes `Msg::size` bytes from `Msg::header`.
  unfoldable pub send_msg : Message → ℕ → M (Unit {0})
  send_msg m sock = do
    bytes_sent ← syscall p (write sock (at_header m))
    assert p (wrote_all bytes_sent message_size) (some (text "write() failed!" ∷ []))

  -- send_msg of a message with a body.
  unfoldable pub send_msg_with_body : Message → ℕ → List ℕ → M (Unit {0})
  send_msg_with_body m sock bdy = do
    bytes_sent ← syscall p (write sock (with_body m bdy))
    assert p (wrote_all bytes_sent message_size) (some (text "write() failed!" ∷ []))

  -- Both forms of recv_msg check for the header of Continue, whatever `Msg` is.
  unfoldable pub recv_msg_and_body : Message → ℕ → M (List ℕ)
  recv_msg_and_body m sock = do
    bytes_recv ← receive p sock message_size
    assert p (received_all bytes_recv message_size)
        (some (text "Did not get full size message!" ∷ []))
    let buffer = contents bytes_recv
    assert p (is_a_valid continue buffer) (some (text "Received incorrect message!" ∷ []))
    pure buffer

  unfoldable pub recv_msg : Message → ℕ → M (Unit {0})
  recv_msg m sock = do
    bytes_recv ← receive p sock message_size
    assert p (received_all bytes_recv message_size)
        (some (text "Did not get full size message!" ∷ []))
    assert p (is_a_valid continue (contents bytes_recv))
        (some (text "Received incorrect message!" ∷ []))
