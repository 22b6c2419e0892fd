-- ===== src/Message/Codec.antt =====
-- The bytes of messages (message.hpp, message.cpp): pointers survive their way through memory, every
-- message has the one size, and its first four bytes are its header.
use native.Mathlib.Nat.{pow-suc}
use dr_shadow_stack.Base.{
  ℕ, zero, suc, ◌+◌, ◌/◌, ◌^◌, ◌<◌, ◌≡◌, refl, ap, ◌∙◌, true, List, [], ◌∷◌, ◌++◌, take, drop,
  replicate, length, length-take, length-append, length-replicate, arith, bytes_eq_refl,
  eq_of_bytes_eq, take-append, drop-append,
}
use dr_shadow_stack.Platform.{Platform}
use dr_shadow_stack.Message.{
  Message, continue, header, to_memory, from_memory, strncpy, memset, set_length, is_a_valid,
  tabulate, message_size, header_only_message, with_body, at_header,
}

pub length-to_memory : (k a : ℕ) → length (to_memory k a) ≡ k
unfolding to_memory
length-to_memory zero a = refl
length-to_memory (suc k) a = ap suc (length-to_memory k (a / 256))

-- A pointer that fits k bytes is read back from the k bytes in which it lies in memory.
pub from_memory-to_memory : (k a : ℕ) → a < 256 ^ k → from_memory (to_memory k a) ≡ a
unfolding from_memory to_memory
from_memory-to_memory zero a h = omega arith
from_memory-to_memory (suc k) a h =
    let below : a / 256 < 256 ^ k = omega (arith, pow-suc 256 k) in
    omega (arith, from_memory-to_memory k (a / 256) below)

pub length-header : (m : Message) → length (header m) ≡ 4
unfolding header
length-header continue = refl
length-header _ = refl

take-header : (m : Message) → take 4 (header m) ≡ header m
unfolding header
take-header continue = refl
take-header _ = refl

length-tabulate : (n : ℕ) (f : ℕ → ℕ) → length (tabulate n f) ≡ n
unfolding tabulate
length-tabulate zero f = refl
length-tabulate (suc n) f = ap suc (length-tabulate n (λ i. f (suc i)))

memset-replicate : (n c d : ℕ) → memset (replicate n d) c n ≡ replicate n c
unfolding memset
memset-replicate zero c d = refl
memset-replicate (suc n) c d = ap (◌∷◌ c) (memset-replicate n c d)

strncpy-replicate : (n : ℕ) → strncpy (replicate n 0) [] n ≡ replicate n 0
unfolding strncpy
strncpy-replicate zero = refl
strncpy-replicate (suc n) = ap (◌∷◌ 0) (strncpy-replicate n)

strncpy_pads :
    (src : List ℕ) (n k : ℕ)
    → n ≡ length src + k
    → strncpy (replicate n 0) src n ≡ src ++ replicate k 0
unfolding strncpy
strncpy_pads [] n k e = rw (← (let e' : n ≡ k = omega arith in e')) (strncpy-replicate n)
strncpy_pads (c ∷ src) zero k e = absurd (omega arith)
strncpy_pads (c ∷ src) (suc n) k e = ap (◌∷◌ c) (strncpy_pads src n k (omega arith))

-- On a buffer of a string's length and k more bytes, whatever they hold, set_length makes the string
-- followed by k zeros.
pub set_length_pads :
    (src : List ℕ) (k d : ℕ)
    → set_length (replicate (length src + k) d) src (length src + k) ≡ src ++ replicate k 0
unfolding set_length
set_length_pads src k d = rw (memset-replicate (length src + k) 0 d) (strncpy_pads src _ k refl)

-- A valid message of a type is one whose first four bytes are its header.
pub is_a_valid_self : (m : Message) (bs : List ℕ) → take 4 bs ≡ header m → is_a_valid m bs ≡ true
unfolding is_a_valid
is_a_valid_self m bs e = rw (e, take-header m) (bytes_eq_refl (header m))

pub header_of_is_a_valid :
    (m : Message) (bs : List ℕ) → is_a_valid m bs ≡ true → take 4 bs ≡ header m
unfolding is_a_valid
header_of_is_a_valid m bs h = eq_of_bytes_eq _ _ h ∙ take-header m

module _ (p : Platform) where
  -- What send_msg takes from the literal on is a whole message with the right header.
  pub length-at_header : (m : Message) → length (at_header p m) ≡ message_size p
  unfolding at_header
  length-at_header m = omega (
    arith,
    length-take (message_size p)
        (header m ++ 0 ∷ tabulate (message_size p) (p.past_literal (header m))),
    length-append (header m) (0 ∷ tabulate (message_size p) (p.past_literal (header m))),
    length-tabulate (message_size p) (p.past_literal (header m)),
  )

  pub length-with_body :
      (m : Message) (ptr : List ℕ)
      → length ptr ≡ p.pointer_size
      → length (with_body p m ptr) ≡ message_size p
  unfolding with_body
  length-with_body m ptr h = omega (
    arith,
    length-append (take 4 (header m)) (take p.pointer_size ptr),
    length-take 4 (header m),
    length-header m,
    length-take p.pointer_size ptr,
  )

  pub take-at_header : (m : Message) → take 4 (at_header p m) ≡ header m
  unfolding at_header header
  take-at_header m =
      let e : message_size p ≡ suc (suc (suc (suc p.pointer_size))) = omega arith in rw e (go m)
    where
      go :
          (m : Message)
          → take 4 (
              take (suc (suc (suc (suc p.pointer_size)))) (
                header m
                ++ 0 ∷ tabulate (suc (suc (suc (suc p.pointer_size)))) (p.past_literal (header m))))
            ≡ header m
      go continue = refl
      go _ = refl

  pub take-with_body : (m : Message) (ptr : List ℕ) → take 4 (with_body p m ptr) ≡ header m
  unfolding with_body
  take-with_body m ptr =
      rw (take-header m) (take-append (header m) (take p.pointer_size ptr) (length-header m))

  pub drop-with_body :
      (m : Message) (ptr : List ℕ) → drop 4 (with_body p m ptr) ≡ take p.pointer_size ptr
  unfolding with_body
  drop-with_body m ptr =
      rw (take-header m) (drop-append (header m) (take p.pointer_size ptr) (length-header m))

  -- The buffer that `Continue::message` points to.
  pub header_only_message_lem :
      (m : Message) → header_only_message p m ≡ header m ++ replicate p.pointer_size 0
  unfolding header_only_message
  header_only_message_lem m =
      let e : message_size p ≡ length (header m) + p.pointer_size =
        omega (arith, length-header m) in
      rw e (set_length_pads (header m) p.pointer_size 0)

  pub length-header_only_message : (m : Message) → length (header_only_message p m) ≡ message_size p
  length-header_only_message m = rw (header_only_message_lem m) (
      omega (
        arith,
        length-append (header m) (replicate p.pointer_size 0),
        length-header m,
        length-replicate {A = ℕ} p.pointer_size 0,
      ))

  pub take-header_only_message : (m : Message) → take 4 (header_only_message p m) ≡ header m
  take-header_only_message m =
      rw (header_only_message_lem m)
        (take-append (header m) (replicate p.pointer_size 0) (length-header m))

  take-tabulate : (n k : ℕ) (f : ℕ → ℕ) → take n (tabulate (n + k) f) ≡ tabulate n f
  unfolding tabulate
  take-tabulate zero k f = refl
  take-tabulate (suc n) k f =
      let e : suc n + k ≡ suc (n + k) = omega arith in
      rw e (ap (◌∷◌ (f 0)) (take-tabulate n k (λ i. f (suc i))))

  take-append_more : (xs ys : List ℕ) (n : ℕ) → take (length xs + n) (xs ++ ys) ≡ xs ++ take n ys
  take-append_more [] ys n = ap (λ m. take m ys) (let e : 0 + n ≡ n = omega arith in e)
  take-append_more (x ∷ xs) ys n =
      let e : suc (length xs) + n ≡ suc (length xs + n) = omega arith in
      rw e (ap (◌∷◌ x) (take-append_more xs ys n))

  -- What `send_msg` sends of a header-only message.
  pub at_header_lem :
      (m : Message) (k : ℕ)
      → p.pointer_size ≡ suc k
      → at_header p m ≡ header m ++ 0 ∷ tabulate k (p.past_literal (header m))
  unfolding at_header
  at_header_lem m k h =
      let size : message_size p ≡ length (header m) + suc k = omega (arith, length-header m) in
      let more : message_size p ≡ k + 5 = omega arith in
      ap (λ n. take n (header m ++ 0 ∷ tabulate (message_size p) (p.past_literal (header m)))) size
      ∙ take-append_more (header m) _ (suc k)
      ∙ ap (λ xs. header m ++ 0 ∷ xs)
          (ap (λ n. take k (tabulate n (p.past_literal (header m)))) more
            ∙ take-tabulate k 5 (p.past_literal (header m)))
