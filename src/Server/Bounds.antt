-- ===== src/Server/Bounds.antt =====
-- The numbers on the shadow stack of external_stack_server.cpp are pointers of the target, whatever
-- bytes arrive.
use native.Mathlib.Nat.{pow-suc}
use dr_shadow_stack.Base.{
  ℕ, zero, suc, ◌^◌, ◌<◌, ◌≡◌, subst, Bool, true, false, some, none, List, [], ◌∷◌, take, drop,
  length, arith, length-take, length-drop, if◌then◌else◌,
}
use dr_shadow_stack.Platform.{Platform, World}
use dr_shadow_stack.Platform.Post.{Ends, IsNoLog, Ends-mono}
use dr_shadow_stack.Message.{from_memory, message_size, wildcard}
use dr_shadow_stack.Message.Events.{Encodes}
use dr_shadow_stack.ShadowStack.{Event, check, allows}
use dr_shadow_stack.Server.{call_correct_function, dispatch}
use dr_shadow_stack.Server.Round.{dispatch-Ends}

abbrev pub AllBelow : ℕ → List ℕ → Type 0
AllBelow n [] = Unit {0}
AllBelow n (x ∷ xs) = (x < n) × AllBelow n xs

take-AllBelow : (n k : ℕ) (xs : List ℕ) → AllBelow n xs → AllBelow n (take k xs)
take-AllBelow n zero xs h = tt
take-AllBelow n (suc k) [] h = tt
take-AllBelow n (suc k) (x ∷ xs) h = (h.0, take-AllBelow n k xs h.1)

drop-AllBelow : (n k : ℕ) (xs : List ℕ) → AllBelow n xs → AllBelow n (drop k xs)
drop-AllBelow n zero xs h = h
drop-AllBelow n (suc k) [] h = tt
drop-AllBelow n (suc k) (x ∷ xs) h = drop-AllBelow n k xs h.1

-- Bytes hold a number that fits them.
pub from_memory-bounded :
    (bs : List ℕ) (k : ℕ) → AllBelow 256 bs → length bs ≡ k → from_memory bs < 256 ^ k
unfolding from_memory
from_memory-bounded [] zero h e = omega arith
from_memory-bounded [] (suc k) h e = absurd (omega arith)
from_memory-bounded (b ∷ bs) zero h e = absurd (omega arith)
from_memory-bounded (b ∷ bs) (suc k) h e =
    omega (arith, h.0, pow-suc 256 k, from_memory-bounded bs k h.1 (omega arith))

pub pow-positive : (k : ℕ) → 0 < 256 ^ k
pow-positive zero = omega arith
pow-positive (suc k) = omega (arith, pow-suc 256 k, pow-positive k)

module _ (p : Platform) where
  -- The numbers that a pointer of the target can hold.
  abbrev pub pointers : ℕ
  pointers = 256 ^ p.pointer_size

  address-bounded :
      (chunk : List ℕ)
      → AllBelow 256 chunk
      → length chunk ≡ message_size p
      → from_memory (take p.pointer_size (drop 4 chunk)) < pointers
  address-bounded chunk h full =
      from_memory-bounded (take p.pointer_size (drop 4 chunk)) p.pointer_size
        (take-AllBelow 256 p.pointer_size (drop 4 chunk) (drop-AllBelow 256 4 chunk h))
        (let e : length (take p.pointer_size (drop 4 chunk)) ≡ p.pointer_size =
            omega (arith, length-take p.pointer_size (drop 4 chunk), length-drop 4 chunk) in
          e)

  check-AllBelow :
      (e : Event) (chunk stk s : List ℕ)
      → AllBelow 256 chunk
      → Encodes p e chunk
      → AllBelow pointers stk
      → check (wildcard p) stk e ≡ some s
      → AllBelow pointers s
  unfolding check
  check-AllBelow (Event.call a) chunk stk s bytes c h k =
      let fits : a < pointers =
        subst (λ x. x < pointers) c.body (address-bounded chunk bytes c.full) in
      let e : a ∷ stk ≡ s = cc in subst (AllBelow pointers) e (fits, h)
  check-AllBelow Event.signal chunk stk s bytes c h k =
      let e : wildcard p ∷ stk ≡ s = cc in
      subst (AllBelow pointers) e (omega (arith, pow-positive p.pointer_size), h)
  check-AllBelow Event.execve chunk stk s bytes c h k =
      let e : [] ≡ s = cc in subst (AllBelow pointers) e tt
  check-AllBelow (Event.ret a) chunk [] s bytes c h k = cc
  check-AllBelow (Event.ret a) chunk (top ∷ stk) s bytes c h k =
      popped (allows (wildcard p) top a) k
    where
      popped : (b : Bool) → (if b then some stk else none) ≡ some s → AllBelow pointers s
      popped true e = let same : stk ≡ s = cc in subst (AllBelow pointers) same h.1
      popped false e = cc

  -- On any kernel, for a whole message of any bytes on a socket that is no log descriptor: if all
  -- entries of the stack fit a pointer of the target, the server's round ends, by a return or with
  -- the group killed, and after a return all entries fit a pointer too.
  pub dispatch-bounded :
      (stk chunk : List ℕ) (sock : ℕ) (w : World)
      → AllBelow 256 chunk
      → length chunk ≡ message_size p
      → IsNoLog w sock
      → AllBelow pointers stk
      → Ends (λ r _. AllBelow pointers r.0) (dispatch p call_correct_function stk chunk sock w)
  dispatch-bounded stk chunk sock w bytes full n h =
      Ends-mono _ _ (dispatch p call_correct_function stk chunk sock w)
        (dispatch-Ends p stk chunk sock w full n)
        λ r v (e, c, step, _, _). check-AllBelow e chunk stk r.0 bytes c h step
