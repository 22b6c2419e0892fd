-- ===== src/Message/Receive.antt =====
-- The two forms of recv_msg (message.hpp) on what a peer can send: they compare the header with that of
-- Continue, whatever message type the caller has named.
use dr_shadow_stack.Base.{
  ℕ, ◌≡◌, ◌≢◌, sym, ap, ◌∙◌, false, List, ◌++◌, take, min, length, ==_iff, take-append-drop,
  take-append_short, arith,
}
use dr_shadow_stack.Platform.{Platform, World}
use dr_shadow_stack.Platform.Post.{Ends, Kills, Ends-mono}
use dr_shadow_stack.Runtime.Termination.{Ends-checked, Ends-receive}
use dr_shadow_stack.Message.{Message, continue, header, message_size, recv_msg_and_body}
use dr_shadow_stack.Message.Codec.{header_of_is_a_valid}

module _ (p : Platform) where
  -- Whoever answers the recv, a header other than CONT kills the group: also the one that the caller waits for.
  pub recv_msg_and_body-Ends :
      (m : Message) (sock : ℕ) (w : World)
      → Ends
          (λ buffer v.
            (length buffer ≡ message_size p)
            × (take 4 buffer ≡ header continue)
            × (w.incoming ≡ buffer ++ v.incoming))
          (recv_msg_and_body p m sock w)
  unfolding recv_msg_and_body
  recv_msg_and_body-Ends m sock w =
      Ends-receive p _ sock (message_size p) w _ (Ends-checked p _ false _ _ _ (λ e. cc)) λ k e.
        Ends-checked p _ _ _ _ _ λ full. Ends-checked p _ _ _ _ _ λ valid. (
          (==_iff _ _).0 full,
          header_of_is_a_valid continue _ valid,
          sym (take-append-drop (min (message_size p) k) w.incoming),
        )

  -- On any kernel, whatever message type is asked for: recv_msg_and_body kills the group when the
  -- bytes that wait do not start with the header of Continue.
  pub recv_msg_and_body-Kills :
      (m : Message) (sock : ℕ) (w : World)
      → take 4 w.incoming ≢ header continue
      → Kills (recv_msg_and_body p m sock w)
  recv_msg_and_body-Kills m sock w h =
      Ends-mono _ _ (recv_msg_and_body p m sock w) (recv_msg_and_body-Ends m sock w)
        λ buffer v q. h (ap (take 4) q.2 ∙ take-whole buffer v.incoming q.0 ∙ q.1)
    where
      take-whole : (xs ys : List ℕ) → length xs ≡ message_size p → take 4 (xs ++ ys) ≡ take 4 xs
      take-whole xs ys e = take-append_short 4 xs ys (omega arith)
