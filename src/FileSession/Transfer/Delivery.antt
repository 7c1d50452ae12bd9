-- ===== src/FileSession/Transfer/Delivery.antt =====
-- From np_file2_send on one side to the inbox of the other.
use mathlib.Core.Path.{subst}
use native_pipe.Base.{ℕ, ◌+◌, ◌≤◌, ◌≡◌, sym, Bool, true, false, not, ◌&&◌, none, List, length}
use native_pipe.FileSession.State.{Session, Stream, stream_data_max}
use native_pipe.FileSession.Calls.{send_check}
use native_pipe.FileSession.Transfer.{Sent, finished, send, deliver, is_nil}
use native_pipe.FileSession.Transfer.Sender.{CanSend, send-Wrote, Wrote, after_send}
use native_pipe.FileSession.Transfer.Receiver.{CanReceive, Took, deliver-Took}

-- A send that ended, and whose frames the peer took.
abbrev pub Delivered : Session → Stream → List ℕ → Bool → Sent → Type 0
Delivered r u bytes end (finished v fs) = Took r u bytes end (deliver true r fs)
Delivered r u bytes end _ = ⊥

Wrote-Delivered :
    (r : Session) (u final : Stream) (bytes : List ℕ) (end : Bool) (o : Sent)
    → CanReceive r u
    → u.received + length bytes ≤ stream_data_max
    → Wrote u.id bytes end final o
    → Delivered r u bytes end o
Wrote-Delivered r u final bytes end (finished v fs) can room (all, data_of, found) =
    subst (λ k. Took r u k end (deliver true r fs)) all
      (deliver-Took r u fs end can data_of
        (subst (λ k. u.received + length k ≤ stream_data_max) (sym all) room))
Wrote-Delivered r u final bytes end _ can room w = w

-- Bytes that one side sends on an open stream arrive: np_file2_send ends, the peer's dispatch accepts
-- every frame that it wrote, and the bytes stand whole and in order behind those that waited in the
-- stream's inbox; the peer sees the end of the half exactly if it was sent, and its session stays
-- valid. Both sides have memory, the sender is alone at its gate, and the bytes are within the limit
-- that both sides count.
pub send-Delivered :
    (s r : Session) (t u : Stream) (bytes : List ℕ) (end : Bool)
    → CanSend s t
    → CanReceive r u
    → u.id ≡ t.id
    → send_check t (length bytes) ≡ none
    → (is_nil bytes && not end) ≡ false
    → u.received + length bytes ≤ stream_data_max
    → Delivered r u bytes end (send s t bytes end)
send-Delivered s r t u bytes end can_send can_receive same allowed some_work room =
    Wrote-Delivered r u (after_send t (length bytes) end) bytes end (send s t bytes end) can_receive
      room
      (subst (λ k. Wrote k bytes end (after_send t (length bytes) end) (send s t bytes end))
        (sym same) (send-Wrote s t bytes end can_send allowed some_work))
