-- ===== src/HostOpen/Reachable.antt =====
-- What can happen to the clients of host_open.c, as a relation.
use native_pipe.Base.{ℕ, ◌≡◌, refl, Bool, none, List, [], arith}
use native_pipe.Wire.{WindowReader}
use native_pipe.HostOpen.State.{HostOpen, find_client}
use native_pipe.HostOpen.Request.{handle_command}
use native_pipe.HostOpen.Io.{RecvAnswer, SendAnswer, client_ready, io_expired, accept_peer}
use native_pipe.HostOpen.Valid.{IsValid}
use native_pipe.HostOpen.Handlers.{client_ready-IsValid, io_expired-IsValid}
use native_pipe.HostOpen.Answers.{handle_command-IsValid}
use native_pipe.HostOpen.Accepting.{accept_peer-IsValid}

-- What np_host_open_init leaves.
abbrev pub new_host_open : HostOpen
new_host_open = record { clients = []; count = 0; next_token = 1 }

module _ (utf8_validate : List ℕ → Bool) where
  -- The states that any sequence of calls can lead to. A descriptor that the system gives for a peer is not
  -- that of an open client.
  pub data Reachable : HostOpen → Type 0 where
    started : Reachable new_host_open
    peer_accepted :
        (o : HostOpen) (fd : ℕ) (same_user allocated watched : Bool)
        → find_client o.clients fd ≡ none
        → Reachable o
        → Reachable (accept_peer o fd same_user allocated watched).0
    client_served :
        (o : HostOpen) (ready host : Bool) (fd : ℕ) (hangup readable writable : Bool)
        (reads : List RecvAnswer) (writes : List SendAnswer)
        → Reachable o
        → Reachable
            (client_ready utf8_validate ready host o fd hangup readable writable reads writes).0
    client_expired : (o : HostOpen) (fd : ℕ) → Reachable o → Reachable (io_expired o fd).0
    command_handled :
        (o : HostOpen) (r : WindowReader)
        → Reachable o
        → Reachable (handle_command utf8_validate o r)

  -- In every state that connections, readable and writable events with whatever the system answers,
  -- expired timers and messages of the host can lead to: the count is the number of clients and at most
  -- 16; no two clients have the same token other than 0; a client has a token only once its whole request
  -- is read; and what a client has read or is to be sent fits the buffers of the client.
  pub Reachable-IsValid : (o : HostOpen) → Reachable o → IsValid o
  Reachable-IsValid o started = record {
    each = tt;
    apart = tt;
    counted = refl;
    few = omega arith;
    next_fits = omega arith;
  }
  Reachable-IsValid _ (peer_accepted o fd same_user allocated watched free h) =
      accept_peer-IsValid o fd same_user allocated watched (Reachable-IsValid o h) free
  Reachable-IsValid _ (client_served o ready host fd hangup readable writable reads writes h) =
      client_ready-IsValid utf8_validate ready host o fd hangup readable writable reads writes
        (Reachable-IsValid o h)
  Reachable-IsValid _ (client_expired o fd h) = io_expired-IsValid o fd (Reachable-IsValid o h)
  Reachable-IsValid _ (command_handled o r h) =
      handle_command-IsValid utf8_validate o r (Reachable-IsValid o h)
