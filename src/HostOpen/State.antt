-- ===== src/HostOpen/State.antt =====
-- The clients of host_open.c. A client is named by its descriptor.
use native_pipe.Base.{ℕ, Bool, Option, none, some, List, [], ◌∷◌, ◌==◌, if◌then◌else◌}
use native_pipe.Base.Bytes.{dec32}

abbrev pub max_pending : ℕ
max_pending = 16

-- `struct np_host_open_client`: `received` is the length of `input`, `output_length` that of `output`;
-- `timed` says that the I/O timer runs.
pub record Client : Type 0 where
  pub fd : ℕ
  pub token : ℕ
  pub input : List ℕ
  pub expected : ℕ
  pub output : List ℕ
  pub sent : ℕ
  pub timed : Bool

-- `struct np_host_open`
pub record HostOpen : Type 0 where
  pub clients : List Client
  pub count : ℕ
  pub next_token : ℕ

-- What goes to the host, and the frame that a refused peer gets.
pub data OpenEvent : Type 0 where
  peer_refused : ℕ → List ℕ → OpenEvent
  open_cancelled : ℕ → OpenEvent
  open_requested : ℕ → List ℕ → OpenEvent

abbrev pub find_client : List Client → ℕ → Option Client
find_client [] fd = none
find_client (c ∷ cs) fd = if c.fd == fd then some c else find_client cs fd

-- The list with the client in place of the one of its descriptor, and without one.
abbrev pub update_client : List Client → Client → List Client
update_client [] c = []
update_client (d ∷ cs) c = if d.fd == c.fd then c ∷ cs else d ∷ update_client cs c

abbrev pub without_client : List Client → ℕ → List Client
without_client [] fd = []
without_client (d ∷ cs) fd = if d.fd == fd then cs else d ∷ without_client cs fd

abbrev pub cancel_event : Client → List OpenEvent
cancel_event c = if c.token == 0 then [] else open_cancelled c.token ∷ []

-- close_client
unfoldable pub close_client : HostOpen → Client → HostOpen × List OpenEvent
close_client o c =
    (record o { clients = without_client o.clients c.fd; count = dec32 o.count }, cancel_event c)
