-- ===== src/HostOpen/Tests.antt =====
-- A client whose request was forwarded under the token 7, and another.
use native_pipe.Base.{
  ℕ, ◌≡◌, refl, Bool, true, false, ◌&&◌, some, List, [], ◌∷◌, if◌then◌else◌, ◌==◌, arith,
}
use native_pipe.HostOpen.State.{Client, HostOpen, find_client}
use native_pipe.HostOpen.Request.{pick_token, well_formed, open_response}
use native_pipe.HostOpen.Io.{accept_peer, received, client_ready}
use native_pipe.HostOpen.Tokens.{IsFresh, pick_token-IsFresh}
use native_pipe.HostOpen.Valid.{IsValid}
use native_pipe.HostOpen.Reachable.{
  Reachable, started, peer_accepted, client_served, new_host_open, Reachable-IsValid,
}
use native_pipe.HostOpen.Routing.{answered, open_response-routes}

pick_token-IsFresh_example :
    (p : ℕ × ℕ) × (pick_token 18 (1 ∷ 4294967295 ∷ []) 4294967295 ≡ some p)
    × IsFresh (1 ∷ 4294967295 ∷ []) p
pick_token-IsFresh_example =
    pick_token-IsFresh 18 (1 ∷ 4294967295 ∷ []) 4294967295 (omega arith) (omega arith) (omega arith)

after_wrap : pick_token 18 (1 ∷ 4294967295 ∷ []) 4294967295 ≡ some (2, 3)
unfolding pick_token
after_wrap = refl

abbrev any_text : List ℕ → Bool
any_text s = true

-- A request for the URL "a".
abbrev request : List ℕ
request = b'N' ∷ b'P' ∷ b'O' ∷ b'P' ∷ 1 ∷ 1 ∷ 0 ∷ 0 ∷ 1 ∷ 0 ∷ 0 ∷ 0 ∷ b'a' ∷ []

abbrev connected : HostOpen
connected = (accept_peer new_host_open 5 true true true).0

abbrev served : HostOpen
served =
    (client_ready any_text true true connected 5 false true false
      (received request ∷ received (b'a' ∷ []) ∷ []) []).0

served-Reachable : Reachable any_text served
served-Reachable =
    client_served connected true true 5 false true false
      (received request ∷ received (b'a' ∷ []) ∷ []) []
      (peer_accepted new_host_open 5 true true true refl started)

Reachable-IsValid_example : IsValid served
Reachable-IsValid_example = Reachable-IsValid any_text served served-Reachable

abbrev client_of : ℕ → ℕ → Client
client_of fd token = record {
  fd = fd;
  token = token;
  input = request;
  expected = 13;
  output = [];
  sent = 0;
  timed = false;
}

abbrev two_clients : HostOpen
two_clients = record { clients = client_of 5 6 ∷ client_of 9 7 ∷ []; count = 2; next_token = 8 }

two_clients-IsValid : IsValid two_clients
two_clients-IsValid = ground arith

-- The host has opened the URL.
abbrev opened : List ℕ
opened = b'N' ∷ b'P' ∷ b'O' ∷ b'R' ∷ 1 ∷ 0 ∷ 0 ∷ 0 ∷ 0 ∷ 0 ∷ 0 ∷ 0 ∷ []

open_response-routes_example :
    find_client (open_response any_text two_clients 7 opened).0.clients 9
    ≡ some (
        if well_formed any_text 7 opened && (7 == 7)
        then answered (client_of 9 7) opened
        else client_of 9 7)
open_response-routes_example =
    open_response-routes any_text two_clients 7 opened 9 {c = client_of 9 7} two_clients-IsValid
      refl

well_formed-opened : well_formed any_text 7 opened ≡ true
unfolding well_formed native_pipe.OpenWire.parse_response_header
well_formed-opened = refl
