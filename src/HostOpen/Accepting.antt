-- ===== src/HostOpen/Accepting.antt =====
-- New clients in host_open.c on a valid state of the clients.
use native_pipe.Base.{
  ℕ, ◌≡◌, ◌≢◌, refl, Bool, false, none, some, List, [], ◌∷◌, ◌++◌, ◌==◌, leb, length-append, arith,
  Bool-cases, inl, inr, All, ==_refl,
}
use native_pipe.Base.Bytes.{inc32}
use native_pipe.HostOpen.State.{Client, HostOpen, max_pending, find_client}
use native_pipe.HostOpen.Request.{mem, tokens}
use native_pipe.HostOpen.Io.{accept_peer, new_client}
use native_pipe.HostOpen.Valid.{IsClient, IsValid, Distinct, close_client-IsValid}

All-joined :
    (P : Client → Type 0) (cs : List Client) (d : Client) → All P cs → P d → All P (cs ++ (d ∷ []))
All-joined P [] d h k = (k, tt)
All-joined P (c ∷ cs) d (h, hs) k = (h, All-joined P cs d hs k)

mem-joined :
    (x : ℕ) (cs : List Client) (d : Client)
    → d.token ≡ 0
    → x ≢ 0
    → mem x (tokens cs) ≡ false
    → mem x (tokens (cs ++ (d ∷ []))) ≡ false
mem-joined x [] d z n h = ground arith
mem-joined x (c ∷ cs) d z n h = ground (arith, mem-joined x cs d z n)

Distinct-joined :
    (cs : List Client) (d : Client)
    → d.token ≡ 0
    → Distinct (tokens cs)
    → Distinct (tokens (cs ++ (d ∷ [])))
Distinct-joined [] d z h = (inl z, tt)
Distinct-joined (c ∷ cs) d z (inl none_yet, h) = (inl none_yet, Distinct-joined cs d z h)
Distinct-joined (c ∷ cs) d z (inr apart, h) = elim (Bool-cases (c.token == 0)) [
  | inl none_yet ↦ (inl (ground (arith, none_yet)), Distinct-joined cs d z h)
  | inr live ↦
      (inr (mem-joined c.token cs d z (ground (arith, live)) apart), Distinct-joined cs d z h)
]

find_client-joined :
    (cs : List Client) (d : Client)
    → find_client cs d.fd ≡ none
    → find_client (cs ++ (d ∷ [])) d.fd ≡ some d
find_client-joined [] d e = rw (==_refl d.fd) refl
find_client-joined (c ∷ cs) d e = ground (arith, find_client-joined cs d)

new_client-IsClient : (fd : ℕ) → IsClient (new_client fd)
new_client-IsClient fd = record {
  read_some = omega arith;
  header = omega arith;
  bounded = omega arith;
  waiting = inl refl;
  token_fits = omega arith;
  written = omega arith;
  answer = omega arith;
}

joined-IsValid :
    (o : HostOpen) (fd : ℕ)
    → IsValid o
    → leb max_pending o.count ≡ false
    → IsValid (record o { clients = o.clients ++ (new_client fd ∷ []); count = inc32 o.count })
joined-IsValid o fd v room =
    let more = length-append o.clients (new_client fd ∷ []) in
    record {
      each = All-joined IsClient o.clients (new_client fd) v.each (new_client-IsClient fd);
      apart = Distinct-joined o.clients (new_client fd) refl v.apart;
      counted = ground (arith, more, v.counted, room, v.few);
      few = ground (arith, room, v.few);
      next_fits = v.next_fits;
    }

-- A descriptor that the system gives for a peer is not that of a client.
pub accept_peer-IsValid :
    (o : HostOpen) (fd : ℕ) (same_user allocated watched : Bool)
    → IsValid o
    → find_client o.clients fd ≡ none
    → IsValid (accept_peer o fd same_user allocated watched).0
unfolding accept_peer
accept_peer-IsValid o fd same_user allocated watched v free = elim (Bool-cases same_user) [
  | inr stranger ↦ rw stranger v
  | inl known ↦ elim (Bool-cases (leb max_pending o.count)) [
    | inl full ↦ rw (known, full) v
    | inr room ↦
        let grown : HostOpen = record o {
          clients = o.clients ++ (new_client fd ∷ []);
          count = inc32 o.count;
        } in
        let joined = joined-IsValid o fd v room in
        let there = find_client-joined o.clients (new_client fd) free in
        elim (Bool-cases allocated) [
          | inr lost ↦ rw (known, room, lost) v
          | inl got ↦ elim (Bool-cases watched) [
            | inl w ↦ rw (known, room, got, w) joined
            | inr w ↦
                rw (known, room, got, w) (close_client-IsValid grown (new_client fd) joined there)
          ]
        ]
  ]
]
