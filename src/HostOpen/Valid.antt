-- ===== src/HostOpen/Valid.antt =====
-- The state of the clients: bounded buffers, live tokens that are all different, and a true count.
use mathlib.Core.Path.{subst}
use native_pipe.Base.{
  ℕ, suc, ◌+◌, ◌≤◌, ◌≡◌, ◌≢◌, refl, sym, ◌∙◌, ap, false, some, List, [], ◌∷◌, ◌==◌, length, All,
  arith, Bool-cases, inl, inr, ◌⊎◌,
}
use native_pipe.Base.Bytes.{IsU32}
use native_pipe.OpenWire.{header_size, max_payload, max_message}
use native_pipe.HostOpen.State.{
  Client, HostOpen, max_pending, find_client, update_client, without_client, close_client,
}
use native_pipe.HostOpen.Request.{mem, tokens}
use native_pipe.HostOpen.Io.{with_client}

pub record IsClient (c : Client) : Type 0 where
  pub read_some : length c.input ≤ c.expected
  pub header : header_size ≤ c.expected
  pub bounded : c.expected ≤ header_size + max_payload
  pub waiting : (c.token ≡ 0) ⊎ (length c.input ≡ c.expected)
  pub token_fits : IsU32 c.token
  pub written : c.sent ≤ length c.output
  pub answer : length c.output ≤ header_size + max_message

-- Live tokens are different.
abbrev pub Distinct : List ℕ → Type 0
Distinct [] = Unit {0}
Distinct (x ∷ xs) = ((x ≡ 0) ⊎ (mem x xs ≡ false)) × Distinct xs

pub record IsValid (o : HostOpen) : Type 0 where
  pub each : All IsClient o.clients
  pub apart : Distinct (tokens o.clients)
  pub counted : o.count ≡ length o.clients
  pub few : o.count ≤ max_pending
  pub next_fits : IsU32 o.next_token

-- The found client.
pub All-find_client :
    (P : Client → Type 0) (cs : List Client) (fd : ℕ) {c : Client}
    → find_client cs fd ≡ some c
    → All P cs
    → P c × (c.fd ≡ fd)
All-find_client P [] fd e h = ground arith
All-find_client P (d ∷ cs) fd {c} e (hd, hs) = elim (Bool-cases (d.fd == fd)) [
  | inl here ↦
      let same : d ≡ c = cc (here, e) in
      subst (λ x. P x × (x.fd ≡ fd)) same (hd, ground (arith, here))
  | inr on ↦ All-find_client P cs fd (cc (on, e)) hs
]

-- One client for another of its descriptor.
module _ (d : Client) where
  length-update_client : (cs : List Client) → length (update_client cs d) ≡ length cs
  length-update_client [] = refl
  length-update_client (e ∷ cs) = ground (arith, length-update_client cs)

  All-update_client :
      (P : Client → Type 0) (cs : List Client) → P d → All P cs → All P (update_client cs d)
  All-update_client P [] h hs = hs
  All-update_client P (e ∷ cs) h (k, ks) = ground (arith, h, k, ks, All-update_client P cs h ks)

  -- A token other than the new one is live after only if it was before.
  mem-update_client :
      (x : ℕ) (cs : List Client)
      → x ≢ d.token
      → mem x (tokens cs) ≡ false
      → mem x (tokens (update_client cs d)) ≡ false
  mem-update_client x [] n h = h
  mem-update_client x (e ∷ cs) n h = ground (arith, mem-update_client x cs)

  tokens-update_client :
      (cs : List Client) {c : Client}
      → find_client cs d.fd ≡ some c
      → d.token ≡ c.token
      → tokens (update_client cs d) ≡ tokens cs
  tokens-update_client [] e t = ground arith
  tokens-update_client (g ∷ cs) {c} e t = elim (Bool-cases (g.fd == d.fd)) [
    | inl here ↦
        let same : g ≡ c = cc (here, e) in
        let kept : d.token ≡ g.token = t ∙ sym (ap (λ q. q.token) same) in rw (here, kept)
    | inr on ↦ rw on (ap (λ q. g.token ∷ q) (tokens-update_client cs {c = c} (cc (on, e)) t))
  ]

  Distinct-update_client :
      (cs : List Client)
      → (d.token ≡ 0) ⊎ (mem d.token (tokens cs) ≡ false)
      → Distinct (tokens cs)
      → Distinct (tokens (update_client cs d))
  Distinct-update_client [] f h = h
  Distinct-update_client (g ∷ cs) f (k, h) =
      ground (arith, f, k, mem-update_client g.token cs, Distinct-update_client cs)

-- Without a client.
module _ (fd : ℕ) where
  length-without_client :
      (cs : List Client) {c : Client}
      → find_client cs fd ≡ some c
      → suc (length (without_client cs fd)) ≡ length cs
  length-without_client [] e = ground arith
  length-without_client (g ∷ cs) {c} e = ground (arith, length-without_client cs {c = c})

  All-without_client :
      (P : Client → Type 0) (cs : List Client) → All P cs → All P (without_client cs fd)
  All-without_client P [] h = h
  All-without_client P (g ∷ cs) (k, h) = ground (arith, All-without_client P cs h)

  mem-without_client :
      (x : ℕ) (cs : List Client)
      → mem x (tokens cs) ≡ false
      → mem x (tokens (without_client cs fd)) ≡ false
  mem-without_client x [] h = h
  mem-without_client x (g ∷ cs) h = ground (arith, mem-without_client x cs)

  Distinct-without_client :
      (cs : List Client) → Distinct (tokens cs) → Distinct (tokens (without_client cs fd))
  Distinct-without_client [] h = h
  Distinct-without_client (g ∷ cs) (k, h) =
      ground (arith, mem-without_client g.token cs, Distinct-without_client cs h)

-- A client is replaced or closed.
module _ (o : HostOpen) (c : Client) (v : IsValid o)
    (there : find_client o.clients c.fd ≡ some c) where
  pub with_client-IsValid :
      (d : Client)
      → d.fd ≡ c.fd
      → IsClient d
      → (d.token ≡ c.token) ⊎ ((d.token ≡ 0) ⊎ (mem d.token (tokens o.clients) ≡ false))
      → IsValid (with_client o d)
  with_client-IsValid d e k t =
      let count = length-update_client d o.clients in
      let found : find_client o.clients d.fd ≡ some c = ap (find_client o.clients) e ∙ there in
      let apart : Distinct (tokens (update_client o.clients d)) = elim t [
        | inl kept ↦
            subst Distinct (sym (tokens-update_client d o.clients {c = c} found kept)) v.apart
        | inr other ↦ Distinct-update_client d o.clients other v.apart
      ] in
      record {
        each = All-update_client d IsClient o.clients k v.each;
        apart = apart;
        counted = v.counted ∙ sym count;
        few = v.few;
        next_fits = v.next_fits;
      }

  pub close_client-IsValid : IsValid (close_client o c).0
  unfolding close_client
  close_client-IsValid =
      let count = length-without_client c.fd o.clients {c = c} there in
      record {
        each = All-without_client c.fd IsClient o.clients v.each;
        apart = Distinct-without_client c.fd o.clients v.apart;
        counted = omega (arith, count, v.counted, v.few);
        few = omega (arith, count, v.counted, v.few);
        next_fits = v.next_fits;
      }
