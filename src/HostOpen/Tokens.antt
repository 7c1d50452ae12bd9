-- ===== src/HostOpen/Tokens.antt =====
-- The loop of forward_request and the tokens of the clients.
use mathlib.Core.Path.{subst}
use native_pipe.Base.{
  ℕ, zero, suc, ◌+◌, ◌-◌, ◌%◌, ◌^◌, ◌≤◌, ◌<◌, ◌≡◌, ◌≢◌, true, false, ◌||◌, none, some, List, [],
  ◌∷◌, if◌then◌else◌, ◌==◌, length, arith, Bool-cases, inl, inr, Option-cases,
}
use native_pipe.Base.Bytes.{inc32, IsU32}
use native_pipe.HostOpen.Request.{mem, pick_token}

-- The list without the first occurrence of a number.
abbrev remove : ℕ → List ℕ → List ℕ
remove x [] = []
remove x (y ∷ ys) = if y == x then ys else y ∷ remove x ys

length-remove : (x : ℕ) (ys : List ℕ) → mem x ys ≡ true → suc (length (remove x ys)) ≡ length ys
length-remove x [] h = ground arith
length-remove x (y ∷ ys) h = ground (arith, length-remove x ys)

mem-remove : (x z : ℕ) (ys : List ℕ) → z ≢ x → mem z ys ≡ true → mem z (remove x ys) ≡ true
mem-remove x z [] n h = h
mem-remove x z (y ∷ ys) n h = ground (arith, mem-remove x z ys)

-- All of the next `k` tokens are in the list.
abbrev AllUsed : ℕ → List ℕ → ℕ → Type 0
AllUsed zero used next = Unit {0}
AllUsed (suc k) used next = (mem next used ≡ true) × AllUsed k used (inc32 next)

-- Taking out a token that is not among the next ones.
AllUsed-remove :
    (k : ℕ) (x : ℕ) (used : List ℕ) (next : ℕ)
    → x < 2 ^ 32
    → next < 2 ^ 32
    → k ≤ (x + 2 ^ 32 - next) % 2 ^ 32
    → AllUsed k used next
    → AllUsed k (remove x used) next
AllUsed-remove zero x used next hx hn far h = tt
AllUsed-remove (suc k) x used next hx hn far (h, hs) =
    let apart : next ≢ x = λ e. omega (arith, far, e) in
    (
      mem-remove x next used apart h,
      AllUsed-remove k x used (inc32 next) hx (omega arith) (omega arith) hs,
    )

-- Tokens are distinct until the counter wraps, so that the list has one for each.
AllUsed-length :
    (k : ℕ) (used : List ℕ) (next : ℕ)
    → next < 2 ^ 32
    → k < 2 ^ 32
    → AllUsed k used next
    → k ≤ length used
AllUsed-length zero used next hn hk h = omega arith
AllUsed-length (suc k) used next hn hk (h, hs) =
    let rest =
      AllUsed-length k (remove next used) (inc32 next) (omega arith) (omega arith)
        (AllUsed-remove k next used (inc32 next) hn (omega arith) (omega arith) hs) in
    omega (arith, rest, length-remove next used h)

pick_token-none :
    (fuel : ℕ) (used : List ℕ) (next : ℕ)
    → pick_token fuel used next ≡ none
    → AllUsed fuel (0 ∷ used) next
unfolding pick_token
pick_token-none zero used next e = tt
pick_token-none (suc fuel) used next e = elim (Bool-cases ((next == 0) || mem next used)) [
  | inl taken ↦ (ground (arith, taken), pick_token-none fuel used (inc32 next) (cc (taken, e)))
  | inr free ↦ cc (free, e)
]

-- A token that can be given out, with the one to try next.
abbrev pub IsFresh : List ℕ → ℕ × ℕ → Type 0
IsFresh used p = (p.0 ≢ 0) × (mem p.0 used ≡ false) × IsU32 p.0 × IsU32 p.1

pick_token-some :
    (fuel : ℕ) (used : List ℕ) (next : ℕ) {p : ℕ × ℕ}
    → IsU32 next
    → pick_token fuel used next ≡ some p
    → IsFresh used p
unfolding pick_token
pick_token-some zero used next h e = ground arith
pick_token-some (suc fuel) used next {p} h e = elim (Bool-cases ((next == 0) || mem next used)) [
  | inl taken ↦ pick_token-some fuel used (inc32 next) {p = p} (omega arith) (cc (taken, e))
  | inr free ↦
      let same : (next, inc32 next) ≡ p = cc (free, e) in
      subst (IsFresh used) same (ground (arith, free))
]

-- However many requests have been made, and after the counter has wrapped too, the loop of
-- forward_request ends within one round for each client and two more, with a token that is not 0, that
-- no client has, and that fits 32 bits.
pub pick_token-IsFresh :
    (fuel : ℕ) (used : List ℕ) (next : ℕ)
    → IsU32 next
    → suc (length used) < fuel
    → fuel < 2 ^ 32
    → (p : ℕ × ℕ) × (pick_token fuel used next ≡ some p) × IsFresh used p
pick_token-IsFresh fuel used next h k l = elim (Option-cases (pick_token fuel used next)) [
  | inl nothing ↦ absurd (
      omega
        (arith, AllUsed-length fuel (0 ∷ used) next h l (pick_token-none fuel used next nothing)))
  | inr (p, found) ↦ (p, found, pick_token-some fuel used next {p = p} h found)
]
