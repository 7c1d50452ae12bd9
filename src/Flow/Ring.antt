-- ===== src/Flow/Ring.antt =====
-- The ring of pending chunks is a queue.
use native_pipe.Base.{
  ℕ, zero, suc, ◌+◌, ◌-◌, ◌%◌, ◌≤◌, ◌<◌, ◌≡◌, refl, ◌∙◌, ap, false, List, [], ◌∷◌, ◌++◌, ◌==◌,
  length, arith,
}
use native_pipe.Flow.{Times, Pending, put, slots}

module _ (t : Times) where
  open t use {Time}

  -- `n` entries from an index on, around the end of the array.
  abbrev pub view : (ℕ → Pending t) → ℕ → ℕ → List (Pending t)
  view p h zero = []
  view p h (suc n) = p h ∷ view p ((h + 1) % slots) n

  abbrev pub total : List (Pending t) → ℕ
  total [] = 0
  total (x ∷ xs) = x.bytes + total xs

  pub total-append :
      (xs : List (Pending t)) (x : Pending t) → total (xs ++ (x ∷ [])) ≡ total xs + x.bytes
  total-append [] x = omega arith
  total-append (y ∷ xs) x = omega (arith, total-append xs x)

  -- The entry behind the last is the new last.
  pub view-suc :
      (p : ℕ → Pending t) (h n : ℕ)
      → h < slots
      → view p h (suc n) ≡ view p h n ++ (p ((h + n) % slots) ∷ [])
  view-suc p h zero k = let same : (h + 0) % slots ≡ h = omega arith in rw same
  view-suc p h (suc n) k =
      let same : ((h + 1) % slots + n) % slots ≡ (h + suc n) % slots = omega arith in
      let rest = view-suc p ((h + 1) % slots) n (omega arith) in
      ap (λ xs. p h ∷ xs) (rest ∙ rw same)

  -- Writing outside of the entries changes none of them.
  pub view-put :
      (p : ℕ → Pending t) (i : ℕ) (v : Pending t) (h n : ℕ)
      → h < slots
      → i < slots
      → n ≤ (i + slots - h) % slots
      → view (put t p i v) h n ≡ view p h n
  view-put p i v h zero k l far = refl
  view-put p i v h (suc n) k l far =
      let other : (h == i) ≡ false = ground arith in
      let rest = view-put p i v ((h + 1) % slots) n (omega arith) l (omega arith) in
      rw (other, rest)

  pub length-view : (p : ℕ → Pending t) (h n : ℕ) → length (view p h n) ≡ n
  length-view p h zero = refl
  length-view p h (suc n) = ap suc (length-view p ((h + 1) % slots) n)
