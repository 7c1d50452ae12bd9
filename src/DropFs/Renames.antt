-- ===== src/DropFs/Renames.antt =====
-- What later lookups find after a rename or a removal.
use mathlib.Core.Path.{subst}
use native_pipe.Base.{
  ℕ, ◌+◌, ◌≤◌, ◌≡◌, refl, sym, ◌∙◌, ap, Bool, true, false, Option, none, some, List, [], ◌∷◌, ◌++◌,
  length, arith, Bool-cases, inl, inr, Option-cases, ==_refl,
}
use native_pipe.DropFs.State.{Node, DropFs, path_max}
use native_pipe.DropFs.Names.{same, at_end, rest_under, under}
use native_pipe.DropFs.Paths.{rest_under-append}
use native_pipe.DropFs.Table.{live_at, find_live, bury_one, each_node, move_one}
use native_pipe.DropFs.Change.{renamed}
use native_pipe.DropFs.Host.{HostCall, HostAnswer}

pub same_refl : (a : List ℕ) → same a a ≡ true
same_refl [] = refl
same_refl (x ∷ xs) = ground (arith, same_refl xs)

pub same_eq : (a b : List ℕ) → same a b ≡ true → a ≡ b
same_eq [] [] h = refl
same_eq [] (y ∷ ys) h = ground arith
same_eq (x ∷ xs) [] h = ground arith
same_eq (x ∷ xs) (y ∷ ys) h = ground (arith, h, same_eq xs ys)

same-prefix : (p a b : List ℕ) → same (p ++ a) (p ++ b) ≡ same a b
same-prefix [] a b = refl
same-prefix (x ∷ p) a b = rw (==_refl x) (same-prefix p a b)

-- The end of a path behind a directory.
abbrev pub IsTail : List ℕ → Type 0
IsTail rest = at_end rest ≡ some rest

rest_under-prefix : (p rest : List ℕ) → IsTail rest → rest_under (p ++ rest) p ≡ some rest
rest_under-prefix [] rest h = h
rest_under-prefix (x ∷ p) rest h = rw (==_refl x) (rest_under-prefix p rest h)

-- The node at another path.
abbrev pub relocated : List ℕ → Option Node → Option Node
relocated path none = none
relocated path (some n) = some (record n { path = path })

module _ (malloc : ℕ → Bool) (given : (n : ℕ) → malloc n ≡ true) (token from to rest : List ℕ)
    (tail : IsTail rest) (short : length to + length rest ≤ path_max)
    (free : under (from ++ rest) to ≡ false) where
  -- Both loops on a node.
  abbrev change : Node → Node
  change n = move_one malloc token from to (bury_one token to n)

  under_new : under (to ++ rest) to ≡ true
  under_new = rw (rest_under-prefix to rest tail) refl

  elsewhere : (n : Node) → under n.path to ≡ false → same n.path (to ++ rest) ≡ false
  elsewhere n kept = elim (Bool-cases (same n.path (to ++ rest))) [
    | inr other ↦ other
    | inl here ↦ absurd (
        ground (
          arith,
          kept,
          under_new,
          subst (λ q. under q to ≡ true) (sym (same_eq n.path (to ++ rest) here)) under_new,
        ))
  ]

  change-live_at :
      (n : Node)
      → (live_at token (to ++ rest) (change n) ≡ live_at token (from ++ rest) n)
        × (live_at token (from ++ rest) n ≡ true → change n ≡ record n { path = to ++ rest })
  unfolding move_one bury_one
  change-live_at n = elim (Bool-cases (same n.path (from ++ rest))) [
    | inl here ↦
        let at_from : n.path ≡ from ++ rest = same_eq n.path (from ++ rest) here in
        let kept : under n.path to ≡ false = subst (λ q. under q to ≡ false) (sym at_from) free in
        let inside : rest_under n.path from ≡ some rest =
          subst (λ q. rest_under q from ≡ some rest) (sym at_from)
            (rest_under-prefix from rest tail) in
        let memory = given n.id in
        ground (arith, here, kept, inside, memory, short, same_refl (to ++ rest))
    | inr other ↦ elim (Option-cases (rest_under n.path from)) [
      | inl outside ↦ ground (arith, other, outside, elsewhere n)
      | inr (r, inside) ↦
          let whole = (rest_under-append n.path from {rest = r} inside).0 in
          let apart : same (to ++ r) (to ++ rest) ≡ false =
            same-prefix to r rest
            ∙ (sym (same-prefix from r rest)
                ∙ subst (λ q. same q (from ++ rest) ≡ false) whole other) in
          ground (arith, other, inside, apart)
    ]
  ]

  find_live-moved :
      (ns : List Node)
      → find_live token
          (to ++ rest)
          (each_node (move_one malloc token from to) (each_node (bury_one token to) ns))
        ≡ relocated (to ++ rest) (find_live token (from ++ rest) ns)
  find_live-moved [] = refl
  find_live-moved (n ∷ ns) =
      let (same_live, moves) = change-live_at n in
      elim (Bool-cases (live_at token (from ++ rest) n)) [
        | inl here ↦ rw (same_live ∙ here, here) (ap some (moves here))
        | inr on ↦ rw (same_live ∙ on, on) (find_live-moved ns)
      ]

  IsTail-rest_under :
      (path prefix : List ℕ) {r : List ℕ} → rest_under path prefix ≡ some r → IsTail r
  IsTail-rest_under path prefix {r} e = elim ((rest_under-append path prefix {rest = r} e).1) [
    | inl ends ↦ rw ends refl
    | inr (ys, more) ↦ rw more refl
  ]

  left_old : (n : Node) → live_at token (from ++ rest) (change n) ≡ false
  unfolding move_one bury_one
  left_old n = elim (Option-cases (rest_under n.path from)) [
    | inl outside ↦
        let apart : same n.path (from ++ rest) ≡ false =
          elim (Bool-cases (same n.path (from ++ rest))) [
            | inr other ↦ other
            | inl here ↦
                let at_from = same_eq n.path (from ++ rest) here in
                let inside : rest_under n.path from ≡ some rest =
                  subst (λ q. rest_under q from ≡ some rest) (sym at_from)
                    (rest_under-prefix from rest tail) in
                cc (outside, inside)
          ] in
        ground (arith, outside, apart)
    | inr (r, inside) ↦
        let apart : same (to ++ r) (from ++ rest) ≡ false =
          elim (Bool-cases (same (to ++ r) (from ++ rest))) [
            | inr other ↦ other
            | inl here ↦
                let there : rest_under (from ++ rest) to ≡ some r =
                  subst (λ q. rest_under q to ≡ some r) (same_eq (to ++ r) (from ++ rest) here)
                    (rest_under-prefix to r (IsTail-rest_under n.path from {r = r} inside)) in
                absurd (ground (arith, free, there))
          ] in
        let covered : same n.path (from ++ rest) ≡ true → under n.path to ≡ false =
          λ here. subst (λ q. under q to ≡ false) (sym (same_eq n.path (from ++ rest) here)) free in
        ground (arith, inside, apart, covered)
  ]

  find_live-left :
      (ns : List Node)
      → find_live token
          (from ++ rest)
          (each_node (move_one malloc token from to) (each_node (bury_one token to) ns))
        ≡ none
  find_live-left [] = refl
  find_live-left (n ∷ ns) = rw (left_old n) (find_live-left ns)

-- After a rename that the host has done, where no node is refused memory and the path was not at or below
-- the new name: a lookup at or below the new name finds the node that a lookup of the same place at or
-- below the old name found before, with its identifier, its count of lookups and its kind, and nothing
-- where nothing was found; and a lookup there under the old name finds nothing.
pub renamed-find_live :
    (host : HostCall → HostAnswer) (malloc : ℕ → Bool) (fs : DropFs)
    (token old_path new_path rest : List ℕ)
    → ((n : ℕ) → malloc n ≡ true)
    → same old_path new_path ≡ false
    → IsTail rest
    → length new_path + length rest ≤ path_max
    → under (old_path ++ rest) new_path ≡ false
    → let after = renamed host malloc fs token old_path new_path in
      (find_live token (new_path ++ rest) after.nodes
        ≡ relocated (new_path ++ rest) (find_live token (old_path ++ rest) fs.nodes))
      × (find_live token (old_path ++ rest) after.nodes ≡ none)
unfolding renamed
renamed-find_live host malloc fs token old_path new_path rest given differ tail short free =
    rw differ (
      find_live-moved malloc given token old_path new_path rest tail short free fs.nodes,
      find_live-left malloc given token old_path new_path rest tail short free fs.nodes,
    )
