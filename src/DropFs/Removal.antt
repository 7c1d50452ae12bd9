-- ===== src/DropFs/Removal.antt =====
-- What later lookups find after a removal.
use mathlib.Core.Path.{subst}
use native_pipe.Base.{
  ℕ, ◌≡◌, refl, sym, ◌∙◌, ap, Bool, true, false, not, ◌&&◌, none, some, List, [], ◌∷◌, ◌==◌,
  if◌then◌else◌, arith, Bool-cases, inl, inr,
}
use native_pipe.DropFs.State.{Node, DropFs}
use native_pipe.DropFs.Names.{same, under}
use native_pipe.DropFs.Table.{live_at, find_live, bury_one, each_node}
use native_pipe.DropFs.Host.{HostCall, HostAnswer, path_call, call_host}
use native_pipe.DropFs.Lookup.{child}
use native_pipe.DropFs.Change.{remove_child}
use native_pipe.DropFs.Renames.{same_eq}

module _ (token path t q : List ℕ) where
  bury_one-live_at :
      (n : Node)
      → live_at t q (bury_one token path n) ≡ (live_at t q n && not (same t token && under q path))
  unfolding bury_one
  bury_one-live_at n = elim (Bool-cases (live_at t q n)) [
    | inr off ↦ ground (arith, off)
    | inl here ↦
        let (on, at) : (same n.token t ≡ true) × (same n.path q ≡ true) = ground (arith, here) in
        let tokens_equal : same n.token token ≡ same t token =
          subst (λ x. same x token ≡ same t token) (sym (same_eq n.token t on)) refl in
        let under_equal : under n.path path ≡ under q path =
          subst (λ x. under x path ≡ under q path) (sym (same_eq n.path q at)) refl in
        ground (arith, here, on, at, tokens_equal, under_equal)
  ]

  -- A node that still answers is unchanged.
  bury_one-kept :
      (n : Node) → live_at t q (bury_one token path n) ≡ true → bury_one token path n ≡ n
  unfolding bury_one
  bury_one-kept n h = elim (Bool-cases (not n.dead && (same n.token token && under n.path path))) [
    | inl buried ↦ cc (buried, h)
    | inr kept ↦ rw kept refl
  ]

  find_live-bury :
      (ns : List Node)
      → find_live t q (each_node (bury_one token path) ns)
        ≡ (if same t token && under q path then none else find_live t q ns)
  find_live-bury [] = elim (Bool-cases (same t token && under q path)) [
    | inl hidden ↦ rw hidden refl
    | inr shown ↦ rw shown refl
  ]
  find_live-bury (n ∷ ns) = elim (Bool-cases (same t token && under q path)) [
    | inl hidden ↦
        let off : live_at t q (bury_one token path n) ≡ false =
          ground (arith, bury_one-live_at n, hidden) in
        rw (off, hidden) (find_live-bury ns ∙ rw hidden refl)
    | inr shown ↦
        let same_live : live_at t q (bury_one token path n) ≡ live_at t q n =
          ground (arith, bury_one-live_at n, shown) in
        let rest : find_live t q (each_node (bury_one token path) ns) ≡ find_live t q ns =
          find_live-bury ns ∙ rw shown refl in
        elim (Bool-cases (live_at t q n)) [
          | inl here ↦
              rw (same_live ∙ here, here, shown) (ap some (bury_one-kept n (same_live ∙ here)))
          | inr on ↦ rw (same_live ∙ on, on, shown) rest
        ]
  ]

-- When the host has unlinked a file or removed a directory, the reply is success, and a lookup in the table
-- finds nothing at that path and below it in that drop; everywhere else it finds the node that it found
-- before, unchanged.
pub remove_child-find_live :
    (host : HostCall → HostAnswer) (malloc : ℕ → Bool) (fs : DropFs) (opcode : ℕ) (parent : Node)
    (path rest t q : List ℕ)
    → (call_host none (host (path_call opcode [] parent.token path))).done ≡ true
    → (call_host none (host (path_call opcode [] parent.token path))).status ≡ 0
    → ((remove_child host malloc fs opcode (child parent path rest)).error ≡ 0)
      × (find_live t q (remove_child host malloc fs opcode (child parent path rest)).fs.nodes
          ≡ (if same t parent.token && under q path then none else find_live t q fs.nodes))
unfolding remove_child
remove_child-find_live host malloc fs opcode parent path rest t q done ok =
    let ended : ((call_host none (host (path_call opcode [] parent.token path))).status == 0)
        ≡ true =
      ground (arith, ok) in
    rw (done, ended) (refl, find_live-bury parent.token path t q fs.nodes)
