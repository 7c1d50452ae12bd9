-- ===== src/DropFs/Stable.antt =====
-- The identifier that repeated lookups give a path.
use native_pipe.Base.{
  ℕ, ◌≡◌, refl, Bool, true, false, some, List, [], ◌∷◌, ◌==◌, arith, Bool-cases, inl, inr,
  Option-cases,
}
use native_pipe.DropFs.State.{Node, DropFs}
use native_pipe.DropFs.Table.{find_live, change_live, bury_node, count_lookup, add_node, remember}
use native_pipe.DropFs.Renames.{same_refl}

find_live-counted :
    (token path : List ℕ) (ns : List Node) {n : Node}
    → find_live token path ns ≡ some n
    → find_live token path (change_live count_lookup token path ns) ≡ some (count_lookup n)
find_live-counted token path [] e = ground arith
find_live-counted token path (m ∷ ns) {n} e =
    ground (arith, find_live-counted token path ns {n = n})

-- The table finds a node with this identifier and kind at a path.
abbrev pub Finds : DropFs → ℕ → List ℕ → List ℕ → ℕ → Type 0
Finds fs kind token path id =
    (n : Node) × (find_live token path fs.nodes ≡ some n) × (n.id ≡ id) × (n.kind ≡ kind)

add_node-Finds :
    (fs : DropFs) (kind : ℕ) (token path : List ℕ)
    → let out = add_node true fs kind token path in Finds out.0 kind token path out.1
unfolding add_node
add_node-Finds fs kind token path =
    let node : Node = record {
      id = fs.next_id;
      lookups = 1;
      kind = kind;
      dead = false;
      token = token;
      path = path;
    } in
    (node, ground (arith, same_refl token, same_refl path), refl, refl)

remember-Finds :
    (fs : DropFs) (kind : ℕ) (token path : List ℕ)
    → let out = remember true fs kind token path in Finds out.0 kind token path out.1
unfolding remember
remember-Finds fs kind token path = elim (Option-cases (find_live token path fs.nodes)) [
  | inl new ↦ rw (remember, new) (add_node-Finds fs kind token path)
  | inr (n, there) ↦ elim (Bool-cases (n.kind == kind)) [
    | inl kept ↦
        rw (remember, there, kept)
          (
            count_lookup n,
            find_live-counted token path fs.nodes {n = n} there,
            refl,
            ground (arith, kept),
          )
    | inr other ↦
        rw (remember, there, other)
          (add_node-Finds (record fs { nodes = change_live bury_node token path fs.nodes }) kind
            token path)
  ]
]

Finds-again :
    (allocated : Bool) (fs : DropFs) (kind : ℕ) (token path : List ℕ) (id : ℕ)
    → Finds fs kind token path id
    → (remember allocated fs kind token path).1 ≡ id
unfolding remember
Finds-again allocated fs kind token path id (n, there, named, like) =
    let kept : (n.kind == kind) ≡ true = ground (arith, like) in rw (remember, there, kept) named

-- A path that is looked up twice, with the same kind of object, has the same identifier both times, when
-- the first lookup gets the memory that it may need; memory is not needed for the second.
pub remember-stable :
    (allocated : Bool) (fs : DropFs) (kind : ℕ) (token path : List ℕ)
    → (remember allocated (remember true fs kind token path).0 kind token path).1
      ≡ (remember true fs kind token path).1
remember-stable allocated fs kind token path =
    Finds-again allocated (remember true fs kind token path).0 kind token path
      ((remember true fs kind token path).1) (remember-Finds fs kind token path)
