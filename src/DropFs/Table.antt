-- ===== src/DropFs/Table.antt =====
-- The table of nodes: find_node, read_node, remember, forget, bury, moved and interrupt of np_drop_fs.c.
-- Each runs under the lock.
use native_pipe.Base.{
  ℕ, ◌+◌, ◌-◌, ◌%◌, ◌^◌, Bool, true, false, not, ◌||◌, ◌&&◌, Option, none, some, List, [], ◌∷◌,
  ◌++◌, leb, ◌==◌, if◌then◌else◌, length,
}
use native_pipe.Base.Bytes.{inc32}
use native_pipe.DropFs.State.{Node, Waiter, DropFs, root_id, path_max, slots}
use native_pipe.DropFs.Names.{same, rest_under, under}

-- find_node
abbrev pub find_node : List Node → ℕ → Option Node
find_node [] id = none
find_node (n ∷ ns) id = if n.id == id then some n else find_node ns id

-- `struct node_view` of the root, all zero but its identifier.
abbrev pub root_view : Node
root_view = record { id = root_id; lookups = 0; kind = 0; dead = false; token = []; path = [] }

-- read_node; the count of lookups is not part of a view and not used.
unfoldable pub read_node : DropFs → ℕ → Option Node
read_node fs id = if id == root_id then some root_view else find_node fs.nodes id

abbrev pub live_at : List ℕ → List ℕ → Node → Bool
live_at token path n = not n.dead && (same n.token token && same n.path path)

-- The search of remember.
abbrev pub find_live : List ℕ → List ℕ → List Node → Option Node
find_live token path [] = none
find_live token path (n ∷ ns) = if live_at token path n then some n else find_live token path ns

-- The first live node at a path with a change.
abbrev pub change_live : (Node → Node) → List ℕ → List ℕ → List Node → List Node
change_live f token path [] = []
change_live f token path (n ∷ ns) =
    if live_at token path n then f n ∷ ns else n ∷ change_live f token path ns

abbrev pub bury_node : Node → Node
bury_node n = record n { dead = true }

abbrev pub count_lookup : Node → Node
count_lookup n = record n { lookups = (n.lookups + 1) % 2 ^ 64 }

-- A new node of remember, when calloc and strdup give memory; the identifier 0 says that they do not.
unfoldable pub add_node : Bool → DropFs → ℕ → List ℕ → List ℕ → DropFs × ℕ
add_node allocated fs kind token path =
    let node : Node = record {
      id = fs.next_id;
      lookups = 1;
      kind = kind;
      dead = false;
      token = token;
      path = path;
    } in
    if allocated
    then (record fs { nodes = node ∷ fs.nodes; next_id = (fs.next_id + 1) % 2 ^ 64 }, fs.next_id)
    else (fs, 0)

-- remember
unfoldable pub remember : Bool → DropFs → ℕ → List ℕ → List ℕ → DropFs × ℕ
remember allocated fs kind token path = elim (find_live token path fs.nodes) [
  | none ↦ add_node allocated fs kind token path
  | some n ↦
      if n.kind == kind
      then (record fs { nodes = change_live count_lookup token path fs.nodes }, n.id)
      else add_node allocated (record fs { nodes = change_live bury_node token path fs.nodes }) kind
          token path
]

-- The nodes after forget.
abbrev pub forget_node : List Node → ℕ → ℕ → List Node
forget_node [] id count = []
forget_node (n ∷ ns) id count =
    let left = n.lookups - count in
    if n.id == id
    then if left == 0 then ns else record n { lookups = left } ∷ ns
    else n ∷ forget_node ns id count

-- forget
abbrev pub forget : DropFs → ℕ → ℕ → DropFs
forget fs id count = record fs { nodes = forget_node fs.nodes id count }

-- A node in the loop of bury.
unfoldable pub bury_one : List ℕ → List ℕ → Node → Node
bury_one token path n =
    if not n.dead && (same n.token token && under n.path path) then bury_node n else n

abbrev pub each_node : (Node → Node) → List Node → List Node
each_node f [] = []
each_node f (n ∷ ns) = f n ∷ each_node f ns

-- bury
abbrev pub bury : DropFs → List ℕ → List ℕ → DropFs
bury fs token path = record fs { nodes = each_node (bury_one token path) fs.nodes }

-- A node in the loop of moved; `malloc` answers for each node, by its identifier.
unfoldable pub move_one : (ℕ → Bool) → List ℕ → List ℕ → List ℕ → Node → Node
move_one malloc token from to n = elim (rest_under n.path from) [
  | none ↦ n
  | some rest ↦
      let size = length to + length rest in
      if n.dead || not (same n.token token)
      then n
      else if leb size path_max && malloc n.id
      then record n { path = to ++ rest }
      else bury_node n
]

-- moved
abbrev pub moved : (ℕ → Bool) → DropFs → List ℕ → List ℕ → List ℕ → DropFs
moved malloc fs token from to = record fs {
  nodes = each_node (move_one malloc token from to) fs.nodes;
}

-- The first waiter for a request, interrupted; nothing when none waits.
abbrev pub interrupt_waiter : List Waiter → ℕ → Option (List Waiter)
interrupt_waiter [] unique = none
interrupt_waiter (w ∷ ws) unique =
    let rest : Option (List Waiter) = elim (interrupt_waiter ws unique) [
      | none ↦ none
      | some vs ↦ some (w ∷ vs)
    ] in
    if w.unique == unique then some (record w { interrupted = true } ∷ ws) else rest

-- interrupt
unfoldable pub interrupt : DropFs → ℕ → DropFs
interrupt fs unique = elim (interrupt_waiter fs.waits unique) [
  | some ws ↦ record fs { waits = ws }
  | none ↦ record fs {
    interrupts = λ i. if i == fs.next_interrupt % slots then unique else fs.interrupts i;
    next_interrupt = inc32 fs.next_interrupt;
  }
]
