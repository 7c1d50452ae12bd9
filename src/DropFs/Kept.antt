-- ===== src/DropFs/Kept.antt =====
-- forget, bury, moved and remember on a valid table.
use mathlib.Core.Path.{subst}
use native_pipe.Base.{
  ℕ, ◌+◌, ◌%◌, ◌^◌, ◌≤◌, ◌<◌, ◌≡◌, refl, sym, Bool, true, false, List, ◌∷◌, ◌++◌, ◌==◌, length,
  arith, Bool-cases, inl, inr, Option-cases, All,
}
use native_pipe.DropFs.State.{Node, DropFs, path_max}
use native_pipe.DropFs.Names.{valid_token, rest_under}
use native_pipe.DropFs.Paths.{IsPath, IsPath-moved, clean}
use native_pipe.DropFs.Table.{
  find_live, change_live, bury_node, count_lookup, add_node, remember, forget, bury_one, bury,
  move_one, moved,
}
use native_pipe.DropFs.Valid.{
  IsNode, IsValid, ids-change_live, ids-each_node, All-change_live, All-each_node,
  Different-forget_node, relabel-IsNode, All-forget_node, fresh, later,
}

pub forget-IsValid : (fs : DropFs) (id count : ℕ) → IsValid fs → IsValid (forget fs id count)
forget-IsValid fs id count v = record {
  each = All-forget_node fs.next_id fs.nodes id count v.each;
  apart = Different-forget_node fs.nodes id count v.apart;
  next = v.next;
}

bury_one-id : (token path : List ℕ) (n : Node) → (bury_one token path n).id ≡ n.id
unfolding bury_one
bury_one-id token path n = ground arith

bury_one-IsNode :
    (next : ℕ) (token path : List ℕ) (n : Node)
    → IsNode next n
    → IsNode next (bury_one token path n)
unfolding bury_one
bury_one-IsNode next token path n h = ground (arith, relabel-IsNode next n n.lookups true h, h)

pub bury-IsValid : (fs : DropFs) (token path : List ℕ) → IsValid fs → IsValid (bury fs token path)
bury-IsValid fs token path v = record {
  each =
      All-each_node (IsNode fs.next_id) (bury_one token path)
        (bury_one-IsNode fs.next_id token path) fs.nodes v.each;
  apart = rw (ids-each_node (bury_one token path) (bury_one-id token path) fs.nodes) v.apart;
  next = v.next;
}

move_one-id :
    (malloc : ℕ → Bool) (token from to : List ℕ) (n : Node)
    → (move_one malloc token from to n).id ≡ n.id
unfolding move_one
move_one-id malloc token from to n = ground arith

move_one-IsNode :
    (malloc : ℕ → Bool) (next : ℕ) (token from to : List ℕ) (n : Node)
    → clean 0 to ≡ true
    → IsNode next n
    → IsNode next (move_one malloc token from to n)
unfolding move_one
move_one-IsNode malloc next token from to n k h = elim (Option-cases (rest_under n.path from)) [
  | inl outside ↦ rw (move_one, outside) h
  | inr (rest, inside) ↦
      let there = IsPath-moved n.path from to {rest = rest} inside h.path k in
      let dead = relabel-IsNode next n n.lookups true h in
      let moves : length to + length rest ≤ path_max
          → IsNode next (record n { path = to ++ rest }) =
        λ l. record {
          after_root = h.after_root;
          before_next = h.before_next;
          token = h.token;
          path = there l;
        } in
      ground (arith, inside, h, dead, moves)
]

pub moved-IsValid :
    (malloc : ℕ → Bool) (fs : DropFs) (token from to : List ℕ)
    → clean 0 to ≡ true
    → IsValid fs
    → IsValid (moved malloc fs token from to)
moved-IsValid malloc fs token from to k v = record {
  each =
      All-each_node (IsNode fs.next_id) (move_one malloc token from to)
        (λ n. move_one-IsNode malloc fs.next_id token from to n k) fs.nodes v.each;
  apart =
      rw (ids-each_node (move_one malloc token from to) (move_one-id malloc token from to) fs.nodes)
        v.apart;
  next = v.next;
}

add_node-IsValid :
    (allocated : Bool) (fs : DropFs) (kind : ℕ) (token path : List ℕ)
    → fs.next_id + 1 < 2 ^ 64
    → valid_token token ≡ true
    → IsPath path
    → IsValid fs
    → IsValid (add_node allocated fs kind token path).0
unfolding add_node
add_node-IsValid false fs kind token path room t p v = v
add_node-IsValid true fs kind token path room t p v =
    let new : Node = record {
      id = fs.next_id;
      lookups = 1;
      kind = kind;
      dead = false;
      token = token;
      path = path;
    } in
    let next : (fs.next_id + 1) % 2 ^ 64 ≡ fs.next_id + 1 = omega (arith, room) in
    record {
      each =
          subst (λ q. All (IsNode q) (new ∷ fs.nodes)) (sym next)
            (
              record { after_root = v.next; before_next = omega arith; token = t; path = p },
              later fs.next_id fs.nodes v.each,
            );
      apart = (fresh fs.next_id fs.nodes v.each, v.apart);
      next = omega (arith, next, v.next);
    }

change-IsValid :
    (fs : DropFs) (token path : List ℕ) (f : Node → Node)
    → ((n : Node) → (f n).id ≡ n.id)
    → ((n : Node) → IsNode fs.next_id n → IsNode fs.next_id (f n))
    → IsValid fs
    → IsValid (record fs { nodes = change_live f token path fs.nodes })
change-IsValid fs token path f same_id good v = record {
  each = All-change_live (IsNode fs.next_id) f good token path fs.nodes v.each;
  apart = rw (ids-change_live f same_id token path fs.nodes) v.apart;
  next = v.next;
}

pub remember-IsValid :
    (allocated : Bool) (fs : DropFs) (kind : ℕ) (token path : List ℕ)
    → fs.next_id + 1 < 2 ^ 64
    → valid_token token ≡ true
    → IsPath path
    → IsValid fs
    → IsValid (remember allocated fs kind token path).0
unfolding remember
remember-IsValid allocated fs kind token path room t p v =
    elim (Option-cases (find_live token path fs.nodes)) [
      | inl new ↦ rw (remember, new) (add_node-IsValid allocated fs kind token path room t p v)
      | inr (n, there) ↦
          let counted =
            change-IsValid fs token path count_lookup (λ m. refl)
              (λ m h. relabel-IsNode fs.next_id m ((m.lookups + 1) % 2 ^ 64) m.dead h) v in
          let buried =
            change-IsValid fs token path bury_node (λ m. refl)
              (λ m h. relabel-IsNode fs.next_id m m.lookups true h) v in
          let replaced =
            add_node-IsValid allocated
              (record fs { nodes = change_live bury_node token path fs.nodes }) kind token path room
              t p buried in
          elim (Bool-cases (n.kind == kind)) [
            | inl same_kind ↦ rw (remember, there, same_kind) counted
            | inr other ↦ rw (remember, there, other) replaced
          ]
    ]
