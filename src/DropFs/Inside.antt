-- ===== src/DropFs/Inside.antt =====
-- What the helpers of the handlers give: nodes, directories and paths inside a drop.
use mathlib.Core.Path.{subst}
use native_pipe.Base.{
  ℕ, ◌+◌, ◌^◌, ◌<◌, ◌≡◌, refl, ap, true, false, some, List, [], ◌∷◌, ◌==◌, arith, Bool-cases, inl,
  inr, ◌⊎◌, Option-cases, All,
}
use native_pipe.DropFs.State.{Node, DropFs, root_id}
use native_pipe.DropFs.Names.{valid_token, valid_name, join}
use native_pipe.DropFs.Paths.{IsPath, IsNamed, IsNamed-join}
use native_pipe.DropFs.Table.{find_node, read_node, root_view}
use native_pipe.DropFs.Valid.{IsNode, IsValid}
use native_pipe.DropFs.Host.{HostCall, path_call, Outcome, reply}
use native_pipe.DropFs.Lookup.{
  c_string, Directory, no_directory, directory_at, directory_node, ChildPath, no_child, child,
  child_in, child_path,
}

-- A call names a token and paths inside its drop, or no path at all.
abbrev pub IsInside : HostCall → Type 0
IsInside c =
    ((valid_token c.token ≡ true) × (IsPath c.path × IsPath c.second))
    ⊎ ((c.token ≡ []) × ((c.path ≡ []) × (c.second ≡ [])))

pub record IsGood (o : Outcome) : Type 0 where
  pub valid : IsValid o.fs
  pub calls : All IsInside o.calls

-- There are identifiers left.
abbrev pub HasIds : DropFs → Type 0
HasIds fs = fs.next_id + 1 < 2 ^ 64

pub find_node-All :
    (P : Node → Type 0) (ns : List Node) (id : ℕ) {n : Node}
    → find_node ns id ≡ some n
    → All P ns
    → P n
find_node-All P [] id e h = ground arith
find_node-All P (m ∷ ns) id {n} e (h, hs) = elim (Bool-cases (m.id == id)) [
  | inl here ↦ let same_node : m ≡ n = cc (here, e) in subst P same_node h
  | inr on ↦ find_node-All P ns id {n = n} (cc (on, e)) hs
]

pub read_node-IsNode :
    (fs : DropFs) (id : ℕ) {n : Node}
    → IsValid fs
    → read_node fs id ≡ some n
    → (n.id == root_id) ≡ false
    → IsNode fs.next_id n
unfolding read_node
read_node-IsNode fs id {n} v e other = elim (Bool-cases (id == root_id)) [
  | inl root ↦
      let view : root_view ≡ n = cc (root, e) in absurd (ground (arith, other, ap (λ q. q.id) view))
  | inr on ↦ find_node-All (IsNode fs.next_id) fs.nodes id {n = n} (cc (on, e)) v.each
]

-- What directory_node and child_path give is inside a drop.
abbrev IsOpen : Directory → Type 0
IsOpen (no_directory e) = Unit {0}
IsOpen (directory_at n) = (valid_token n.token ≡ true) × IsPath n.path

directory_node-IsOpen : (fs : DropFs) (id : ℕ) → IsValid fs → IsOpen (directory_node fs id)
unfolding directory_node
directory_node-IsOpen fs id v = elim (Option-cases (read_node fs id)) [
  | inl gone ↦ rw (directory_node, gone) tt
  | inr (n, there) ↦ elim (Bool-cases (n.id == root_id)) [
    | inl root ↦ rw (directory_node, there, root) tt
    | inr other ↦
        let h = read_node-IsNode fs id {n = n} v there other in
        let inside : IsOpen (directory_at n) = (h.token, h.path) in
        rw (directory_node, there, other) (ground (arith, inside))
  ]
]

abbrev pub IsWithin : ChildPath → Type 0
IsWithin (no_child e) = Unit {0}
IsWithin (child parent path rest) = (valid_token parent.token ≡ true) × IsNamed path

child_in-IsWithin :
    (d : Directory) (name rest : List ℕ) → IsOpen d → IsWithin (child_in d name rest)
unfolding child_in
child_in-IsWithin (no_directory e) name rest h = tt
child_in-IsWithin (directory_at parent) name rest (t, p) = elim (Bool-cases (valid_name name)) [
  | inr bad ↦ rw bad tt
  | inl good ↦ elim (Option-cases (join parent.path name)) [
    | inl long ↦ rw (good, long) tt
    | inr (path, joined) ↦
        rw (good, joined) (t, IsNamed-join parent.path name {p = path} p good joined)
  ]
]

pub child_path-IsWithin :
    (fs : DropFs) (id : ℕ) (body : List ℕ) → IsValid fs → IsWithin (child_path fs id body)
unfolding child_path
child_path-IsWithin fs id body v = elim (Option-cases (c_string body)) [
  | inl endless ↦ rw (child_path, endless) tt
  | inr (p, cut) ↦
      rw (child_path, cut)
        (child_in-IsWithin (directory_node fs id) (p.0) (p.1) (directory_node-IsOpen fs id v))
]

pub path_call-IsInside :
    (opcode : ℕ) (fixed token path : List ℕ)
    → valid_token token ≡ true
    → IsPath path
    → IsInside (path_call opcode fixed token path)
path_call-IsInside opcode fixed token path t p = inl (t, (p, (omega arith, inl refl)))

pub reply-IsGood :
    (fs : DropFs) (calls : List HostCall) (error : ℕ) (body : List ℕ)
    → IsValid fs
    → All IsInside calls
    → IsGood (reply fs calls error body)
reply-IsGood fs calls error body v h = record { valid = v; calls = h }
