-- ===== src/DropFs/Lookup.antt =====
-- Finding and creating: directory_node, child_path, do_lookup, created, do_mkdir, do_symlink and do_create
-- of np_drop_fs.c. `host` gives the answer of each call, `allocated` says whether remember gets memory.
use native_pipe.Base.{
  ℕ, zero, suc, ◌+◌, ◌-◌, ◌*◌, ◌/◌, ◌%◌, Bool, not, ◌||◌, Option, none, some, List, [], ◌∷◌, ◌++◌,
  ltb, leb, ◌==◌, if◌then◌else◌, length, drop,
}
use native_pipe.Base.Bytes.{le16, le32, u32_at}
use native_pipe.DropFs.State.{
  DropFs, Node, DropAttr, attr_decode, attr_length, le64, u64_at, directory, file, root_id,
  path_max,
}
use native_pipe.DropFs.Names.{valid_token, valid_name, join}
use native_pipe.DropFs.Table.{read_node, remember}
use native_pipe.DropFs.Host.{
  eperm, enoent, eio, enotdir, einval, enametoolong, HostCall, path_call, HostAnswer, call_host,
  HostAttr, refused, attr_of, lookup_call, host_lookup, Outcome, reply, entry_body,
}

-- A C string in a request, and what follows its final 0; nothing when there is none.
abbrev pub c_string : List ℕ → Option (List ℕ × List ℕ)
c_string [] = none
c_string (b ∷ bs) =
    let rest : Option (List ℕ × List ℕ) = elim (c_string bs) [
      | none ↦ none
      | some p ↦ some (b ∷ p.0, p.1)
    ] in
    if b == 0 then some ([], bs) else rest

-- The bits that two numbers have in common, of as many as the first.
abbrev pub band : ℕ → ℕ → ℕ → ℕ
band zero a b = 0
band (suc k) a b = a % 2 * (b % 2) + 2 * band k (a / 2) (b / 2)

-- `mode & ~umask & 07777`
abbrev pub masked_mode : ℕ → ℕ → ℕ
masked_mode mode umask = band 12 mode (4095 - umask % 4096)

-- What directory_node gives: an error, or the directory.
pub data Directory : Type 0 where
  no_directory : ℕ → Directory
  directory_at : Node → Directory

-- directory_node
unfoldable pub directory_node : DropFs → ℕ → Directory
directory_node fs id = elim (read_node fs id) [
  | none ↦ no_directory enoent
  | some n ↦
      if n.id == root_id
      then no_directory eperm
      else if n.dead
      then no_directory enoent
      else if not (n.kind == directory)
      then no_directory enotdir
      else directory_at n
]

-- What child_path gives: an error; or the parent, the path and the rest of the request.
pub data ChildPath : Type 0 where
  no_child : ℕ → ChildPath
  child : Node → List ℕ → List ℕ → ChildPath

-- child_path on the directory and the name.
unfoldable pub child_in : Directory → List ℕ → List ℕ → ChildPath
child_in (no_directory e) name rest = no_child e
child_in (directory_at parent) name rest =
    if not (valid_name name) then no_child einval else elim (join parent.path name) [
      | none ↦ no_child enametoolong
      | some path ↦ child parent path rest
    ]

-- child_path
unfoldable pub child_path : DropFs → ℕ → List ℕ → ChildPath
child_path fs id body = elim (c_string body) [
  | none ↦ no_child einval
  | some p ↦ child_in (directory_node fs id) (p.0) (p.1)
]

module _ (host : HostCall → HostAnswer) (allocated : Bool) where
  -- What do_lookup does with the attributes of the host. An unreachable host is answered as ENOENT.
  unfoldable pub looked_up : DropFs → List ℕ → List ℕ → HostAttr → Outcome
  looked_up fs token path (refused e) =
      reply fs (lookup_call token path ∷ []) (if e == eio then enoent else e) []
  looked_up fs token path (attr_of a) =
      let kept = remember allocated fs a.kind token path in
      if kept.1 == 0
      then reply (kept.0) (lookup_call token path ∷ []) eio []
      else reply (kept.0) (lookup_call token path ∷ []) 0 (entry_body fs kept.1 a)

  abbrev pub lookup_at : DropFs → List ℕ → List ℕ → Outcome
  lookup_at fs token path =
      looked_up fs token path (host_lookup path (host (lookup_call token path)))

  -- do_lookup on the node of the parent.
  unfoldable pub lookup_in : DropFs → Node → List ℕ → Outcome
  lookup_in fs parent name =
      if parent.id == root_id
      then if not (valid_token name) then reply fs [] enoent [] else lookup_at fs name []
      else if parent.dead
      then reply fs [] enoent []
      else if parent.kind == directory
      then if not (valid_name name) then reply fs [] enoent [] else elim (join parent.path name) [
        | none ↦ reply fs [] enametoolong []
        | some path ↦ lookup_at fs parent.token path
      ]
      else reply fs [] enotdir []

  -- do_lookup
  unfoldable pub do_lookup : DropFs → ℕ → List ℕ → Outcome
  do_lookup fs id body = elim (c_string body) [
    | none ↦ reply fs [] einval []
    | some p ↦ elim (read_node fs id) [
      | none ↦ reply fs [] enoent []
      | some parent ↦ lookup_in fs parent (p.0)
    ]
  ]

  -- created, once a call has been made.
  unfoldable pub created_attr : DropFs → HostCall → Option DropAttr → Outcome
  created_attr fs c none = reply fs (c ∷ []) eio []
  created_attr fs c (some a) =
      let kept = remember allocated fs a.kind c.token c.path in
      if kept.1 == 0
      then reply (kept.0) (c ∷ []) eio []
      else reply (kept.0) (c ∷ []) 0 (entry_body fs kept.1 a)

  -- A call that makes a directory or a link, its result and created.
  unfoldable pub make_node : DropFs → HostCall → Outcome
  make_node fs c =
      let answer = call_host none (host c) in
      if not answer.done
      then reply fs (c ∷ []) eio []
      else if not (answer.status == 0)
      then reply fs (c ∷ []) answer.status []
      else created_attr fs c (attr_decode answer.head)

  -- do_mkdir
  unfoldable pub make_directory : DropFs → ℕ → ChildPath → Outcome
  make_directory fs mode (no_child e) = reply fs [] e []
  make_directory fs mode (child parent path rest) =
      make_node fs (path_call 16 (le32 mode) parent.token path)

  unfoldable pub do_mkdir : DropFs → ℕ → List ℕ → Outcome
  do_mkdir fs id body =
      let mode = masked_mode (u32_at body 0) (u32_at body 4) in
      if leb (length body) 8
      then reply fs [] einval []
      else make_directory fs mode (child_path fs id (drop 8 body))

  -- do_symlink
  unfoldable pub make_link : DropFs → Node → List ℕ → Option (List ℕ × List ℕ) → Outcome
  make_link fs parent path none = reply fs [] einval []
  make_link fs parent path (some p) =
      let target = p.0 in
      if (length target == 0) || ltb path_max (length target)
      then reply fs [] einval []
      else make_node fs (path_call 17 (le16 (length target) ++ target) parent.token path)

  unfoldable pub link_child : DropFs → ChildPath → Outcome
  link_child fs (no_child e) = reply fs [] e []
  link_child fs (child parent path rest) = make_link fs parent path (c_string rest)

  abbrev pub do_symlink : DropFs → ℕ → List ℕ → Outcome
  do_symlink fs id body = link_child fs (child_path fs id body)

  -- do_create after its call. A file that cannot be remembered is released again.
  unfoldable pub created_file : DropFs → HostCall → ℕ → Option DropAttr → Outcome
  created_file fs c handle none = reply fs (c ∷ []) eio []
  created_file fs c handle (some a) =
      let kept = remember allocated fs file c.token c.path in
      let release : HostCall = path_call 5 (le64 handle) [] [] in
      if kept.1 == 0
      then reply (kept.0) (c ∷ release ∷ []) eio []
      else reply (kept.0) (c ∷ []) 0 (entry_body fs kept.1 a ++ (le64 handle ++ (le32 0 ++ le32 0)))

  unfoldable pub create_file : DropFs → ℕ → ℕ → ChildPath → Outcome
  create_file fs flags mode (no_child e) = reply fs [] e []
  create_file fs flags mode (child parent path rest) =
      let c = path_call 8 (le32 flags ++ le32 mode) parent.token path in
      let answer = call_host none (host c) in
      if not answer.done
      then reply fs (c ∷ []) eio []
      else if not (answer.status == 0)
      then reply fs (c ∷ []) answer.status []
      else if not (length answer.head == 8 + attr_length)
      then reply fs (c ∷ []) eio []
      else created_file fs c (u64_at answer.head 0) (attr_decode (drop 8 answer.head))

  -- do_create
  unfoldable pub do_create : DropFs → ℕ → List ℕ → Outcome
  do_create fs id body =
      let mode = masked_mode (u32_at body 4) (u32_at body 8) in
      if leb (length body) 16
      then reply fs [] einval []
      else create_file fs (u32_at body 0) mode (child_path fs id (drop 16 body))
