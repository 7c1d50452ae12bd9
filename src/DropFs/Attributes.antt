-- ===== src/DropFs/Attributes.antt =====
-- Attributes of a node: do_getattr, host_setattr and do_setattr of np_drop_fs.c, with do_init, do_statfs,
-- do_opendir and do_readlink. `host` gives the answer of each call.
use native_pipe.Base.{
  ℕ, ◌-◌, ◌/◌, ◌%◌, ◌^◌, Bool, not, ◌||◌, ◌&&◌, none, some, List, [], ◌∷◌, ◌++◌, ltb, leb, ◌==◌,
  if◌then◌else◌, length,
}
use native_pipe.Base.Bytes.{le16, le32, u32_at}
use native_pipe.DropFs.State.{
  DropFs, Node, DropAttr, le64, u64_at, directory, file, link, root_id, path_max, name_max,
}
use native_pipe.DropFs.Table.{read_node}
use native_pipe.DropFs.Host.{
  eperm, enoent, eio, enotdir, einval, HostCall, path_call, HostAnswer, call_host, HostAttr,
  refused, attr_of, answered_attr, lookup_call, host_lookup, fill_attr, Outcome, reply,
}
use native_pipe.DropFs.Lookup.{band}

abbrev pub root_attr : DropAttr
root_attr = record {
  kind = directory;
  mode = 365;
  size = 0;
  mtime_seconds = 0;
  mtime_nanoseconds = 0;
  file_id = 0;
}

-- `struct npf_attr_out`
abbrev pub attr_body : DropFs → ℕ → DropAttr → List ℕ
attr_body fs id a = le64 0 ++ (le32 0 ++ (le32 0 ++ fill_attr fs id a))

-- `value & (1 << bit)`
abbrev pub has_bit : ℕ → ℕ → Bool
has_bit value bit = value / 2 ^ bit % 2 == 1

-- What host_setattr is given beside the node.
pub record Changes : Type 0 where
  pub valid : ℕ
  pub mode : ℕ
  pub size : ℕ
  pub atime : ℕ
  pub atime_ns : ℕ
  pub mtime : ℕ
  pub mtime_ns : ℕ
  pub handle : ℕ

-- The request of host_setattr.
abbrev pub setattr_call : Node → Changes → HostCall
setattr_call n s =
    path_call 7
      (le32 s.valid
        ++ (le32 s.mode
            ++ (le64 s.size
                ++ (le64 s.atime
                    ++ (le32 s.atime_ns ++ (le64 s.mtime ++ (le32 s.mtime_ns ++ le64 s.handle)))))))
      n.token n.path

-- fstat on an open file asks for the attributes of a handle.
abbrev pub of_handle : ℕ → Changes
of_handle handle = record {
  valid = 64;
  mode = 0;
  size = 0;
  atime = 0;
  atime_ns = 0;
  mtime = 0;
  mtime_ns = 0;
  handle = handle;
}

-- The reply on attributes that a call gave.
unfoldable pub attr_reply : DropFs → ℕ → HostCall → HostAttr → Outcome
attr_reply fs id c (refused e) = reply fs (c ∷ []) e []
attr_reply fs id c (attr_of a) = reply fs (c ∷ []) 0 (attr_body fs id a)

-- do_init: `struct npf_init_out`.
unfoldable pub do_init : DropFs → List ℕ → Outcome
do_init fs body =
    let major = u32_at body 0 in
    let minor = if ltb 7 major || ltb 31 (u32_at body 4) then 31 else u32_at body 4 in
    let readahead = if ltb (u32_at body 8) 131072 then u32_at body 8 else 131072 in
    let flags = band 32 (u32_at body 12) 1067 in
    let zeros = le64 0 ++ (le64 0 ++ le64 0) in
    if ltb (length body) 16 || ltb major 7
    then reply fs [] einval []
    else reply fs [] 0 (
        le32 7
        ++ (le32 minor
            ++ (le32 readahead
                ++ (le32 flags
                    ++ (le16 16
                        ++ (le16 12
                            ++ (le32 131072
                                ++ (le32 1
                                    ++ (le16 0 ++ (le16 0 ++ (le32 0 ++ (le32 0 ++ zeros))))))))))))

-- do_statfs: `struct npf_kstatfs`.
abbrev pub do_statfs : DropFs → Outcome
do_statfs fs =
    let zeros = le64 0 ++ (le64 0 ++ (le64 0 ++ (le64 0 ++ le64 0))) in
    reply fs [] 0 (
      zeros
      ++ (le32 4096
          ++ (le32 name_max ++ (le32 4096 ++ (le32 0 ++ (le64 0 ++ (le64 0 ++ le64 0)))))))

-- `struct npf_open_out`
abbrev pub open_body : ℕ → List ℕ
open_body handle = le64 handle ++ (le32 0 ++ le32 0)

-- do_opendir
unfoldable pub do_opendir : DropFs → ℕ → Outcome
do_opendir fs id = elim (read_node fs id) [
  | none ↦ reply fs [] enoent []
  | some n ↦
      if not (n.id == root_id) && not (n.kind == directory)
      then reply fs [] enotdir []
      else reply fs [] 0 (open_body 0)
]

-- The changes that do_setattr asks for, with the bits that are passed on.
unfoldable pub changes_of : Node → List ℕ → Changes
changes_of n body =
    let passed = band 32 (u32_at body 0) 505 in
    record {
      valid = if n.kind == file then passed else band 32 passed (2 ^ 32 - 1 - 64);
      mode = u32_at body 68 % 4096;
      size = u64_at body 16;
      atime = u64_at body 32;
      atime_ns = u32_at body 56;
      mtime = u64_at body 40;
      mtime_ns = u32_at body 60;
      handle = u64_at body 8;
    }

module _ (host : HostCall → HostAnswer) where
  -- do_getattr on a node.
  unfoldable pub getattr_of : DropFs → Node → ℕ → ℕ → Outcome
  getattr_of fs n flags handle =
      let c = setattr_call n (of_handle handle) in
      let l = lookup_call n.token n.path in
      if n.id == root_id
      then reply fs [] 0 (attr_body fs n.id root_attr)
      else if (n.kind == file) && has_bit flags 0
      then attr_reply fs n.id c (answered_attr (host c))
      else if n.dead
      then reply fs [] enoent []
      else attr_reply fs n.id l (host_lookup n.path (host l))

  -- do_getattr
  unfoldable pub do_getattr : DropFs → ℕ → List ℕ → Outcome
  do_getattr fs id body =
      let flags = if leb 8 (length body) then u32_at body 0 else 0 in
      let handle = if leb 16 (length body) then u64_at body 8 else 0 in
      elim (read_node fs id) [
        | none ↦ reply fs [] enoent []
        | some n ↦ getattr_of fs n flags handle
      ]

  -- do_setattr on a node.
  unfoldable pub setattr_of : DropFs → Node → List ℕ → Outcome
  setattr_of fs n body =
      let asked = u32_at body 0 in
      let changes = changes_of n body in
      let c = setattr_call n changes in
      if (n.id == root_id) || (length n.path == 0)
      then reply fs [] eperm []
      else if (has_bit asked 1 && not (u32_at body 76 == fs.owner))
          || (has_bit asked 2 && not (u32_at body 80 == fs.group))
      then reply fs [] eperm []
      else if n.dead && not (has_bit changes.valid 6)
      then reply fs [] enoent []
      else attr_reply fs n.id c (answered_attr (host c))

  -- do_setattr
  unfoldable pub do_setattr : DropFs → ℕ → List ℕ → Outcome
  do_setattr fs id body =
      if ltb (length body) 88
      then reply fs [] einval []
      else elim (read_node fs id) [ none ↦ reply fs [] enoent [] | some n ↦ setattr_of fs n body ]

  -- What a call that gives DATA is answered with.
  unfoldable pub data_reply : DropFs → HostCall → ℕ → Outcome
  data_reply fs c capacity =
      let answer = call_host (some capacity) (host c) in
      if not answer.done
      then reply fs (c ∷ []) eio []
      else reply fs (c ∷ []) answer.status answer.data_bytes

  -- do_readlink
  unfoldable pub do_readlink : DropFs → ℕ → Outcome
  do_readlink fs id = elim (read_node fs id) [
    | none ↦ reply fs [] enoent []
    | some n ↦
        if n.dead
        then reply fs [] enoent []
        else if not (n.kind == link)
        then reply fs [] einval []
        else data_reply fs (path_call 18 [] n.token n.path) path_max
  ]
