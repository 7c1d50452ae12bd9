-- ===== src/DropFs/Reading.antt =====
-- The handlers about attributes and open files on a valid table.
use native_pipe.Base.{
  ℕ, ◌≡◌, refl, sym, ap, Bool, false, some, List, [], ◌∷◌, ltb, leb, ◌==◌, if◌then◌else◌, length,
  arith, Bool-cases, inl, inr, Option-cases,
}
use native_pipe.Base.Bytes.{le32, u32_at}
use native_pipe.DropFs.State.{Node, DropFs, root_id, path_max, u64_at}
use native_pipe.DropFs.Table.{read_node, root_view}
use native_pipe.DropFs.Valid.{IsNode, IsValid}
use native_pipe.DropFs.Host.{
  eperm, enoent, einval, HostCall, path_call, HostAnswer, HostAttr, refused, attr_of, lookup_call,
  host_lookup, reply,
}
use native_pipe.DropFs.Host.{answered_attr}
use native_pipe.DropFs.Attributes.{
  root_attr, attr_body, setattr_call, of_handle, attr_reply, changes_of, do_opendir, getattr_of,
  do_getattr, setattr_of, do_setattr, data_reply, do_readlink,
}
use native_pipe.DropFs.OpenFiles.{
  open_node, do_open, do_read, do_release, do_write, do_fsync, do_flush, do_lock,
}
use native_pipe.DropFs.Dispatch.{handle}
use native_pipe.DropFs.Inside.{
  IsInside, IsGood, find_node-All, read_node-IsNode, path_call-IsInside, reply-IsGood,
}

module _ (fs : DropFs) (v : IsValid fs) where
  attr_reply-IsGood :
      (id : ℕ) (c : HostCall) (r : HostAttr) → IsInside c → IsGood (attr_reply fs id c r)
  unfolding attr_reply
  attr_reply-IsGood id c (refused e) h = reply-IsGood fs (c ∷ []) e [] v (h, tt)
  attr_reply-IsGood id c (attr_of a) h = reply-IsGood fs (c ∷ []) 0 (attr_body fs id a) v (h, tt)

  -- The node of a request: the root, or one of the table.
  module _ (n : Node) (known : (n.id == root_id) ≡ false → IsNode fs.next_id n) (opcode : ℕ)
      (fixed : List ℕ) where
    pub node_call-IsInside :
        (n.id == root_id) ≡ false → IsInside (path_call opcode fixed n.token n.path)
    node_call-IsInside other =
        let h = known other in path_call-IsInside opcode fixed n.token n.path h.token h.path

  -- The view of the root has neither token nor path.
  read_node-IsInside :
      (id opcode : ℕ) (fixed : List ℕ) {n : Node}
      → read_node fs id ≡ some n
      → IsInside (path_call opcode fixed n.token n.path)
  unfolding read_node
  read_node-IsInside id opcode fixed {n} there = elim (Bool-cases (id == root_id)) [
    | inl root ↦
        let view : root_view ≡ n = cc (root, there) in
        inr (sym (ap (λ q. q.token) view), (sym (ap (λ q. q.path) view), refl))
    | inr other ↦
        let h = find_node-All (IsNode fs.next_id) fs.nodes id {n = n} (cc (other, there)) v.each in
        path_call-IsInside opcode fixed n.token n.path h.token h.path
  ]

  pub refused-IsGood : (e : ℕ) (body : List ℕ) → IsGood (reply fs [] e body)
  refused-IsGood e body = reply-IsGood fs [] e body v tt

  pub do_opendir-IsGood : (id : ℕ) → IsGood (do_opendir fs id)
  unfolding do_opendir
  do_opendir-IsGood id = elim (Option-cases (read_node fs id)) [
    | inl gone ↦ rw (do_opendir, gone) (refused-IsGood enoent [])
    | inr (n, there) ↦ ground (arith, there, v)
  ]

  module _ (host : HostCall → HostAnswer) where
    data_reply-IsGood :
        (c : HostCall) (capacity : ℕ) → IsInside c → IsGood (data_reply host fs c capacity)
    unfolding data_reply
    data_reply-IsGood c capacity h = ground (arith, h, v)

    getattr_of-IsGood :
        (n : Node) (flags handle : ℕ)
        → ((n.id == root_id) ≡ false → IsNode fs.next_id n)
        → IsGood (getattr_of host fs n flags handle)
    unfolding getattr_of
    getattr_of-IsGood n flags handle known = elim (Bool-cases (n.id == root_id)) [
      | inl root ↦ rw root (refused-IsGood 0 (attr_body fs n.id root_attr))
      | inr other ↦
          let c = setattr_call n (of_handle handle) in
          let l = lookup_call n.token n.path in
          let asked =
            attr_reply-IsGood n.id c (answered_attr (host c))
              (node_call-IsInside n known 7 c.fixed other) in
          let found =
            attr_reply-IsGood n.id l (host_lookup n.path (host l))
              (node_call-IsInside n known 1 [] other) in
          ground (arith, other, asked, found, refused-IsGood enoent [])
    ]

    pub do_getattr-IsGood : (id : ℕ) (body : List ℕ) → IsGood (do_getattr host fs id body)
    unfolding do_getattr
    do_getattr-IsGood id body =
        let flags = if leb 8 (length body) then u32_at body 0 else 0 in
        let handle = if leb 16 (length body) then u64_at body 8 else 0 in
        elim (Option-cases (read_node fs id)) [
          | inl gone ↦ rw (do_getattr, gone) (refused-IsGood enoent [])
          | inr (n, there) ↦
              rw (do_getattr, there)
                (getattr_of-IsGood n flags handle (read_node-IsNode fs id {n = n} v there))
        ]

    setattr_of-IsGood :
        (n : Node) (body : List ℕ)
        → ((n.id == root_id) ≡ false → IsNode fs.next_id n)
        → IsGood (setattr_of host fs n body)
    unfolding setattr_of
    setattr_of-IsGood n body known = elim (Bool-cases (n.id == root_id)) [
      | inl root ↦ rw root (refused-IsGood eperm [])
      | inr other ↦
          let c = setattr_call n (changes_of n body) in
          let asked =
            attr_reply-IsGood n.id c (answered_attr (host c))
              (node_call-IsInside n known 7 c.fixed other) in
          ground (arith, other, asked, refused-IsGood eperm [], refused-IsGood enoent [])
    ]

    pub do_setattr-IsGood : (id : ℕ) (body : List ℕ) → IsGood (do_setattr host fs id body)
    unfolding do_setattr
    do_setattr-IsGood id body = elim (Bool-cases (ltb (length body) 88)) [
      | inl short ↦ rw short (refused-IsGood einval [])
      | inr whole ↦ elim (Option-cases (read_node fs id)) [
        | inl gone ↦ rw (do_setattr, whole, gone) (refused-IsGood enoent [])
        | inr (n, there) ↦
            rw (do_setattr, whole, there)
              (setattr_of-IsGood n body (read_node-IsNode fs id {n = n} v there))
      ]
    ]

    pub do_readlink-IsGood : (id : ℕ) → IsGood (do_readlink host fs id)
    unfolding do_readlink
    do_readlink-IsGood id = elim (Option-cases (read_node fs id)) [
      | inl gone ↦ rw (do_readlink, gone) (refused-IsGood enoent [])
      | inr (n, there) ↦
          let c = path_call 18 [] n.token n.path in
          let read = data_reply-IsGood c path_max (read_node-IsInside id 18 [] {n = n} there) in
          rw (do_readlink, there)
            (ground (arith, read, refused-IsGood enoent [], refused-IsGood einval []))
    ]

    open_node-IsGood :
        (n : Node) (flags : ℕ)
        → ((n.id == root_id) ≡ false → IsNode fs.next_id n)
        → IsGood (open_node host fs n flags)
    unfolding open_node
    open_node-IsGood n flags known = elim (Bool-cases (n.id == root_id)) [
      | inl root ↦ rw root (refused-IsGood 21 [])
      | inr other ↦ ground (arith, other, node_call-IsInside n known 3 (le32 flags) other, v)
    ]

    pub do_open-IsGood : (id : ℕ) (body : List ℕ) → IsGood (do_open host fs id body)
    unfolding do_open
    do_open-IsGood id body = elim (Bool-cases (ltb (length body) 8)) [
      | inl short ↦ rw short (refused-IsGood einval [])
      | inr whole ↦ elim (Option-cases (read_node fs id)) [
        | inl gone ↦ rw (do_open, whole, gone) (refused-IsGood enoent [])
        | inr (n, there) ↦
            rw (do_open, whole, there)
              (open_node-IsGood n (u32_at body 0) (read_node-IsNode fs id {n = n} v there))
      ]
    ]

    pub do_read-IsGood :
        (allocated : Bool) (body : List ℕ) → IsGood (do_read host allocated fs body)
    unfolding do_read data_reply
    do_read-IsGood allocated body = ground (arith, v)

    pub do_release-IsGood : (body : List ℕ) → IsGood (do_release host fs body)
    unfolding do_release
    do_release-IsGood body = ground (arith, v)

    pub do_write-IsGood : (body : List ℕ) → IsGood (do_write host fs body)
    unfolding do_write
    do_write-IsGood body = ground (arith, v)

    pub do_fsync-IsGood : (body : List ℕ) → IsGood (do_fsync host fs body)
    unfolding do_fsync
    do_fsync-IsGood body = ground (arith, v)

    pub do_flush-IsGood : (body : List ℕ) → IsGood (do_flush host fs body)
    unfolding do_flush
    do_flush-IsGood body = ground (arith, v)

    pub do_lock-IsGood :
        (interrupted : Bool) (opcode unique : ℕ) (body : List ℕ)
        → IsGood (do_lock host interrupted fs opcode unique body)
    unfolding do_lock
    do_lock-IsGood interrupted opcode unique body = ground (arith, v)
