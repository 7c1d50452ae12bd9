-- ===== src/DropFs/OpenFiles.antt =====
-- Open files: do_open, do_read, do_release, do_write, do_fsync, do_flush and do_lock of np_drop_fs.c. `host`
-- gives the answer of each call.
use native_pipe.Base.{
  ℕ, ◌+◌, ◌-◌, Bool, false, not, ◌||◌, ◌&&◌, none, some, List, [], ◌∷◌, ◌++◌, ltb, ◌==◌,
  if◌then◌else◌, length, take, drop,
}
use native_pipe.Base.Bytes.{le32, u32_at}
use native_pipe.DropFs.State.{DropFs, Node, attr_length, le64, u64_at, directory, file, root_id}
use native_pipe.DropFs.Table.{read_node}
use native_pipe.DropFs.Host.{
  enoent, eio, einval, HostCall, path_call, HostAnswer, unreachable, call_host, Outcome, reply,
}
use native_pipe.DropFs.Attributes.{open_body, has_bit, data_reply}

abbrev pub eisdir : ℕ
eisdir = 21

abbrev pub eloop : ℕ
eloop = 40

abbrev pub eintr : ℕ
eintr = 4

-- A call without a path.
abbrev pub plain_call : ℕ → List ℕ → HostCall
plain_call opcode fixed = path_call opcode fixed [] []

module _ (host : HostCall → HostAnswer) where
  -- do_open on a node.
  unfoldable pub open_node : DropFs → Node → ℕ → Outcome
  open_node fs n flags =
      let c = path_call 3 (le32 flags) n.token n.path in
      let answer = call_host none (host c) in
      if (n.id == root_id) || (n.kind == directory)
      then reply fs [] eisdir []
      else if not (n.kind == file)
      then reply fs [] eloop []
      else if n.dead
      then reply fs [] enoent []
      else if not answer.done
      then reply fs (c ∷ []) eio []
      else if not (answer.status == 0)
      then reply fs (c ∷ []) answer.status []
      else if not (length answer.head == 8 + attr_length)
      then reply fs (c ∷ []) eio []
      else reply fs (c ∷ []) 0 (open_body (u64_at answer.head 0))

  -- do_open
  unfoldable pub do_open : DropFs → ℕ → List ℕ → Outcome
  do_open fs id body =
      if ltb (length body) 8 then reply fs [] einval [] else elim (read_node fs id) [
        | none ↦ reply fs [] enoent []
        | some n ↦ open_node fs n (u32_at body 0)
      ]

  -- do_read; the flag says whether there is memory for the bytes.
  unfoldable pub do_read : Bool → DropFs → List ℕ → Outcome
  do_read allocated fs body =
      let size = if ltb (u32_at body 16) 131072 then u32_at body 16 else 131072 in
      let c = plain_call 4 (le64 (u64_at body 0) ++ (le64 (u64_at body 8) ++ le32 size)) in
      if ltb (length body) 40
      then reply fs [] einval []
      else if not allocated
      then reply fs [] eio []
      else data_reply host fs c size

  -- do_release
  unfoldable pub do_release : DropFs → List ℕ → Outcome
  do_release fs body =
      if ltb (length body) 24
      then reply fs [] 0 []
      else reply fs (plain_call 5 (le64 (u64_at body 0)) ∷ []) 0 []

  -- do_write
  unfoldable pub do_write : DropFs → List ℕ → Outcome
  do_write fs body =
      let size = u32_at body 16 in
      let plain = plain_call 6 (le64 (u64_at body 0) ++ le64 (u64_at body 8)) in
      let c : HostCall = record plain { upload = take size (drop 40 body) } in
      let answer = call_host none (host c) in
      if ltb (length body) 40
      then reply fs [] einval []
      else if ltb (length body - 40) size || ltb 1048576 size
      then reply fs [] einval []
      else if not answer.done
      then reply fs (c ∷ []) eio []
      else if not (answer.status == 0)
      then reply fs (c ∷ []) answer.status []
      else if not (length answer.head == 4) || ltb size (u32_at answer.head 0)
      then reply fs (c ∷ []) eio []
      else reply fs (c ∷ []) 0 (le32 (u32_at answer.head 0) ++ le32 0)

  -- do_fsync, with handle_call.
  unfoldable pub do_fsync : DropFs → List ℕ → Outcome
  do_fsync fs body =
      let c = plain_call 11 (take 8 body) in
      let answer = call_host none (host c) in
      if ltb (length body) 16
      then reply fs [] einval []
      else if not answer.done
      then reply fs (c ∷ []) eio []
      else reply fs (c ∷ []) answer.status []

  -- do_flush
  unfoldable pub do_flush : DropFs → List ℕ → Outcome
  do_flush fs body =
      if ltb (length body) 24
      then reply fs [] einval []
      else reply fs (plain_call 12 (le64 (u64_at body 0) ++ le64 (u64_at body 16)) ∷ []) 0 []

  -- The request of do_lock: GETLK is 31 and SETLKW 33.
  abbrev pub lock_call : ℕ → List ℕ → HostCall
  lock_call opcode body =
      let flags = (if has_bit (u32_at body 40) 0 then 1 else 0) + (if opcode == 33 then 2 else 0) in
      plain_call (if opcode == 31 then 13 else 14) (
        le64 (u64_at body 0)
        ++ (le64 (u64_at body 8)
            ++ (le64 (u64_at body 16)
                ++ (le64 (u64_at body 24) ++ (le32 (u32_at body 32) ++ le32 flags)))))

  -- Whether a failed call was a wait that INTERRUPT ended: there was a stream to wait on.
  abbrev pub was_interrupted : ℕ → ℕ → Bool → HostAnswer → Bool
  was_interrupted opcode unique interrupted unreachable = false
  was_interrupted opcode unique interrupted _ = (opcode == 33) && (not (unique == 0) && interrupted)

  -- do_lock; the flag says whether an INTERRUPT for this request came before or during its wait.
  unfoldable pub do_lock : Bool → DropFs → ℕ → ℕ → List ℕ → Outcome
  do_lock interrupted fs opcode unique body =
      let c = lock_call opcode body in
      let answer = call_host none (host c) in
      let head = answer.head in
      let failure = if was_interrupted opcode unique interrupted (host c) then eintr else eio in
      if ltb (length body) 48
      then reply fs [] einval []
      else if ltb 2 (u32_at body 32) || ltb (u64_at body 24) (u64_at body 16)
      then reply fs [] einval []
      else if not answer.done
      then reply fs (c ∷ []) failure []
      else if not (answer.status == 0) || not (opcode == 31)
      then reply fs (c ∷ []) answer.status []
      else if not (length head == 24)
      then reply fs (c ∷ []) eio []
      else reply fs (c ∷ []) 0 (
          le64 (u64_at head 0)
          ++ (le64 (u64_at head 8) ++ (le32 (u32_at head 16) ++ le32 (u32_at head 20))))
