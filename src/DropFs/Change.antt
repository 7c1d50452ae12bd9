-- ===== src/DropFs/Change.antt =====
-- Removing and renaming: do_remove and do_rename of np_drop_fs.c, and FORGET, BATCH_FORGET, INTERRUPT and
-- DESTROY of np_drop_fs_handle. `host` gives the answer of each call, `malloc` whether a node, by its
-- identifier, gets memory for its new path.
use native_pipe.Base.{
  ℕ, zero, suc, Bool, true, not, ◌||◌, ◌&&◌, none, List, [], ◌∷◌, ◌++◌, ltb, leb, ◌==◌,
  if◌then◌else◌, length, drop,
}
use native_pipe.Base.Bytes.{le16, le32, u32_at}
use native_pipe.DropFs.State.{DropFs, Node, u64_at}
use native_pipe.DropFs.Names.{same, under}
use native_pipe.DropFs.Table.{forget, bury, moved, interrupt}
use native_pipe.DropFs.Host.{
  enoent, eio, exdev, einval, HostCall, path_call, HostAnswer, call_host, Outcome, reply,
}
use native_pipe.DropFs.Lookup.{ChildPath, no_child, child, child_path}

module _ (host : HostCall → HostAnswer) (malloc : ℕ → Bool) where
  -- do_remove with the path; the opcode is that of UNLINK or RMDIR.
  unfoldable pub remove_child : DropFs → ℕ → ChildPath → Outcome
  remove_child fs opcode (no_child e) = reply fs [] (if e == einval then enoent else e) []
  remove_child fs opcode (child parent path rest) =
      let c = path_call opcode [] parent.token path in
      let answer = call_host none (host c) in
      if not answer.done
      then reply fs (c ∷ []) eio []
      else if answer.status == 0
      then reply (bury fs parent.token path) (c ∷ []) 0 []
      else reply fs (c ∷ []) answer.status []

  abbrev pub do_remove : DropFs → ℕ → ℕ → List ℕ → Outcome
  do_remove fs opcode id body = remove_child fs opcode (child_path fs id body)

  abbrev pub rename_call : ℕ → List ℕ → List ℕ → List ℕ → HostCall
  rename_call flags token old_path new_path = record {
    opcode = 10;
    fixed = le32 flags ++ le16 (length old_path);
    token = token;
    path = old_path;
    second = new_path;
    upload = [];
  }

  -- The table after a rename that the host has done.
  unfoldable pub renamed : DropFs → List ℕ → List ℕ → List ℕ → DropFs
  renamed fs token old_path new_path =
      if same old_path new_path
      then fs
      else moved malloc (bury fs token new_path) token old_path new_path

  -- do_rename with both paths.
  unfoldable pub rename_to : DropFs → ℕ → Node → List ℕ → ChildPath → Outcome
  rename_to fs flags parent old_path (no_child e) = reply fs [] e []
  rename_to fs flags parent old_path (child target new_path rest) =
      let c = rename_call flags parent.token old_path new_path in
      let answer = call_host none (host c) in
      if not (same parent.token target.token)
      then reply fs [] exdev []
      else if not ((flags == 0) || (flags == 1))
      then reply fs [] einval []
      else if under new_path old_path && not (same new_path old_path)
      then reply fs [] einval []
      else if not answer.done
      then reply fs (c ∷ []) eio []
      else if answer.status == 0
      then reply (renamed fs parent.token old_path new_path) (c ∷ []) 0 []
      else reply fs (c ∷ []) answer.status []

  unfoldable pub rename_from : DropFs → ℕ → ℕ → ChildPath → Outcome
  rename_from fs flags newdir (no_child e) = reply fs [] e []
  rename_from fs flags newdir (child parent old_path rest) =
      rename_to fs flags parent old_path (child_path fs newdir rest)

  -- do_rename
  unfoldable pub do_rename : DropFs → ℕ → List ℕ → Bool → Outcome
  do_rename fs id body with_flags =
      let fixed = if with_flags then 16 else 8 in
      let flags = if with_flags then u32_at body 8 else 0 in
      if leb (length body) fixed
      then reply fs [] einval []
      else rename_from fs flags (u64_at body 0) (child_path fs id (drop fixed body))

-- FORGET
unfoldable pub do_forget : DropFs → ℕ → List ℕ → DropFs
do_forget fs id body = if ltb (length body) 8 then fs else forget fs id (u64_at body 0)

-- The loop of BATCH_FORGET on what follows its head.
unfoldable pub forget_each : ℕ → DropFs → List ℕ → DropFs
forget_each zero fs body = fs
forget_each (suc count) fs body =
    let rest = forget_each count (forget fs (u64_at body 0) (u64_at body 8)) (drop 16 body) in
    if ltb (length body) 16 then fs else rest

-- BATCH_FORGET
unfoldable pub do_batch_forget : DropFs → List ℕ → DropFs
do_batch_forget fs body =
    if ltb (length body) 8 then fs else forget_each (u32_at body 0) fs (drop 8 body)

-- INTERRUPT
unfoldable pub do_interrupt : DropFs → List ℕ → DropFs
do_interrupt fs body = if ltb (length body) 8 then fs else interrupt fs (u64_at body 0)

-- DESTROY
abbrev pub do_destroy : DropFs → DropFs
do_destroy fs = record fs { destroyed = true }
