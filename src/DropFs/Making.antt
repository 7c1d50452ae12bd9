-- ===== src/DropFs/Making.antt =====
-- The handlers that make, remove and rename paths, on a valid table.
use native_pipe.Base.{
  ℕ, ◌≡◌, Bool, true, ◌||◌, Option, none, some, List, [], ◌++◌, ltb, leb, ◌==◌, if◌then◌else◌,
  length, arith, Bool-cases, inl, inr, drop,
}
use native_pipe.Base.Bytes.{le16, le32, u32_at}
use native_pipe.DropFs.State.{Node, DropFs, attr_decode, path_max, u64_at}
use native_pipe.DropFs.Names.{valid_token}
use native_pipe.DropFs.Paths.{IsPath, IsNamed, clean}
use native_pipe.DropFs.Table.{bury}
use native_pipe.DropFs.Valid.{IsValid}
use native_pipe.DropFs.Kept.{bury-IsValid, moved-IsValid}
use native_pipe.DropFs.Host.{enoent, eio, einval, HostCall, path_call, HostAnswer, call_host, reply}
use native_pipe.DropFs.Lookup.{
  c_string, ChildPath, no_child, child, child_path, make_node, make_directory, do_mkdir, make_link,
  link_child, do_symlink, create_file, do_create, masked_mode,
}
use native_pipe.DropFs.Change.{
  remove_child, do_remove, rename_call, renamed, rename_to, rename_from, do_rename,
}
use native_pipe.DropFs.Inside.{
  IsInside, IsGood, HasIds, IsWithin, child_path-IsWithin, path_call-IsInside, reply-IsGood,
}
use native_pipe.DropFs.Handlers.{make_node-IsGood, created_file-IsGood, made-IsGood}

module _ (host : HostCall → HostAnswer) (allocated : Bool) (fs : DropFs) (v : IsValid fs)
    (room : HasIds fs) where
  refusal : (e : ℕ) → IsGood (reply fs [] e [])
  refusal e = reply-IsGood fs [] e [] v tt

  made_at :
      (opcode : ℕ) (fixed token path : List ℕ)
      → valid_token token ≡ true
      → IsNamed path
      → IsGood (make_node host allocated fs (path_call opcode fixed token path))
  made_at opcode fixed token path t (l, k) =
      let p : IsPath path = (l, inr k) in
      make_node-IsGood host allocated fs (path_call opcode fixed token path) v room t p
        (path_call-IsInside opcode fixed token path t p)

  make_directory-IsGood :
      (mode : ℕ) (c : ChildPath) → IsWithin c → IsGood (make_directory host allocated fs mode c)
  unfolding make_directory
  make_directory-IsGood mode (no_child e) h = refusal e
  make_directory-IsGood mode (child parent path rest) (t, n) =
      made_at 16 (le32 mode) parent.token path t n

  pub do_mkdir-IsGood : (id : ℕ) (body : List ℕ) → IsGood (do_mkdir host allocated fs id body)
  unfolding do_mkdir
  do_mkdir-IsGood id body =
      let mode = masked_mode (u32_at body 0) (u32_at body 4) in
      let good =
        make_directory-IsGood mode (child_path fs id (drop 8 body))
          (child_path-IsWithin fs id (drop 8 body) v) in
      elim (Bool-cases (leb (length body) 8)) [
        | inl short ↦ rw short (refusal einval)
        | inr whole ↦ rw whole good
      ]

  make_link-IsGood :
      (parent : Node) (path : List ℕ) (target : Option (List ℕ × List ℕ))
      → valid_token parent.token ≡ true
      → IsNamed path
      → IsGood (make_link host allocated fs parent path target)
  unfolding make_link
  make_link-IsGood parent path none t n = refusal einval
  make_link-IsGood parent path (some p) t n =
      let good = made_at 17 (le16 (length p.0) ++ p.0) parent.token path t n in
      elim (Bool-cases ((length p.0 == 0) || ltb path_max (length p.0))) [
        | inl wrong ↦ rw wrong (refusal einval)
        | inr fits ↦ rw fits good
      ]

  link_child-IsGood : (c : ChildPath) → IsWithin c → IsGood (link_child host allocated fs c)
  unfolding link_child
  link_child-IsGood (no_child e) h = refusal e
  link_child-IsGood (child parent path rest) (t, n) =
      make_link-IsGood parent path (c_string rest) t n

  pub do_symlink-IsGood : (id : ℕ) (body : List ℕ) → IsGood (do_symlink host allocated fs id body)
  do_symlink-IsGood id body =
      link_child-IsGood (child_path fs id body) (child_path-IsWithin fs id body v)

  create_file-IsGood :
      (flags mode : ℕ) (c : ChildPath)
      → IsWithin c
      → IsGood (create_file host allocated fs flags mode c)
  unfolding create_file
  create_file-IsGood flags mode (no_child e) h = refusal e
  create_file-IsGood flags mode (child parent path rest) (t, (l, k)) =
      let p : IsPath path = (l, inr k) in
      let c = path_call 8 (le32 flags ++ le32 mode) parent.token path in
      let inside = path_call-IsInside 8 (le32 flags ++ le32 mode) parent.token path t p in
      let answer = call_host none (host c) in
      let made =
        created_file-IsGood host allocated fs c v room t p inside (u64_at answer.head 0)
          (attr_decode (drop 8 answer.head)) in
      let lost = made-IsGood host allocated fs c v room t p inside eio [] in
      let failed = made-IsGood host allocated fs c v room t p inside answer.status [] in
      ground (arith, made, lost, failed)

  pub do_create-IsGood : (id : ℕ) (body : List ℕ) → IsGood (do_create host allocated fs id body)
  unfolding do_create
  do_create-IsGood id body =
      let mode = masked_mode (u32_at body 4) (u32_at body 8) in
      let good =
        create_file-IsGood (u32_at body 0) mode (child_path fs id (drop 16 body))
          (child_path-IsWithin fs id (drop 16 body) v) in
      elim (Bool-cases (leb (length body) 16)) [
        | inl short ↦ rw short (refusal einval)
        | inr whole ↦ rw whole good
      ]

module _ (host : HostCall → HostAnswer) (malloc : ℕ → Bool) (fs : DropFs) (v : IsValid fs) where
  refused_change : (e : ℕ) → IsGood (reply fs [] e [])
  refused_change e = reply-IsGood fs [] e [] v tt

  remove_child-IsGood :
      (opcode : ℕ) (c : ChildPath) → IsWithin c → IsGood (remove_child host malloc fs opcode c)
  unfolding remove_child
  remove_child-IsGood opcode (no_child e) h = refused_change (if e == einval then enoent else e)
  remove_child-IsGood opcode (child parent path rest) (t, (l, k)) =
      let inside = path_call-IsInside opcode [] parent.token path t (l, inr k) in
      let buried = bury-IsValid fs parent.token path v in ground (arith, inside, buried, v)

  pub do_remove-IsGood :
      (opcode id : ℕ) (body : List ℕ) → IsGood (do_remove host malloc fs opcode id body)
  do_remove-IsGood opcode id body =
      remove_child-IsGood opcode (child_path fs id body) (child_path-IsWithin fs id body v)

  renamed-IsValid :
      (token old_path new_path : List ℕ)
      → clean 0 new_path ≡ true
      → IsValid (renamed host malloc fs token old_path new_path)
  unfolding renamed
  renamed-IsValid token old_path new_path k =
      let there =
        moved-IsValid malloc (bury fs token new_path) token old_path new_path k
          (bury-IsValid fs token new_path v) in
      ground (arith, there, v)

  rename_to-IsGood :
      (flags : ℕ) (parent : Node) (old_path : List ℕ) (c : ChildPath)
      → valid_token parent.token ≡ true
      → IsNamed old_path
      → IsWithin c
      → IsGood (rename_to host malloc fs flags parent old_path c)
  unfolding rename_to
  rename_to-IsGood flags parent old_path (no_child e) t n h = refused_change e
  rename_to-IsGood flags parent old_path (child target new_path rest) t (l, k) (t', (l', k')) =
      let inside : IsInside (rename_call host malloc flags parent.token old_path new_path) =
        inl (t, ((l, inr k), (l', inr k'))) in
      let there = renamed-IsValid parent.token old_path new_path k' in
      ground (arith, inside, there, v)

  rename_from-IsGood :
      (flags newdir : ℕ) (c : ChildPath)
      → IsWithin c
      → IsGood (rename_from host malloc fs flags newdir c)
  unfolding rename_from
  rename_from-IsGood flags newdir (no_child e) h = refused_change e
  rename_from-IsGood flags newdir (child parent old_path rest) (t, n) =
      rename_to-IsGood flags parent old_path (child_path fs newdir rest) t n
        (child_path-IsWithin fs newdir rest v)

  pub do_rename-IsGood :
      (id : ℕ) (body : List ℕ) (with_flags : Bool)
      → IsGood (do_rename host malloc fs id body with_flags)
  unfolding do_rename
  do_rename-IsGood id body with_flags =
      let fixed = if with_flags then 16 else 8 in
      let flags = if with_flags then u32_at body 8 else 0 in
      let good =
        rename_from-IsGood flags (u64_at body 0) (child_path fs id (drop fixed body))
          (child_path-IsWithin fs id (drop fixed body) v) in
      elim (Bool-cases (leb (length body) fixed)) [
        | inl short ↦ rw short (refused_change einval)
        | inr whole ↦ rw whole good
      ]
