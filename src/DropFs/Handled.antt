-- ===== src/DropFs/Handled.antt =====
-- np_drop_fs_handle on a valid table.
use native_pipe.Base.{
  ℕ, zero, suc, Bool, true, false, ◌||◌, Option, none, some, List, [], ltb, ◌==◌, if◌then◌else◌,
  length, arith, Bool-cases, inl, inr, drop,
}
use native_pipe.Base.Bytes.{u32_at}
use native_pipe.DropFs.State.{DropFs, u64_at}
use native_pipe.DropFs.Table.{forget, interrupt}
use native_pipe.DropFs.Valid.{IsValid}
use native_pipe.DropFs.Kept.{forget-IsValid}
use native_pipe.DropFs.Host.{eperm, Outcome, reply}
use native_pipe.DropFs.Change.{do_forget, forget_each, do_batch_forget, do_interrupt, do_destroy}
use native_pipe.DropFs.Attributes.{do_init, do_statfs}
use native_pipe.DropFs.Dispatch.{
  Outside, Handled, malformed, silent, replied, handle_names, handle_files, handle_table, switch,
  handle,
}
use native_pipe.DropFs.Inside.{IsGood, HasIds, reply-IsGood}
use native_pipe.DropFs.Handlers.{do_lookup-IsGood}
use native_pipe.DropFs.Making.{
  do_mkdir-IsGood, do_symlink-IsGood, do_create-IsGood, do_remove-IsGood, do_rename-IsGood,
}
use native_pipe.DropFs.Reading.{
  refused-IsGood, do_opendir-IsGood, do_getattr-IsGood, do_setattr-IsGood, do_readlink-IsGood,
  do_open-IsGood, do_read-IsGood, do_release-IsGood, do_write-IsGood, do_fsync-IsGood,
  do_flush-IsGood, do_lock-IsGood,
}
use native_pipe.DropFs.Listed.{do_readdir-IsGood}

do_forget-IsValid :
    (fs : DropFs) (id : ℕ) (body : List ℕ) → IsValid fs → IsValid (do_forget fs id body)
unfolding do_forget
do_forget-IsValid fs id body v =
    let left = forget-IsValid fs id (u64_at body 0) v in ground (arith, left, v)

forget_each-IsValid :
    (count : ℕ) (fs : DropFs) (body : List ℕ) → IsValid fs → IsValid (forget_each count fs body)
unfolding forget_each
forget_each-IsValid zero fs body v = v
forget_each-IsValid (suc count) fs body v =
    let left = forget-IsValid fs (u64_at body 0) (u64_at body 8) v in
    let rest =
      forget_each-IsValid count (forget fs (u64_at body 0) (u64_at body 8)) (drop 16 body) left in
    elim (Bool-cases (ltb (length body) 16)) [ inl short ↦ rw short v | inr more ↦ rw more rest ]

do_batch_forget-IsValid :
    (fs : DropFs) (body : List ℕ) → IsValid fs → IsValid (do_batch_forget fs body)
unfolding do_batch_forget
do_batch_forget-IsValid fs body v =
    let rest = forget_each-IsValid (u32_at body 0) fs (drop 8 body) v in
    elim (Bool-cases (ltb (length body) 8)) [ inl short ↦ rw short v | inr more ↦ rw more rest ]

do_interrupt-IsValid : (fs : DropFs) (body : List ℕ) → IsValid fs → IsValid (do_interrupt fs body)
unfolding do_interrupt interrupt
do_interrupt-IsValid fs body v = ground (arith, v)

-- What a request leaves is a valid table, and its calls of the host are inside drops.
abbrev pub IsSafe : Handled → Type 0
IsSafe malformed = Unit {0}
IsSafe (silent fs) = IsValid fs
IsSafe (replied o) = IsGood o

abbrev IsSafeTable : Option Handled → Type 0
IsSafeTable none = Unit {0}
IsSafeTable (some h) = IsSafe h

abbrev IsSafeNames : Option Outcome → Type 0
IsSafeNames none = Unit {0}
IsSafeNames (some o) = IsGood o

module _ (w : Outside) (fs : DropFs) (v : IsValid fs) where
  handle_table-IsSafe :
      (opcode id : ℕ) (body : List ℕ) → IsSafeTable (handle_table fs opcode id body)
  unfolding handle_table
  handle_table-IsSafe opcode id body =
      let destroyed =
        reply-IsGood (do_destroy fs) [] 0 []
          (record { each = v.each; apart = v.apart; next = v.next }) tt in
      ground (
        arith,
        destroyed,
        do_forget-IsValid fs id body v,
        do_batch_forget-IsValid fs body v,
        do_interrupt-IsValid fs body v,
      )

  handle_names-IsSafe :
      (opcode id : ℕ) (body : List ℕ) → HasIds fs → IsSafeNames (handle_names w fs opcode id body)
  unfolding handle_names
  handle_names-IsSafe opcode id body room = ground (
    arith,
    do_lookup-IsGood w.host w.allocated fs id body v room,
    do_create-IsGood w.host w.allocated fs v room id body,
    do_mkdir-IsGood w.host w.allocated fs v room id body,
    do_symlink-IsGood w.host w.allocated fs v room id body,
    do_remove-IsGood w.host w.malloc fs v 9 id body,
    do_remove-IsGood w.host w.malloc fs v 15 id body,
    do_rename-IsGood w.host w.malloc fs v id body false,
    do_rename-IsGood w.host w.malloc fs v id body true,
  )

  either : (b : Bool) (x y : Outcome) → IsGood x → IsGood y → IsGood (if b then x else y)
  either true x y h k = h
  either false x y h k = k

  do_init-IsGood : (body : List ℕ) → IsGood (do_init fs body)
  unfolding do_init
  do_init-IsGood body = ground (arith, v)

  handle_files-IsGood :
      (opcode unique id : ℕ) (body : List ℕ) → IsGood (handle_files w fs opcode unique id body)
  unfolding handle_files
  handle_files-IsGood opcode unique id body =
      let plain = refused-IsGood fs v in
      either (opcode == 26) _ _ (do_init-IsGood body) (
        either (opcode == 3) _ _ (do_getattr-IsGood fs v w.host id body) (
          either (opcode == 4) _ _ (do_setattr-IsGood fs v w.host id body) (
            either (opcode == 5) _ _ (do_readlink-IsGood fs v w.host id) (
              either (opcode == 16) _ _ (do_write-IsGood fs v w.host body) (
                either (opcode == 20) _ _ (do_fsync-IsGood fs v w.host body) (
                  either (opcode == 25) _ _ (do_flush-IsGood fs v w.host body) (
                    either ((opcode == 31) || ((opcode == 32) || (opcode == 33))) _ _
                      (do_lock-IsGood fs v w.host w.interrupted opcode unique body)
                      (either (opcode == 14) _ _ (do_open-IsGood fs v w.host id body) (
                        either (opcode == 15) _ _ (do_read-IsGood fs v w.host w.allocated body) (
                          either (opcode == 18) _ _ (do_release-IsGood fs v w.host body) (
                            either (opcode == 27) _ _ (do_opendir-IsGood fs v id) (
                              either (opcode == 28) _ _
                                (do_readdir-IsGood fs v w.allocated id body w.pages)
                                (either ((opcode == 29) || (opcode == 30)) (reply fs [] 0 []) _
                                  (plain 0 [])
                                  (either (opcode == 17) (do_statfs fs) _
                                    ((plain 0 ((do_statfs fs).body)))
                                    (either ((opcode == 8) || ((opcode == 13) || (opcode == 51)))
                                      (reply fs [] eperm []) _ (plain eperm [])
                                      (either (opcode == 43) (reply fs [] 95 []) _ (plain 95 [])
                                        (plain 38 [])))))))))))))))))

  switch-IsSafe :
      (opcode unique id : ℕ) (body : List ℕ)
      → HasIds fs
      → IsSafe (switch w fs opcode unique id body)
  unfolding switch
  switch-IsSafe opcode unique id body room =
      choose (handle_table fs opcode id body) (handle_names w fs opcode id body)
        (handle_table-IsSafe opcode id body) (handle_names-IsSafe opcode id body room)
    where
      choose :
          (t : Option Handled) (o : Option Outcome)
          → IsSafeTable t
          → IsSafeNames o
          → IsSafe (elim t [
            | some h ↦ h
            | none ↦ elim o [
              | some out ↦ replied out
              | none ↦ replied (handle_files w fs opcode unique id body)
            ]
          ])
      choose (some h) o s n = s
      choose none (some out) s n = n
      choose none none s n = handle_files-IsGood opcode unique id body

  -- Whatever the request of the kernel and whatever the host answers, as long as an identifier is left: a
  -- valid table stays valid (every identifier is above that of the root and no two nodes have the same; every
  -- node has a token of the right form and a path of at most 4095 bytes without an empty component, "." or
  -- ".."), and every call of the host that the request leads to names such a token and such paths, or none.
  pub handle-IsSafe : (request : List ℕ) → HasIds fs → IsSafe (handle w fs request)
  unfolding handle
  handle-IsSafe request room =
      let body = drop 40 request in
      let safe =
        switch-IsSafe (u32_at request 4) (u64_at request 8) (u64_at request 16) body room in
      elim (Bool-cases (ltb (length request) 40)) [
        | inl short ↦ rw short tt
        | inr long ↦ elim (Bool-cases (u32_at request 0 == length request)) [
          | inl exact ↦ rw (long, exact) safe
          | inr wrong ↦ rw (long, wrong) tt
        ]
      ]
