-- ===== src/DropFs/Dispatch.antt =====
-- np_drop_fs_handle: one request of the kernel. What is outside of it stands in one record.
use native_pipe.Base.{
  ℕ, ◌+◌, ◌-◌, ◌%◌, ◌^◌, Bool, true, false, not, ◌||◌, Option, none, some, List, [], ◌++◌, ltb,
  ◌==◌, if◌then◌else◌, length, drop,
}
use native_pipe.Base.Bytes.{le32, u32_at}
use native_pipe.DropFs.State.{DropFs, le64, u64_at}
use native_pipe.DropFs.Host.{eperm, HostCall, HostAnswer, Outcome, reply}
use native_pipe.DropFs.Lookup.{do_lookup, do_mkdir, do_symlink, do_create}
use native_pipe.DropFs.Change.{
  do_remove, do_rename, do_forget, do_batch_forget, do_interrupt, do_destroy,
}
use native_pipe.DropFs.Attributes.{
  do_init, do_statfs, do_opendir, do_getattr, do_setattr, do_readlink,
}
use native_pipe.DropFs.OpenFiles.{
  do_open, do_read, do_release, do_write, do_fsync, do_flush, do_lock,
}
use native_pipe.DropFs.Listing.{do_readdir}

-- How the host answers a call and the pages of a listing; whether there is memory for a node or a buffer,
-- and, by a node's identifier, for its new path; whether an INTERRUPT for the request came before or during its wait.
pub record Outside : Type 0 where
  pub host : HostCall → HostAnswer
  pub pages : List HostAnswer
  pub allocated : Bool
  pub malloc : ℕ → Bool
  pub interrupted : Bool

-- What np_drop_fs_handle does: it refuses a malformed request, or leaves an outcome, with a reply or not.
pub data Handled : Type 0 where
  malformed : Handled
  silent : DropFs → Handled
  replied : Outcome → Handled

abbrev pub enosys : ℕ
enosys = 38

abbrev pub eopnotsupp : ℕ
eopnotsupp = 95

-- The requests about names.
unfoldable pub handle_names : Outside → DropFs → ℕ → ℕ → List ℕ → Option Outcome
handle_names w fs opcode id body =
    if opcode == 1
    then some (do_lookup w.host w.allocated fs id body)
    else if opcode == 35
    then some (do_create w.host w.allocated fs id body)
    else if opcode == 9
    then some (do_mkdir w.host w.allocated fs id body)
    else if opcode == 6
    then some (do_symlink w.host w.allocated fs id body)
    else if opcode == 10
    then some (do_remove w.host w.malloc fs 9 id body)
    else if opcode == 11
    then some (do_remove w.host w.malloc fs 15 id body)
    else if opcode == 12
    then some (do_rename w.host w.malloc fs id body false)
    else if opcode == 45
    then some (do_rename w.host w.malloc fs id body true)
    else none

-- The requests about attributes and open files.
unfoldable pub handle_files : Outside → DropFs → ℕ → ℕ → ℕ → List ℕ → Outcome
handle_files w fs opcode unique id body =
    if opcode == 26
    then do_init fs body
    else if opcode == 3
    then do_getattr w.host fs id body
    else if opcode == 4
    then do_setattr w.host fs id body
    else if opcode == 5
    then do_readlink w.host fs id
    else if opcode == 16
    then do_write w.host fs body
    else if opcode == 20
    then do_fsync w.host fs body
    else if opcode == 25
    then do_flush w.host fs body
    else if (opcode == 31) || ((opcode == 32) || (opcode == 33))
    then do_lock w.host w.interrupted fs opcode unique body
    else if opcode == 14
    then do_open w.host fs id body
    else if opcode == 15
    then do_read w.host w.allocated fs body
    else if opcode == 18
    then do_release w.host fs body
    else if opcode == 27
    then do_opendir fs id
    else if opcode == 28
    then do_readdir w.allocated fs id body w.pages
    else if (opcode == 29) || (opcode == 30)
    then reply fs [] 0 []
    else if opcode == 17
    then do_statfs fs
    else if (opcode == 8) || ((opcode == 13) || (opcode == 51))
    then reply fs [] eperm []
    else if opcode == 43
    then reply fs [] eopnotsupp []
    else reply fs [] enosys []

-- The requests without a reply, and DESTROY.
unfoldable pub handle_table : DropFs → ℕ → ℕ → List ℕ → Option Handled
handle_table fs opcode id body =
    if opcode == 38
    then some (replied (reply (do_destroy fs) [] 0 []))
    else if opcode == 2
    then some (silent (do_forget fs id body))
    else if opcode == 42
    then some (silent (do_batch_forget fs body))
    else if opcode == 36
    then some (silent (do_interrupt fs body))
    else none

-- The switch of np_drop_fs_handle.
unfoldable pub switch : Outside → DropFs → ℕ → ℕ → ℕ → List ℕ → Handled
switch w fs opcode unique id body = elim (handle_table fs opcode id body) [
  | some h ↦ h
  | none ↦ elim (handle_names w fs opcode id body) [
    | some o ↦ replied o
    | none ↦ replied (handle_files w fs opcode unique id body)
  ]
]

-- np_drop_fs_handle: `struct npf_in_header` has 40 bytes and the length of the request.
unfoldable pub handle : Outside → DropFs → List ℕ → Handled
handle w fs request =
    if ltb (length request) 40
    then malformed
    else if not (u32_at request 0 == length request)
    then malformed
    else switch w fs (u32_at request 4) (u64_at request 8) (u64_at request 16) (drop 40 request)

-- The bytes that reply sends: `struct npf_out_header` and the body.
abbrev pub reply_bytes : ℕ → Outcome → List ℕ
reply_bytes unique o =
    le32 (16 + length o.body) ++ (le32 ((2 ^ 32 - o.error) % 2 ^ 32) ++ (le64 unique ++ o.body))
