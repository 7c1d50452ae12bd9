-- ===== src/DropFs/State.antt =====
-- The nodes of np_drop_fs.c and the attributes on the wire. A C string is the list of its bytes, without
-- the final 0.
use native_pipe.Base.{
  ℕ, ◌+◌, ◌*◌, ◌/◌, ◌%◌, ◌^◌, Bool, false, ◌||◌, Option, none, some, List, [], ◌∷◌, ◌++◌, ltb,
  if◌then◌else◌, length, get_or,
}
use native_pipe.Base.Bytes.{le32, u32_at}

abbrev pub token_length : ℕ
token_length = 36

abbrev pub name_max : ℕ
name_max = 255

abbrev pub path_max : ℕ
path_max = 4095

abbrev pub attr_length : ℕ
attr_length = 40

abbrev pub root_id : ℕ
root_id = 1

abbrev pub slots : ℕ
slots = 16

-- `enum np_drop_kind`
abbrev pub directory : ℕ
directory = 1

abbrev pub file : ℕ
file = 2

abbrev pub link : ℕ
link = 3

-- `struct node`
pub record Node : Type 0 where
  pub id : ℕ
  pub lookups : ℕ
  pub kind : ℕ
  pub dead : Bool
  pub token : List ℕ
  pub path : List ℕ

-- An element of `waits`; a stream that is cancelled stays so.
pub record Waiter : Type 0 where
  pub unique : ℕ
  pub interrupted : Bool

-- `struct np_drop_fs`. The session and the count of its users are left to the calls of the host.
pub record DropFs : Type 0 where
  pub nodes : List Node
  pub next_id : ℕ
  pub waits : List Waiter
  pub interrupts : ℕ → ℕ
  pub next_interrupt : ℕ
  pub owner : ℕ
  pub group : ℕ
  pub destroyed : Bool

-- np_drop_fs_create
abbrev pub new_drop_fs : ℕ → ℕ → DropFs
new_drop_fs owner group = record {
  nodes = [];
  next_id = root_id + 1;
  waits = [];
  interrupts = λ i. 0;
  next_interrupt = 0;
  owner = owner;
  group = group;
  destroyed = false;
}

-- np_file_put64 and np_file_u64
abbrev pub le64 : ℕ → List ℕ
le64 n = le32 (n % 2 ^ 32) ++ le32 (n / 2 ^ 32 % 2 ^ 32)

abbrev pub u64_at : List ℕ → ℕ → ℕ
u64_at bs i = u32_at bs i + u32_at bs (i + 4) * 2 ^ 32

-- `struct np_drop_attr`; the seconds as the 64 bits that they have on the wire.
pub record DropAttr : Type 0 where
  pub kind : ℕ
  pub mode : ℕ
  pub size : ℕ
  pub mtime_seconds : ℕ
  pub mtime_nanoseconds : ℕ
  pub file_id : ℕ

-- np_drop_attr_encode
unfoldable pub attr_encode : DropAttr → List ℕ
attr_encode a =
    (a.kind ∷ 0 ∷ 0 ∷ 0 ∷ [])
    ++ (le32 a.mode
        ++ (le64 a.size
            ++ (le64 a.mtime_seconds ++ (le32 a.mtime_nanoseconds ++ (le32 0 ++ le64 a.file_id)))))

-- np_drop_attr_decode
unfoldable pub attr_decode : List ℕ → Option DropAttr
attr_decode bytes =
    if ltb (length bytes) attr_length
      || (ltb (get_or bytes 0 0) directory
          || (ltb link (get_or bytes 0 0) || ltb 999999999 (u32_at bytes 24)))
    then none
    else some (record {
      kind = get_or bytes 0 0;
      mode = u32_at bytes 4 % 4096;
      size = u64_at bytes 8;
      mtime_seconds = u64_at bytes 16;
      mtime_nanoseconds = u32_at bytes 24;
      file_id = u64_at bytes 32;
    })
