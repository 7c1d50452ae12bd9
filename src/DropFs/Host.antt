-- ===== src/DropFs/Host.antt =====
-- Calls of the host and replies to the kernel: call_host_full, path_body, host_lookup, host_setattr,
-- fill_attr and reply of np_drop_fs.c. The host's side of a stream is what np_file2_receive gives.
use native_pipe.Base.{
  ℕ, ◌+◌, ◌-◌, ◌/◌, ◌%◌, ◌^◌, Bool, true, false, not, ◌&&◌, Option, none, some, List, [], ◌∷◌, ◌++◌,
  ltb, ◌==◌, if◌then◌else◌, length,
}
use native_pipe.Base.Bytes.{le32}
use native_pipe.DropFs.State.{DropFs, DropAttr, attr_decode, attr_length, le64, directory, link}

-- The codes of `enum np_drop_status` that the handlers use.
abbrev pub eperm : ℕ
eperm = 1

abbrev pub enoent : ℕ
enoent = 2

abbrev pub eio : ℕ
eio = 5

abbrev pub exdev : ℕ
exdev = 18

abbrev pub enotdir : ℕ
enotdir = 20

abbrev pub einval : ℕ
einval = 22

abbrev pub enametoolong : ℕ
enametoolong = 36

-- A request to the host: its body is the fixed part, the token, the path and, for a rename, a second path;
-- `upload` follows as DATA.
pub record HostCall : Type 0 where
  pub opcode : ℕ
  pub fixed : List ℕ
  pub token : List ℕ
  pub path : List ℕ
  pub second : List ℕ
  pub upload : List ℕ

-- path_body and what stands before it.
abbrev pub call_body : HostCall → List ℕ
call_body c = c.fixed ++ (c.token ++ (c.path ++ c.second))

abbrev pub path_call : ℕ → List ℕ → List ℕ → List ℕ → HostCall
path_call opcode fixed token path = record {
  opcode = opcode;
  fixed = fixed;
  token = token;
  path = path;
  second = [];
  upload = [];
}

-- What comes of a call: no session or no stream; a stream whose first message is not a response; or the
-- response with its status and bytes, the messages after it, and whether the stream then ends well.
pub data HostAnswer : Type 0 where
  unreachable : HostAnswer
  no_response : HostAnswer
  responded : ℕ → List ℕ → List (List ℕ) → Bool → HostAnswer

-- `struct call` with the result of call_host.
pub record Call : Type 0 where
  pub done : Bool
  pub status : ℕ
  pub head : List ℕ
  pub data_bytes : List ℕ

-- The loop that receives DATA; without memory for it (`none`) no DATA may come.
abbrev pub collect : Option ℕ → List (List ℕ) → List ℕ → Bool × List ℕ
collect capacity [] got = (true, got)
collect none (b ∷ bs) got = (false, got)
collect (some capacity) (b ∷ bs) got =
    let rest = collect (some capacity) bs (got ++ b) in
    if ltb (capacity - length got) (length b) then (false, got) else rest

-- call_host_full on a `struct call` that is all zero.
unfoldable pub call_host : Option ℕ → HostAnswer → Call
call_host capacity unreachable = record { done = false; status = 0; head = []; data_bytes = [] }
call_host capacity no_response = record { done = false; status = 0; head = []; data_bytes = [] }
call_host capacity (responded status head bodies ends) =
    let got = collect capacity bodies [] in
    if ltb (8 + attr_length) (length head)
    then record { done = false; status = 0; head = []; data_bytes = [] }
    else record { done = got.0 && ends; status = status; head = head; data_bytes = got.1 }

-- What host_lookup gives: a Linux errno, or the attributes.
pub data HostAttr : Type 0 where
  refused : ℕ → HostAttr
  attr_of : DropAttr → HostAttr

abbrev pub attr_result : Option DropAttr → HostAttr
attr_result none = refused eio
attr_result (some a) = attr_of a

-- What host_lookup and host_setattr read in an answer.
unfoldable pub answered_attr : HostAnswer → HostAttr
answered_attr answer =
    let c = call_host none answer in
    if not c.done
    then refused eio
    else if not (c.status == 0)
    then refused c.status
    else attr_result (attr_decode c.head)

abbrev pub root_checked : List ℕ → HostAttr → HostAttr
root_checked [] (attr_of a) = if a.kind == directory then attr_of a else refused eio
root_checked _ r = r

-- host_lookup
abbrev pub lookup_call : List ℕ → List ℕ → HostCall
lookup_call token path = path_call 1 [] token path

unfoldable pub host_lookup : List ℕ → HostAnswer → HostAttr
host_lookup path answer = root_checked path (answered_attr answer)

-- fill_attr: `struct npf_attr`.
unfoldable pub fill_attr : DropFs → ℕ → DropAttr → List ℕ
fill_attr fs ino a =
    let size = if a.kind == directory then 0 else a.size in
    let kind_bits =
      if a.kind == directory then 16384 else if a.kind == link then 40960 else 32768 in
    let mode = kind_bits + (if a.kind == link then 511 else a.mode % 4096) in
    let links = if a.kind == directory then 2 else 1 in
    le64 ino
    ++ (le64 size
        ++ (le64 ((size + 511) % 2 ^ 64 / 512)
            ++ (le64 a.mtime_seconds
                ++ (le64 a.mtime_seconds
                    ++ (le64 a.mtime_seconds
                        ++ (le32 a.mtime_nanoseconds
                            ++ (le32 a.mtime_nanoseconds
                                ++ (le32 a.mtime_nanoseconds
                                    ++ (le32 mode
                                        ++ (le32 links
                                            ++ (le32 fs.owner
                                                ++ (le32 fs.group
                                                    ++ (le32 0 ++ (le32 4096 ++ le32 0))))))))))))))

-- What a handler leaves: the table, the calls of the host that it made, and the reply.
pub record Outcome : Type 0 where
  pub fs : DropFs
  pub calls : List HostCall
  pub error : ℕ
  pub body : List ℕ

-- REPLY and reply: an error has no body.
abbrev pub reply : DropFs → List HostCall → ℕ → List ℕ → Outcome
reply fs calls error body = record {
  fs = fs;
  calls = calls;
  error = error;
  body = if error == 0 then body else [];
}

-- reply_entry: `struct npf_entry_out`.
abbrev pub entry_body : DropFs → ℕ → DropAttr → List ℕ
entry_body fs id a =
    le64 id ++ (le64 1 ++ (le64 0 ++ (le64 0 ++ (le32 0 ++ (le32 0 ++ fill_attr fs id a)))))
