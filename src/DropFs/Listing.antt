-- ===== src/DropFs/Listing.antt =====
-- Reading a directory: add_dirent and do_readdir of np_drop_fs.c. The answers of the host, page by page, are
-- a list; a page without an answer is one for which the host is unreachable.
use native_pipe.Base.{
  ℕ, zero, suc, ◌+◌, ◌-◌, ◌*◌, ◌/◌, Bool, true, false, not, ◌||◌, ◌&&◌, Option, none, some, List,
  [], ◌∷◌, ◌++◌, ltb, leb, ◌==◌, if◌then◌else◌, length, take, drop, get_or,
}
use native_pipe.Base.Bytes.{le32, u32_at, from_le16}
use native_pipe.DropFs.State.{
  DropFs, Node, DropAttr, attr_decode, attr_length, le64, u64_at, directory, link, root_id,
}
use native_pipe.DropFs.Names.{valid_token, valid_name, dot}
use native_pipe.DropFs.Table.{read_node}
use native_pipe.DropFs.Host.{
  enoent, eio, enotdir, einval, HostCall, path_call, HostAnswer, call_host, Outcome, reply,
}

abbrev pub list_max : ℕ
list_max = 1048576

abbrev pub zeros : ℕ → List ℕ
zeros zero = []
zeros (suc n) = 0 ∷ zeros n

-- add_dirent: the bytes of `struct npf_dirent` with the name, or nothing when they do not fit.
unfoldable pub add_dirent : ℕ → ℕ → ℕ → ℕ → List ℕ → Option (List ℕ)
add_dirent capacity ino offset type_code name =
    let size = (24 + length name + 7) / 8 * 8 in
    if ltb capacity size
    then none
    else some (
        le64 ino
        ++ (le64 offset
            ++ (le32 (length name)
                ++ (le32 type_code ++ (name ++ zeros (size - (24 + length name)))))))

-- What is written so far, and the position.
pub record Pages : Type 0 where
  pub out : List ℕ
  pub index : ℕ
  pub full : Bool

-- An entry at the position, in a buffer of so many bytes.
unfoldable pub put_entry : ℕ → Pages → ℕ → ℕ → List ℕ → Pages
put_entry capacity p ino type_code name =
    elim (add_dirent (capacity - length p.out) ino (p.index + 1) type_code name) [
      | none ↦ record p { full = true }
      | some bytes ↦ record p { out = p.out ++ bytes; index = p.index + 1 }
    ]

-- The loop over "." and ".."; the first number is how many are left.
unfoldable pub put_dots : ℕ → ℕ → Pages → Pages
put_dots zero capacity p = p
put_dots (suc left) capacity p =
    let name = if p.index == 0 then dot ∷ [] else dot ∷ dot ∷ [] in
    let next = put_entry capacity p root_id 4 name in
    let rest = put_dots left capacity next in if p.full || leb 2 p.index then p else rest

-- The type of an entry.
abbrev pub type_of_kind : ℕ → ℕ
type_of_kind kind = if kind == directory then 4 else if kind == link then 10 else 8

-- A decoded entry of a page: an unusable one only takes its position.
unfoldable pub put_listed : Bool → ℕ → Pages → List ℕ → Option DropAttr → Pages
put_listed root capacity p name none = record p { index = p.index + 1 }
put_listed root capacity p name (some a) =
    let usable = if root then valid_token name && (a.kind == directory) else valid_name name in
    let ino = if a.file_id == 0 then 2 else a.file_id in
    if usable
    then put_entry capacity p ino (type_of_kind a.kind) name
    else record p { index = p.index + 1 }

-- The loop over the entries of a page, with their count. Each takes 42 bytes at least, so that a round for
-- each byte is enough.
unfoldable pub put_page : ℕ → Bool → ℕ → List ℕ → Pages → ℕ → Pages × ℕ
put_page zero root capacity bytes p entries = (p, entries)
put_page (suc fuel) root capacity bytes p entries =
    let size = from_le16 (get_or bytes 0 0) (get_or bytes 1 0) in
    let name = take size (drop 2 bytes) in
    let next =
      put_listed root capacity p name (attr_decode (take attr_length (drop (2 + size) bytes))) in
    let rest =
      put_page fuel root capacity (drop (2 + size + attr_length) bytes) next (entries + 1) in
    if ltb (length bytes) 2
    then (p, entries)
    else if ltb (length bytes) (2 + size + attr_length)
    then (p, entries)
    else if next.full
    then (next, entries + 1)
    else rest

-- The request for a page.
abbrev pub list_call : Node → ℕ → HostCall
list_call n index =
    if n.id == root_id
    then path_call 2 (le32 (index - 2)) [] []
    else path_call 2 (le32 (index - 2)) n.token n.path

-- The loop over the pages. A listing that fails is the end of the root's, and an error elsewhere.
unfoldable pub put_pages : DropFs → Node → ℕ → List HostAnswer → Pages → List HostCall → Outcome
put_pages fs n capacity [] p calls =
    let c = list_call n p.index in
    if p.full
    then reply fs calls 0 p.out
    else if n.id == root_id
    then reply fs (calls ++ (c ∷ [])) 0 p.out
    else reply fs (calls ++ (c ∷ [])) eio []
put_pages fs n capacity (a ∷ answers) p calls =
    let root = n.id == root_id in
    let c = list_call n p.index in
    let answer = call_host (some list_max) a in
    let bytes = answer.data_bytes in
    let page = put_page (suc (length bytes)) root capacity bytes p 0 in
    let rest = put_pages fs n capacity answers (page.0) (calls ++ (c ∷ [])) in
    let failure = if answer.status == 0 then eio else answer.status in
    if p.full
    then reply fs calls 0 p.out
    else if not answer.done || not (answer.status == 0)
    then if root
      then reply fs (calls ++ (c ∷ [])) 0 p.out
      else reply fs (calls ++ (c ∷ [])) failure []
    else if page.1 == 0
    then reply fs (calls ++ (c ∷ [])) 0 p.out
    else rest

-- do_readdir on a node; the flag says whether there is memory for the buffers.
unfoldable pub list_node : Bool → DropFs → Node → List HostAnswer → ℕ → ℕ → Outcome
list_node allocated fs n answers offset capacity =
    let start : Pages = record { out = []; index = offset; full = false } in
    if not (n.id == root_id) && n.dead
    then reply fs [] enoent []
    else if not (n.id == root_id) && not (n.kind == directory)
    then reply fs [] enotdir []
    else if not allocated
    then reply fs [] eio []
    else put_pages fs n capacity answers (put_dots 2 capacity start) []

-- do_readdir
unfoldable pub do_readdir : Bool → DropFs → ℕ → List ℕ → List HostAnswer → Outcome
do_readdir allocated fs id body answers =
    if ltb (length body) 40 then reply fs [] einval [] else elim (read_node fs id) [
      | none ↦ reply fs [] enoent []
      | some n ↦ list_node allocated fs n answers (u64_at body 8) (u32_at body 16)
    ]
