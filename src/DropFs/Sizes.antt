-- ===== src/DropFs/Sizes.antt =====
-- The sizes of replies with data.
use native_pipe.Base.{
  ℕ, zero, suc, ◌+◌, ◌-◌, ◌*◌, ◌/◌, ◌≤◌, ◌≡◌, refl, Bool, false, Option, none, some, List, [], ◌∷◌,
  ◌++◌, ltb, ◌==◌, if◌then◌else◌, length, length-append, arith, Bool-cases, inl, inr, Option-cases,
  take, drop, get_or,
}
use native_pipe.Base.Bytes.{le32, u32_at, from_le16}
use native_pipe.DropFs.State.{
  DropFs, Node, DropAttr, attr_decode, attr_length, le64, u64_at, root_id,
}
use native_pipe.DropFs.Names.{dot}
use native_pipe.DropFs.Table.{read_node}
use native_pipe.DropFs.Host.{
  HostCall, path_call, HostAnswer, unreachable, no_response, responded, collect, call_host,
}
use native_pipe.DropFs.Attributes.{data_reply}
use native_pipe.DropFs.OpenFiles.{do_read}
use native_pipe.DropFs.Listing.{
  zeros, add_dirent, Pages, put_entry, put_dots, put_listed, put_page, list_call, list_max,
  put_pages, list_node, do_readdir, type_of_kind,
}

length-zeros : (n : ℕ) → length (zeros n) ≡ n
length-zeros zero = refl
length-zeros (suc n) = omega (arith, length-zeros n)

add_dirent-length :
    (capacity ino offset type_code : ℕ) (name : List ℕ) {bytes : List ℕ}
    → add_dirent capacity ino offset type_code name ≡ some bytes
    → length bytes ≤ capacity
unfolding add_dirent
add_dirent-length capacity ino offset type_code name {bytes} e =
    let size = (24 + length name + 7) / 8 * 8 in
    let pad = size - (24 + length name) in
    let body = length-append name (zeros pad) in
    let tail = length-zeros pad in ground (arith, body, tail, e)

module _ (capacity : ℕ) where
  abbrev HasRoom : Pages → Type 0
  HasRoom p = length p.out ≤ capacity

  put_entry-HasRoom :
      (p : Pages) (ino type_code : ℕ) (name : List ℕ)
      → HasRoom p
      → HasRoom (put_entry capacity p ino type_code name)
  unfolding put_entry
  put_entry-HasRoom p ino type_code name h =
      elim (Option-cases (add_dirent (capacity - length p.out) ino (p.index + 1) type_code name)) [
        | inl nothing ↦ rw (put_entry, nothing) h
        | inr (bytes, e) ↦
            let small =
              add_dirent-length (capacity - length p.out) ino (p.index + 1) type_code name
                {bytes = bytes} e in
            rw (put_entry, e) (omega (arith, length-append p.out bytes, small, h))
      ]

  put_dots-HasRoom : (left : ℕ) (p : Pages) → HasRoom p → HasRoom (put_dots left capacity p)
  unfolding put_dots
  put_dots-HasRoom zero p h = h
  put_dots-HasRoom (suc left) p h =
      let name = if p.index == 0 then dot ∷ [] else dot ∷ dot ∷ [] in
      let next = put_entry-HasRoom p root_id 4 name h in
      ground (arith, h, put_dots-HasRoom left (put_entry capacity p root_id 4 name) next)

  put_listed-HasRoom :
      (root : Bool) (p : Pages) (name : List ℕ) (a : Option DropAttr)
      → HasRoom p
      → HasRoom (put_listed root capacity p name a)
  unfolding put_listed
  put_listed-HasRoom root p name none h = h
  put_listed-HasRoom root p name (some a) h =
      let ino = if a.file_id == 0 then 2 else a.file_id in
      ground (arith, h, put_entry-HasRoom p ino (type_of_kind a.kind) name h)

  put_page-HasRoom :
      (fuel : ℕ) (root : Bool) (bytes : List ℕ) (p : Pages) (entries : ℕ)
      → HasRoom p
      → HasRoom (put_page fuel root capacity bytes p entries).0
  unfolding put_page
  put_page-HasRoom zero root bytes p entries h = h
  put_page-HasRoom (suc fuel) root bytes p entries h =
      let size = from_le16 (get_or bytes 0 0) (get_or bytes 1 0) in
      let name = take size (drop 2 bytes) in
      let entry = attr_decode (take attr_length (drop (2 + size) bytes)) in
      let next = put_listed root capacity p name entry in
      let kept = put_listed-HasRoom root p name entry h in
      let rest =
        put_page-HasRoom fuel root (drop (2 + size + attr_length) bytes) next (entries + 1) kept in
      ground (arith, h, kept, rest)

  put_pages-HasRoom :
      (fs : DropFs) (n : Node) (answers : List HostAnswer) (p : Pages) (calls : List HostCall)
      → HasRoom p
      → length (put_pages fs n capacity answers p calls).body ≤ capacity
  unfolding put_pages
  put_pages-HasRoom fs n [] p calls h = ground (arith, h)
  put_pages-HasRoom fs n (a ∷ answers) p calls h =
      let root = n.id == root_id in
      let bytes = (call_host (some list_max) a).data_bytes in
      let page = put_page (suc (length bytes)) root capacity bytes p 0 in
      let kept = put_page-HasRoom (suc (length bytes)) root bytes p 0 h in
      let rest =
        put_pages-HasRoom fs n answers (page.0) (calls ++ (list_call n p.index ∷ [])) kept in
      ground (arith, h, rest)

length-collect :
    (capacity : ℕ) (bodies : List (List ℕ)) (got : List ℕ)
    → length got ≤ capacity
    → length (collect (some capacity) bodies got).1 ≤ capacity
length-collect capacity [] got h = h
length-collect capacity (b ∷ bs) got h =
    ground (arith, h, length-append got b, length-collect capacity bs (got ++ b))

length-call_host :
    (capacity : ℕ) (a : HostAnswer) → length (call_host (some capacity) a).data_bytes ≤ capacity
unfolding call_host
length-call_host capacity unreachable = omega arith
length-call_host capacity no_response = omega arith
length-call_host capacity (responded status head bodies ends) =
    ground (arith, length-collect capacity bodies [] (omega arith))

list_node-length :
    (allocated : Bool) (fs : DropFs) (n : Node) (answers : List HostAnswer) (offset capacity : ℕ)
    → length (list_node allocated fs n answers offset capacity).body ≤ capacity
unfolding list_node
list_node-length allocated fs n answers offset capacity =
    let start : Pages = record { out = []; index = offset; full = false } in
    let kept = put_dots-HasRoom capacity 2 start (omega arith) in
    let listed = put_pages-HasRoom capacity fs n answers (put_dots 2 capacity start) [] kept in
    ground (arith, listed)

data_reply-length :
    (host : HostCall → HostAnswer) (fs : DropFs) (c : HostCall) (capacity : ℕ)
    → length (data_reply host fs c capacity).body ≤ capacity
unfolding data_reply
data_reply-length host fs c capacity =
    let small = length-call_host capacity (host c) in ground (arith, small)

do_read-length :
    (host : HostCall → HostAnswer) (allocated : Bool) (fs : DropFs) (body : List ℕ)
    → (length (do_read host allocated fs body).body ≤ u32_at body 16)
      × (length (do_read host allocated fs body).body ≤ 131072)
unfolding do_read
do_read-length host allocated fs body =
    let size = if ltb (u32_at body 16) 131072 then u32_at body 16 else 131072 in
    let c = path_call 4 (le64 (u64_at body 0) ++ (le64 (u64_at body 8) ++ le32 size)) [] [] in
    let small = data_reply-length host fs c size in
    elim (Bool-cases (ltb (length body) 40)) [
      | inl short ↦ rw short (omega arith, omega arith)
      | inr whole ↦ elim (Bool-cases allocated) [
        | inr lost ↦ rw (whole, lost) (omega arith, omega arith)
        | inl got ↦ rw (whole, got) (ground (arith, small))
      ]
    ]

-- Whatever the host answers, a reply to READ is no longer than the kernel asked for and than 128 KiB, and a
-- reply to READDIR no longer than the buffer that the kernel has for it.
pub replies_fit :
    (host : HostCall → HostAnswer) (allocated : Bool) (fs : DropFs) (id : ℕ) (body : List ℕ)
    (answers : List HostAnswer)
    → (length (do_read host allocated fs body).body ≤ u32_at body 16)
      × (length (do_read host allocated fs body).body ≤ 131072)
      × (length (do_readdir allocated fs id body answers).body ≤ u32_at body 16)
unfolding do_readdir
replies_fit host allocated fs id body answers =
    let (asked, most) = do_read-length host allocated fs body in
    (
      asked,
      most,
      elim (Bool-cases (ltb (length body) 40)) [
        | inl short ↦ rw short (omega arith)
        | inr whole ↦ elim (Option-cases (read_node fs id)) [
          | inl gone ↦ rw (do_readdir, whole, gone) (omega arith)
          | inr (n, there) ↦
              rw (do_readdir, whole, there)
                (list_node-length allocated fs n answers (u64_at body 8) (u32_at body 16))
        ]
      ],
    )
