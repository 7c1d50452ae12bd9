-- ===== src/DropFs/Listed.antt =====
-- do_readdir on a valid table.
use native_pipe.Base.{
  ℕ, suc, ◌-◌, ◌≡◌, refl, Bool, false, some, List, [], ◌∷◌, ◌++◌, ltb, ◌==◌, length, arith,
  Bool-cases, inl, inr, Option-cases, All,
}
use native_pipe.Base.Bytes.{le32, u32_at}
use native_pipe.DropFs.State.{Node, DropFs, root_id, u64_at}
use native_pipe.DropFs.Table.{read_node}
use native_pipe.DropFs.Valid.{IsNode, IsValid}
use native_pipe.DropFs.Host.{enoent, eio, enotdir, einval, HostCall, HostAnswer, call_host}
use native_pipe.DropFs.Listing.{
  list_call, put_pages, list_node, do_readdir, Pages, put_page, put_dots, list_max,
}
use native_pipe.DropFs.Inside.{IsInside, IsGood, read_node-IsNode, reply-IsGood}
use native_pipe.DropFs.Reading.{node_call-IsInside, refused-IsGood}

All-snoc :
    (P : HostCall → Type 0) (cs : List HostCall) (c : HostCall)
    → All P cs
    → P c
    → All P (cs ++ (c ∷ []))
All-snoc P [] c h k = (k, tt)
All-snoc P (d ∷ cs) c (h, hs) k = (h, All-snoc P cs c hs k)

module _ (fs : DropFs) (v : IsValid fs) where
  list_call-IsInside :
      (n : Node) (index : ℕ)
      → ((n.id == root_id) ≡ false → IsNode fs.next_id n)
      → IsInside (list_call n index)
  list_call-IsInside n index known = elim (Bool-cases (n.id == root_id)) [
    | inl root ↦ rw root (inr (refl, (refl, refl)))
    | inr other ↦ rw other (node_call-IsInside fs v n known 2 (le32 (index - 2)) other)
  ]

  put_pages-IsGood :
      (n : Node) (capacity : ℕ) (answers : List HostAnswer) (p : Pages) (calls : List HostCall)
      → ((n.id == root_id) ≡ false → IsNode fs.next_id n)
      → All IsInside calls
      → IsGood (put_pages fs n capacity answers p calls)
  unfolding put_pages
  put_pages-IsGood n capacity [] p calls known h =
      let more =
        All-snoc IsInside calls (list_call n p.index) h (list_call-IsInside n p.index known) in
      let done = reply-IsGood fs (calls ++ (list_call n p.index ∷ [])) 0 p.out v more in
      let lost = reply-IsGood fs (calls ++ (list_call n p.index ∷ [])) eio [] v more in
      ground (arith, done, lost, reply-IsGood fs calls 0 p.out v h)
  put_pages-IsGood n capacity (a ∷ answers) p calls known h =
      let c = list_call n p.index in
      let answer = call_host (some list_max) a in
      let bytes = answer.data_bytes in
      let page = put_page (suc (length bytes)) (n.id == root_id) capacity bytes p 0 in
      let more = All-snoc IsInside calls c h (list_call-IsInside n p.index known) in
      let rest = put_pages-IsGood n capacity answers (page.0) (calls ++ (c ∷ [])) known more in
      let done = reply-IsGood fs (calls ++ (c ∷ [])) 0 p.out v more in
      let lost = reply-IsGood fs (calls ++ (c ∷ [])) eio [] v more in
      let failed = reply-IsGood fs (calls ++ (c ∷ [])) answer.status [] v more in
      ground (arith, done, lost, failed, rest, reply-IsGood fs calls 0 p.out v h)

  list_node-IsGood :
      (allocated : Bool) (n : Node) (answers : List HostAnswer) (offset capacity : ℕ)
      → ((n.id == root_id) ≡ false → IsNode fs.next_id n)
      → IsGood (list_node allocated fs n answers offset capacity)
  unfolding list_node
  list_node-IsGood allocated n answers offset capacity known =
      let start : Pages = record { out = []; index = offset; full = false } in
      let listed = put_pages-IsGood n capacity answers (put_dots 2 capacity start) [] known tt in
      let refusal = refused-IsGood fs v in
      ground (arith, listed, refusal enoent [], refusal enotdir [], refusal eio [])

  pub do_readdir-IsGood :
      (allocated : Bool) (id : ℕ) (body : List ℕ) (answers : List HostAnswer)
      → IsGood (do_readdir allocated fs id body answers)
  unfolding do_readdir
  do_readdir-IsGood allocated id body answers = elim (Bool-cases (ltb (length body) 40)) [
    | inl short ↦ rw short (refused-IsGood fs v einval [])
    | inr whole ↦ elim (Option-cases (read_node fs id)) [
      | inl gone ↦ rw (do_readdir, whole, gone) (refused-IsGood fs v enoent [])
      | inr (n, there) ↦
          rw (do_readdir, whole, there)
            (list_node-IsGood allocated n answers (u64_at body 8) (u32_at body 16)
              (read_node-IsNode fs id {n = n} v there))
    ]
  ]
