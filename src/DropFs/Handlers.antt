-- ===== src/DropFs/Handlers.antt =====
-- do_lookup, and calls for a path that is remembered, on a valid table.
use native_pipe.Base.{
  ℕ, ◌≡◌, refl, Bool, true, false, Option, none, some, List, [], ◌∷◌, ◌==◌, arith, Bool-cases, inl,
  inr, Option-cases,
}
use native_pipe.DropFs.State.{Node, DropFs, DropAttr, attr_decode, root_id, file, le64}
use native_pipe.DropFs.Names.{valid_token, valid_name, join}
use native_pipe.DropFs.Paths.{IsPath, IsNamed, IsNamed-join}
use native_pipe.DropFs.Table.{read_node}
use native_pipe.DropFs.Valid.{IsNode, IsValid}
use native_pipe.DropFs.Kept.{remember-IsValid}
use native_pipe.DropFs.Host.{
  enoent, eio, enotdir, einval, enametoolong, HostCall, path_call, HostAnswer, call_host, HostAttr,
  refused, attr_of, lookup_call, host_lookup, reply,
}
use native_pipe.DropFs.Lookup.{
  c_string, looked_up, lookup_at, lookup_in, do_lookup, created_attr, make_node, created_file,
}
use native_pipe.DropFs.Inside.{
  IsInside, IsGood, HasIds, read_node-IsNode, path_call-IsInside, reply-IsGood,
}

module _ (host : HostCall → HostAnswer) (allocated : Bool) where
  looked_up-IsGood :
      (fs : DropFs) (token path : List ℕ) (r : HostAttr)
      → IsValid fs
      → HasIds fs
      → valid_token token ≡ true
      → IsPath path
      → IsGood (looked_up host allocated fs token path r)
  unfolding looked_up
  looked_up-IsGood fs token path (refused e) v room t p =
      reply-IsGood fs _ _ _ v (path_call-IsInside 1 [] token path t p, tt)
  looked_up-IsGood fs token path (attr_of a) v room t p =
      let kept = remember-IsValid allocated fs a.kind token path room t p v in
      let inside = path_call-IsInside 1 [] token path t p in ground (arith, kept, inside)

  lookup_at-IsGood :
      (fs : DropFs) (token path : List ℕ)
      → IsValid fs
      → HasIds fs
      → valid_token token ≡ true
      → IsPath path
      → IsGood (lookup_at host allocated fs token path)
  lookup_at-IsGood fs token path v room t p =
      looked_up-IsGood fs token path (host_lookup path (host (lookup_call token path))) v room t p

  lookup_in-IsGood :
      (fs : DropFs) (parent : Node) (name : List ℕ)
      → IsValid fs
      → HasIds fs
      → ((parent.id == root_id) ≡ false → IsNode fs.next_id parent)
      → IsGood (lookup_in host allocated fs parent name)
  unfolding lookup_in
  lookup_in-IsGood fs parent name v room known =
      let refusal : (e : ℕ) → IsGood (reply fs [] e []) = λ e. reply-IsGood fs [] e [] v tt in
      elim (Bool-cases (parent.id == root_id)) [
        | inl root ↦ elim (Bool-cases (valid_token name)) [
          | inr bad ↦ rw (root, bad) (refusal enoent)
          | inl good ↦
              rw (root, good) (lookup_at-IsGood fs name [] v room good (omega arith, inl refl))
        ]
        | inr other ↦
            let h = known other in
            let joined : (path : List ℕ)
                → IsNamed path
                → IsGood (lookup_at host allocated fs parent.token path) =
              λ path k. lookup_at-IsGood fs parent.token path v room h.token (k.0, inr k.1) in
            elim (Bool-cases (valid_name name)) [
              | inr bad ↦ ground (arith, other, bad, refusal enoent, refusal enotdir)
              | inl good ↦ elim (Option-cases (join parent.path name)) [
                | inl long ↦ ground (
                  arith,
                  other,
                  good,
                  long,
                  refusal enoent,
                  refusal enotdir,
                  refusal enametoolong,
                )
                | inr (path, whole) ↦
                    let found =
                      joined path (IsNamed-join parent.path name {p = path} h.path good whole) in
                    ground (arith, other, good, whole, refusal enoent, refusal enotdir, found)
              ]
            ]
      ]

  pub do_lookup-IsGood :
      (fs : DropFs) (id : ℕ) (body : List ℕ)
      → IsValid fs
      → HasIds fs
      → IsGood (do_lookup host allocated fs id body)
  unfolding do_lookup
  do_lookup-IsGood fs id body v room = elim (Option-cases (c_string body)) [
    | inl endless ↦ rw (do_lookup, endless) (reply-IsGood fs [] einval [] v tt)
    | inr (p, cut) ↦ elim (Option-cases (read_node fs id)) [
      | inl gone ↦ rw (do_lookup, cut, gone) (reply-IsGood fs [] enoent [] v tt)
      | inr (parent, there) ↦
          rw (do_lookup, cut, there)
            (lookup_in-IsGood fs parent (p.0) v room (read_node-IsNode fs id {n = parent} v there))
    ]
  ]

  -- A call for a path that is remembered once the host has made it.
  module _ (fs : DropFs) (c : HostCall) (v : IsValid fs) (room : HasIds fs)
      (t : valid_token c.token ≡ true) (p : IsPath c.path) (inside : IsInside c) where
    pub made-IsGood : (e : ℕ) (body : List ℕ) → IsGood (reply fs (c ∷ []) e body)
    made-IsGood e body = reply-IsGood fs (c ∷ []) e body v (inside, tt)

    created_attr-IsGood : (a : Option DropAttr) → IsGood (created_attr host allocated fs c a)
    unfolding created_attr
    created_attr-IsGood none = made-IsGood eio []
    created_attr-IsGood (some a) =
        let kept = remember-IsValid allocated fs a.kind c.token c.path room t p v in
        ground (arith, kept, inside)

    pub make_node-IsGood : IsGood (make_node host allocated fs c)
    unfolding make_node
    make_node-IsGood =
        let answer = call_host none (host c) in
        let lost = made-IsGood eio [] in
        let failed = made-IsGood answer.status [] in
        let made = created_attr-IsGood (attr_decode answer.head) in
        ground (arith, lost, failed, made)

    pub created_file-IsGood :
        (handle : ℕ) (a : Option DropAttr) → IsGood (created_file host allocated fs c handle a)
    unfolding created_file
    created_file-IsGood handle none = made-IsGood eio []
    created_file-IsGood handle (some a) =
        let kept = remember-IsValid allocated fs file c.token c.path room t p v in
        let release : IsInside (path_call 5 (le64 handle) [] []) = inr (refl, (refl, refl)) in
        ground (arith, kept, inside, release)
