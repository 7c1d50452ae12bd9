-- ===== src/DropFs/Tests.antt =====
-- A drop with one folder that the kernel looks up, renames and removes.
use native_pipe.Base.{
  ℕ, ◌≤◌, ◌≡◌, refl, Bool, true, false, ◌&&◌, none, some, List, [], ◌∷◌, ◌++◌, if◌then◌else◌,
  length, arith, take,
}
use native_pipe.Base.Bytes.{le32, u32_at}
use native_pipe.DropFs.State.{Node, DropFs, DropAttr, new_drop_fs, attr_encode, attr_decode, le64}
use native_pipe.DropFs.Names.{same, under}
use native_pipe.DropFs.Table.{find_live, remember}
use native_pipe.DropFs.Host.{HostCall, HostAnswer, responded, call_host}
use native_pipe.DropFs.Lookup.{child, do_lookup}
use native_pipe.DropFs.Change.{remove_child, renamed}
use native_pipe.DropFs.OpenFiles.{do_read}
use native_pipe.DropFs.Listing.{do_readdir, list_node}
use native_pipe.DropFs.Dispatch.{Outside, handle}
use native_pipe.DropFs.Attr.{attr_decode-attr_encode}
use native_pipe.DropFs.Valid.{IsValid}
use native_pipe.DropFs.Handled.{IsSafe, handle-IsSafe}
use native_pipe.DropFs.Renames.{relocated, renamed-find_live}
use native_pipe.DropFs.Removal.{remove_child-find_live}
use native_pipe.DropFs.Sizes.{replies_fit}
use native_pipe.DropFs.Stable.{remember-stable}

abbrev folder_attr : DropAttr
folder_attr = record {
  kind = 1;
  mode = 493;
  size = 0;
  mtime_seconds = 1700000000;
  mtime_nanoseconds = 5;
  file_id = 99;
}

attr_decode-attr_encode_example : attr_decode (attr_encode folder_attr) ≡ some folder_attr
attr_decode-attr_encode_example = attr_decode-attr_encode folder_attr (ground arith)

abbrev zeros_8 : List ℕ
zeros_8 = b'0' ∷ b'0' ∷ b'0' ∷ b'0' ∷ b'0' ∷ b'0' ∷ b'0' ∷ b'0' ∷ []

abbrev zeros_4 : List ℕ
zeros_4 = b'-' ∷ b'0' ∷ b'0' ∷ b'0' ∷ b'0' ∷ []

abbrev token : List ℕ
token =
    zeros_8 ++ (zeros_4 ++ (zeros_4 ++ (zeros_4 ++ ((b'-' ∷ []) ++ (zeros_8 ++ take 4 zeros_8)))))

abbrev gives : ℕ → Bool
gives n = true

-- A host that has a folder at every path.
abbrev folders : HostCall → HostAnswer
folders c = responded 0 (attr_encode folder_attr) [] true

abbrev outside : Outside
outside = record {
  host = folders;
  pages = [];
  allocated = true;
  malloc = gives;
  interrupted = false;
}

-- LOOKUP of the token in the root.
abbrev lookup_request : List ℕ
lookup_request =
    le32 77
    ++ (le32 1
        ++ (le64 5
            ++ (le64 1 ++ (le32 0 ++ (le32 0 ++ (le32 0 ++ (le32 0 ++ (token ++ (0 ∷ [])))))))))

abbrev fresh_fs : DropFs
fresh_fs = new_drop_fs 1000 1000

fresh_fs-IsValid : IsValid fresh_fs
fresh_fs-IsValid = record { each = tt; apart = tt; next = omega arith }

handle-IsSafe_example : IsSafe (handle outside fresh_fs lookup_request)
handle-IsSafe_example = handle-IsSafe outside fresh_fs fresh_fs-IsValid lookup_request (omega arith)

abbrev node_at : ℕ → List ℕ → Node
node_at id path = record {
  id = id;
  lookups = 1;
  kind = 1;
  dead = false;
  token = token;
  path = path;
}

-- "a", "a/b" and "c".
abbrev three_nodes : DropFs
three_nodes = record fresh_fs {
  nodes = node_at 4 (b'a' ∷ b'/' ∷ b'b' ∷ []) ∷ node_at 3 (b'a' ∷ []) ∷ node_at 2 (b'c' ∷ []) ∷ [];
  next_id = 5;
}

renamed-find_live_example :
    (find_live token
        ((b'c' ∷ []) ++ (b'/' ∷ b'b' ∷ []))
        (renamed folders gives three_nodes token (b'a' ∷ []) (b'c' ∷ [])).nodes
      ≡ relocated
          ((b'c' ∷ []) ++ (b'/' ∷ b'b' ∷ []))
          (find_live token ((b'a' ∷ []) ++ (b'/' ∷ b'b' ∷ [])) three_nodes.nodes))
    × (find_live token
          ((b'a' ∷ []) ++ (b'/' ∷ b'b' ∷ []))
          (renamed folders gives three_nodes token (b'a' ∷ []) (b'c' ∷ [])).nodes
        ≡ none)
renamed-find_live_example =
    renamed-find_live folders gives three_nodes token (b'a' ∷ []) (b'c' ∷ []) (b'/' ∷ b'b' ∷ [])
      (λ n. refl) refl refl (omega arith) refl

remove_child-find_live_example :
    ((remove_child folders gives three_nodes 15 (child (node_at 6 []) (b'a' ∷ []) [])).error ≡ 0)
    × (find_live token
          (b'c' ∷ [])
          (remove_child folders gives three_nodes 15 (child (node_at 6 []) (b'a' ∷ []) [])).fs.nodes
        ≡ (if same token token && under (b'c' ∷ []) (b'a' ∷ [])
            then none
            else find_live token (b'c' ∷ []) three_nodes.nodes))
unfolding call_host attr_encode
remove_child-find_live_example =
    remove_child-find_live folders gives three_nodes 15 (node_at 6 []) (b'a' ∷ []) [] token
      (b'c' ∷ []) refl refl

replies_fit_example :
    (length (do_read folders true three_nodes lookup_request).body ≤ u32_at lookup_request 16)
    × (length (do_read folders true three_nodes lookup_request).body ≤ 131072)
    × (length (do_readdir true three_nodes 3 lookup_request []).body ≤ u32_at lookup_request 16)
replies_fit_example = replies_fit folders true three_nodes 3 lookup_request []

remember-stable_example :
    (remember false (remember true three_nodes 1 token (b'd' ∷ [])).0 1 token (b'd' ∷ [])).1
    ≡ (remember true three_nodes 1 token (b'd' ∷ [])).1
remember-stable_example = remember-stable false three_nodes 1 token (b'd' ∷ [])

-- The token is found and its folder gets the first identifier after the root's.
finds_token :
    find_live token [] (do_lookup folders true fresh_fs 1 (token ++ (0 ∷ []))).fs.nodes
    ≡ some (node_at 2 [])
unfolding do_lookup native_pipe.DropFs.Table.read_node native_pipe.DropFs.Lookup.lookup_in
    native_pipe.DropFs.Names.valid_token native_pipe.DropFs.Lookup.looked_up
    native_pipe.DropFs.Host.host_lookup native_pipe.DropFs.Host.answered_attr call_host attr_encode
    attr_decode remember native_pipe.DropFs.Table.add_node
finds_token = refl

-- READDIR of "a" lists ".", ".." and the one entry of the host's page, 24 + 8 bytes each.
abbrev one_entry : HostAnswer
one_entry = responded 0 [] (((1 ∷ 0 ∷ b'b' ∷ []) ++ attr_encode folder_attr) ∷ []) true

abbrev no_entries : HostAnswer
no_entries = responded 0 [] [] true

lists_folder :
    length
      (list_node true three_nodes (node_at 3 (b'a' ∷ [])) (one_entry ∷ no_entries ∷ []) 0 4096).body
    ≡ 96
unfolding list_node native_pipe.DropFs.Listing.put_pages native_pipe.DropFs.Listing.put_dots
    native_pipe.DropFs.Listing.put_entry native_pipe.DropFs.Listing.add_dirent call_host attr_encode
    native_pipe.DropFs.Listing.put_page native_pipe.DropFs.Listing.put_listed attr_decode
    native_pipe.DropFs.Names.valid_name
lists_folder = refl
