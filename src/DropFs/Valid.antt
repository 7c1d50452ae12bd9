-- ===== src/DropFs/Valid.antt =====
-- The validity of the table of nodes: its identifiers and its paths.
use native_pipe.Base.{
  ℕ, ◌+◌, ◌-◌, ◌<◌, ◌≡◌, refl, Bool, true, false, ◌||◌, List, [], ◌∷◌, ◌==◌, arith, All,
}
use native_pipe.DropFs.State.{Node, DropFs, root_id}
use native_pipe.DropFs.Names.{valid_token}
use native_pipe.DropFs.Paths.{IsPath}
use native_pipe.DropFs.Table.{change_live, forget_node, each_node}

-- A node below an identifier.
pub record IsNode (next : ℕ) (n : Node) : Type 0 where
  pub after_root : root_id < n.id
  pub before_next : n.id < next
  pub token : valid_token n.token ≡ true
  pub path : IsPath n.path

abbrev pub ids : List Node → List ℕ
ids [] = []
ids (n ∷ ns) = n.id ∷ ids ns

abbrev pub has : ℕ → List ℕ → Bool
has x [] = false
has x (y ∷ ys) = (y == x) || has x ys

abbrev pub Different : List ℕ → Type 0
Different [] = Unit {0}
Different (x ∷ xs) = (has x xs ≡ false) × Different xs

pub record IsValid (fs : DropFs) : Type 0 where
  pub each : All (IsNode fs.next_id) fs.nodes
  pub apart : Different (ids fs.nodes)
  pub next : root_id < fs.next_id

-- A change of one node or of each that keeps the identifiers.
module _ (f : Node → Node) (keeps : (n : Node) → (f n).id ≡ n.id) where
  pub ids-change_live :
      (token path : List ℕ) (ns : List Node) → ids (change_live f token path ns) ≡ ids ns
  ids-change_live token path [] = refl
  ids-change_live token path (n ∷ ns) = ground (arith, keeps n, ids-change_live token path ns)

  pub ids-each_node : (ns : List Node) → ids (each_node f ns) ≡ ids ns
  ids-each_node [] = refl
  ids-each_node (n ∷ ns) = ground (arith, keeps n, ids-each_node ns)

module _ (P : Node → Type 0) (f : Node → Node) (keeps : (n : Node) → P n → P (f n)) where
  pub All-change_live :
      (token path : List ℕ) (ns : List Node) → All P ns → All P (change_live f token path ns)
  All-change_live token path [] h = tt
  All-change_live token path (n ∷ ns) (h, hs) =
      ground (arith, keeps n h, All-change_live token path ns hs, h, hs)

  pub All-each_node : (ns : List Node) → All P ns → All P (each_node f ns)
  All-each_node [] h = tt
  All-each_node (n ∷ ns) (h, hs) = (keeps n h, All-each_node ns hs)

has-forget_node :
    (x : ℕ) (ns : List Node) (id count : ℕ)
    → has x (ids ns) ≡ false
    → has x (ids (forget_node ns id count)) ≡ false
has-forget_node x [] id count h = refl
has-forget_node x (n ∷ ns) id count h = ground (arith, has-forget_node x ns id count)

pub Different-forget_node :
    (ns : List Node) (id count : ℕ) → Different (ids ns) → Different (ids (forget_node ns id count))
Different-forget_node [] id count h = tt
Different-forget_node (n ∷ ns) id count (h, hs) =
    ground (arith, h, hs, has-forget_node n.id ns id count, Different-forget_node ns id count)

module _ (next : ℕ) where
  pub relabel-IsNode :
      (n : Node) (lookups : ℕ) (dead : Bool)
      → IsNode next n
      → IsNode next (record n { lookups = lookups; dead = dead })
  relabel-IsNode n lookups dead h = record {
    after_root = h.after_root;
    before_next = h.before_next;
    token = h.token;
    path = h.path;
  }

  pub All-forget_node :
      (ns : List Node) (id count : ℕ)
      → All (IsNode next) ns
      → All (IsNode next) (forget_node ns id count)
  All-forget_node [] id count h = tt
  All-forget_node (n ∷ ns) id count (h, hs) =
      ground (
        arith,
        h,
        hs,
        relabel-IsNode n (n.lookups - count) n.dead h,
        All-forget_node ns id count hs,
      )

  pub fresh : (ns : List Node) → All (IsNode next) ns → has next (ids ns) ≡ false
  fresh [] h = refl
  fresh (n ∷ ns) (h, hs) = ground (arith, h.before_next, fresh ns hs)

  pub later : (ns : List Node) → All (IsNode next) ns → All (IsNode (next + 1)) ns
  later [] h = tt
  later (n ∷ ns) (h, hs) = (
    record {
      after_root = h.after_root;
      before_next = omega (arith, h.before_next);
      token = h.token;
      path = h.path;
    },
    later ns hs,
  )
