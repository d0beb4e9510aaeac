-- ===== src/Rpc/Registration/Tree.antt =====
-- What the documentation of ZooKeeper says of its nodes, and the paths of a provider's.
use mcoro_rpc.Common.{
  ℕ, ◌≡◌, ◌≢◌, refl, sym, ap, ◌∙◌, ◌⊎◌, inl, inr, List, [], ◌∷◌, take, drop, true, Option, none,
  some, Bytes, codes, arith,
}
use mcoro_rpc.ZkClient.{is_ok}
use mcoro_rpc.Rpc.Dispatcher.{rfind}
use mcoro_rpc.Rpc.Dispatcher.Names.{Lacks, rfind-Lacks, rfind_last}
use mcoro_rpc.Rpc.Registration.{Nodes, Flag, persistent, service_path, at_path}

abbrev slash_code : ℕ
slash_code = 0x2f

-- A name that a node can have: no empty one, and without a slash.
abbrev pub IsName : Bytes → Type 0
IsName name = (name ≢ []) × Lacks slash_code name

abbrev pub AllNamed : List Bytes → Type 0
AllNamed [] = Unit {0}
AllNamed (n ∷ ns) = IsName n × AllNamed ns

-- The path of the parent.
abbrev pub parent_of : Bytes → Option Bytes
parent_of path = elim (rfind slash_code path) [ none ↦ none | some n ↦ some (take n path) ]

pub parent_of_path :
    (parent name : Bytes) → Lacks slash_code name → parent_of (at_path parent name) ≡ some parent
parent_of_path parent name l =
    let (n, e, f, _) = rfind_last slash_code parent name l in rw (e, parent_of) (ap some f)

pub parent_of_name : (name : Bytes) → Lacks slash_code name → parent_of name ≡ none
parent_of_name name l = rw (rfind-Lacks slash_code name l, parent_of) refl

-- What ZooKeeper says of its nodes; `node` is the kind of the node at a path, where there is one. The
-- root is there for good. A node is made where its parent is there for good and its place is
-- empty; it is then there. No node goes or changes, and none comes at another path.
pub record IsTree {K : Type 0} (nodes : Nodes K) (node : Bytes → K → Option Flag) : Type 0 where
  pub root : (k : K) → node [] k ≡ some persistent
  pub makes :
      (parent name : Bytes) (flag : Flag) (k : K)
      → IsName name
      → node parent k ≡ some persistent
      → node (at_path parent name) k ≡ none
      → let (rc, k') = nodes.create (at_path parent name) flag k in
        (is_ok rc ≡ true) × (node (at_path parent name) k' ≡ some flag)
  pub stays :
      (path at : Bytes) (flag kind : Flag) (k : K)
      → node at k ≡ some kind
      → node at (nodes.create path flag k).1 ≡ some kind
  pub apart :
      (path at : Bytes) (flag : Flag) (k : K)
      → at ≢ path
      → node at k ≡ none
      → node at (nodes.create path flag k).1 ≡ none

-- Nothing of the session's is there: the path is empty, or its node is there for good.
abbrev pub IsOpen : {K : Type 0} → (Bytes → K → Option Flag) → Bytes → K → Type 0
IsOpen node path k = (node path k ≡ none) ⊎ (node path k ≡ some persistent)

pub service_of_path : (name name' : Bytes) → service_path name ≡ service_path name' → name ≡ name'
service_of_path name name' e = ap (drop 14) e

-- Two services have different paths for one address, and no such path is a service's.
pub own_differs :
    (name name' addr : Bytes)
    → Lacks slash_code addr
    → name' ≢ name
    → at_path (service_path name) addr ≢ at_path (service_path name') addr
own_differs name name' addr l differ e = differ (
    sym (
      service_of_path name name' (
        ap (λ o. elim o [ none ↦ [] | some p ↦ p ])
          (sym (parent_of_path (service_path name) addr l)
            ∙ ap parent_of e
            ∙ parent_of_path (service_path name') addr l))))

pub own_below :
    (name name' addr : Bytes)
    → Lacks slash_code name'
    → Lacks slash_code addr
    → at_path (service_path name) addr ≢ service_path name'
own_below name name' addr l l' e =
    let same_path : at_path name addr ≡ name' = ap (drop 14) e in
    let found : some name ≡ none =
      sym (parent_of_path name addr l') ∙ ap parent_of same_path ∙ parent_of_name name' l in
    cc

pub rpc_named : IsName (codes "rpc")
rpc_named = ((λ e. cc), ground arith)

pub services_named : IsName (codes "services")
services_named = ((λ e. cc), ground arith)

module _ {K : Type 0} (nodes : Nodes K) (node : Bytes → K → Option Flag) where
  -- Behind the creation of an open node with a lasting parent it lasts.
  pub opened :
      (parent name : Bytes) (k : K)
      → IsTree nodes node
      → IsName name
      → node parent k ≡ some persistent
      → IsOpen node (at_path parent name) k
      → node (at_path parent name) (nodes.create (at_path parent name) persistent k).1
        ≡ some persistent
  opened parent name k t named above (inl empty) =
      (t.makes parent name persistent k named above empty).1
  opened parent name k t named above (inr there) =
      t.stays (at_path parent name) (at_path parent name) persistent persistent k there

  pub IsOpen-create :
      (path at : Bytes) (flag : Flag) (k : K)
      → IsTree nodes node
      → at ≢ path
      → IsOpen node at k
      → IsOpen node at (nodes.create path flag k).1
  IsOpen-create path at flag k t differ (inl empty) = inl (t.apart path at flag k differ empty)
  IsOpen-create path at flag k t differ (inr there) = inr (t.stays path at flag persistent k there)
