-- ===== src/Rpc/Registration.antt =====
-- `RpcProvider::registerToZk` of src/rpc_provider.cc. The nodes of ZooKeeper are not part of the
-- repository: they stand behind an interface of what its documentation says of them.
pub mod Tree
pub mod Logged
pub mod Found
use mcoro_rpc.Common.{
  ◌≡◌, refl, sym, ap, subst, ◌∙◌, ◌⊎◌, inl, inr, List, [], ◌∷◌, ◌++◌, map, Bool, true, false,
  Option, none, some, Bytes, codes, Bool-cases, if◌then◌else◌, ◌||◌,
}
use mcoro_rpc.ZkClient.{Rc, is_ok}
use mcoro_rpc.Rpc.Dispatcher.{Services}
use mcoro_rpc.Rpc.Discovery.{join, get_instances, get_instances-join, AllNames}

-- A node is made with no data, for good or for the time of the session.
pub data Flag : Type 0 where
  persistent ephemeral : Flag

pub record Nodes (K : Type 0) : Type 0 where
  pub create : Bytes → Flag → K → Rc × K
  pub children : Bytes → K → List Bytes

abbrev pub Among : Bytes → List Bytes → Type 0
Among name [] = ⊥
Among name (n ∷ ns) = (name ≡ n) ⊎ Among name ns

abbrev pub slash : Bytes
slash = codes "/"

abbrev pub at_path : Bytes → Bytes → Bytes
at_path parent name = parent ++ (slash ++ name)

-- A node that was made is a child of its parent, and making a node takes none away.
pub record IsGrowing {K : Type 0} (nodes : Nodes K) : Type 0 where
  pub made :
      (parent name : Bytes) (flag : Flag) (k : K)
      → is_ok (nodes.create (at_path parent name) flag k).0 ≡ true
      → Among name (nodes.children parent (nodes.create (at_path parent name) flag k).1)
  pub kept :
      (parent name path : Bytes) (flag : Flag) (k : K)
      → Among name (nodes.children parent k)
      → Among name (nodes.children parent (nodes.create path flag k).1)

-- The path that the provider registers under and that the discovery asks for.
abbrev pub service_path : Bytes → Bytes
service_path service_name = codes "/rpc/services/" ++ service_name

-- `registered` is `m_registered`, and `log` the services whose registration is printed.
pub record Registering (K : Type 0) : Type 0 where
  pub zk : K
  pub registered : Bool
  pub log : List Bytes

module _ {K : Type 0} (nodes : Nodes K) where
  -- The loop over the services; what the creations of the parents answer is not looked at.
  unfoldable pub register_services : Bytes → List Bytes → Registering K → Registering K
  register_services addr [] r = r
  register_services addr (name ∷ names) r =
      let above = (nodes.create (service_path name) persistent r.zk).1 in
      let (rc, zk) = nodes.create (at_path (service_path name) addr) ephemeral above in
      let next : Registering K =
        if is_ok rc
        then record { zk = zk; registered = true; log = name ∷ r.log }
        else record r { zk = zk } in
      register_services addr names next

  unfoldable pub register_to_zk : Bool → Bytes → List Bytes → Bool → K → Registering K
  register_to_zk connected addr names registered k =
      let root = (nodes.create (codes "/rpc") persistent k).1 in
      let parent = (nodes.create (codes "/rpc/services") persistent root).1 in
      if connected
      then register_services addr names (record { zk = parent; registered = registered; log = [] })
      else record { zk = k; registered = registered; log = [] }
