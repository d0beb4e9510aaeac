-- ===== src/Rpc/Registration/Found.antt =====
-- What a provider registers, as a discovery finds it.
use mcoro_rpc.Common.{
  sym, subst, inl, inr, List, [], ◌∷◌, Bool, true, some, Bytes, codes, Bool-cases, if◌then◌else◌,
}
use mcoro_rpc.ZkClient.{is_ok}
use mcoro_rpc.Rpc.Discovery.{join, get_instances, get_instances-join, AllNames}
use mcoro_rpc.Rpc.Registration.{
  Nodes, IsGrowing, Among, Registering, Flag, persistent, ephemeral, service_path, at_path,
  register_services, register_to_zk,
}

module _ {K : Type 0} (nodes : Nodes K) where
  -- Each service of the log has the address among its children.
  abbrev pub HasAddress : Bytes → List Bytes → K → Type 0
  HasAddress addr [] k = Unit {0}
  HasAddress addr (name ∷ names) k =
      Among addr (nodes.children (service_path name) k) × HasAddress addr names k

  HasAddress-create :
      (addr : Bytes) (names : List Bytes) (path : Bytes) (flag : Flag) (k : K)
      → IsGrowing nodes
      → HasAddress addr names k
      → HasAddress addr names (nodes.create path flag k).1
  HasAddress-create addr [] path flag k g f = tt
  HasAddress-create addr (name ∷ names) path flag k g f = (
    g.kept (service_path name) addr path flag k f.0,
    HasAddress-create addr names path flag k g f.1,
  )

  register_services-HasAddress :
      (addr : Bytes) (names : List Bytes) (r : Registering K)
      → IsGrowing nodes
      → HasAddress addr r.log r.zk
      → HasAddress addr
          (register_services nodes addr names r).log
          (register_services nodes addr names r).zk
  unfolding register_services
  register_services-HasAddress addr [] r g f = f
  register_services-HasAddress addr (name ∷ names) r g f =
      let above = nodes.create (service_path name) persistent r.zk in
      let own = nodes.create (at_path (service_path name) addr) ephemeral above.1 in
      let f' =
        HasAddress-create addr r.log (at_path (service_path name) addr) ephemeral above.1 g
          (HasAddress-create addr r.log (service_path name) persistent r.zk g f) in
      let next : Registering K =
        if is_ok own.0
        then record { zk = own.1; registered = true; log = name ∷ r.log }
        else record r { zk = own.1 } in
      register_services-HasAddress addr names next g (elim (Bool-cases (is_ok own.0)) [
        | inl e ↦ rw e (g.made (service_path name) addr ephemeral above.1 e, f')
        | inr e ↦ rw e f'
      ])

  child_of_named :
      (name addr : Bytes) (names : List Bytes) (k : K)
      → HasAddress addr names k
      → Among name names
      → Among addr (nodes.children (service_path name) k)
  child_of_named name addr [] k f a = absurd a
  child_of_named name addr (n ∷ names) k f (inl here) =
      subst (λ s. Among addr (nodes.children (service_path s) k)) (sym here) f.0
  child_of_named name addr (n ∷ names) k f (inr later) = child_of_named name addr names k f.1 later

  -- Where the client is connected, each service whose registration is reported can be found: what
  -- the children of its node are joined to and then cut into has the provider's address, where the
  -- names of the children have characters and no comma.
  pub register_to_zk-get_instances :
      (name addr : Bytes) (names : List Bytes) (registered : Bool) (k : K)
      → IsGrowing nodes
      → Among name (register_to_zk nodes true addr names registered k).log
      → AllNames (
          nodes.children (service_path name) (register_to_zk nodes true addr names registered k).zk)
      → Among addr (
          get_instances true (
            some (
              join (
                nodes.children
                  (service_path name)
                  (register_to_zk nodes true addr names registered k).zk))))
  unfolding register_to_zk
  register_to_zk-get_instances name addr names registered k g logged plain =
      let root = (nodes.create (codes "/rpc") persistent k).1 in
      let parent = (nodes.create (codes "/rpc/services") persistent root).1 in
      let r : Registering K = record { zk = parent; registered = registered; log = [] } in
      let found = register_services-HasAddress addr names r g tt in
      subst (Among addr) (sym (get_instances-join _ plain))
        (child_of_named name addr _ (register_services nodes addr names r).zk found logged)
