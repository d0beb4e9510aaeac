-- ===== src/Rpc/Registration/Logged.antt =====
-- Which services a provider registers, where its nodes behave as ZooKeeper's do.
use mcoro_rpc.Common.{
  ◌≡◌, ◌≢◌, refl, sym, subst, ◌⊎◌, inl, inr, List, [], ◌∷◌, Bool, true, Option, none, some, Bytes,
  codes, Bool-cases, if◌then◌else◌, same, same_iff,
}
use mcoro_rpc.ZkClient.{is_ok}
use mcoro_rpc.Rpc.Registration.{
  Nodes, Among, Registering, Flag, persistent, ephemeral, service_path, at_path, register_services,
}
use mcoro_rpc.Rpc.Registration.Tree.{
  IsTree, IsName, AllNamed, IsOpen, service_of_path, own_differs, own_below, opened, IsOpen-create,
  rpc_named, services_named,
}

module _ {K : Type 0} (nodes : Nodes K) (node : Bytes → K → Option Flag) where
  abbrev pub services_path : Bytes
  services_path = codes "/rpc/services"

  abbrev pub own_path : Bytes → Bytes → Bytes
  own_path name addr = at_path (service_path name) addr

  -- What the loop does with one service.
  abbrev next_of : Bytes → Bytes → Registering K → Registering K
  next_of addr n r =
      let above = nodes.create (service_path n) persistent r.zk in
      let own = nodes.create (own_path n addr) ephemeral above.1 in
      if is_ok own.0
      then record { zk = own.1; registered = true; log = n ∷ r.log }
      else record r { zk = own.1 }

  -- The service can be registered, unless it has been.
  abbrev pub Awaits : Bytes → Bytes → Registering K → Type 0
  Awaits name addr r =
      (node services_path r.zk ≡ some persistent)
      × IsOpen node (service_path name) r.zk
      × (Among name r.log ⊎ (node (own_path name addr) r.zk ≡ none))

  next_zk :
      (addr n : Bytes) (r : Registering K)
      → (next_of addr n r).zk
        ≡ (nodes.create
            (own_path n addr)
            ephemeral
            (nodes.create (service_path n) persistent r.zk).1).1
  next_zk addr n r =
      let above = nodes.create (service_path n) persistent r.zk in
      elim (Bool-cases (is_ok (nodes.create (own_path n addr) ephemeral above.1).0)) [
        | inl e ↦ rw e refl
        | inr e ↦ rw e refl
      ]

  next_logs :
      (name addr n : Bytes) (r : Registering K)
      → Among name r.log
      → Among name (next_of addr n r).log
  next_logs name addr n r a =
      let above = nodes.create (service_path n) persistent r.zk in
      elim (Bool-cases (is_ok (nodes.create (own_path n addr) ephemeral above.1).0)) [
        | inl e ↦ rw e (inr a)
        | inr e ↦ rw e a
      ]

  pub logged_stays :
      (name addr : Bytes) (names : List Bytes) (r : Registering K)
      → Among name r.log
      → Among name (register_services nodes addr names r).log
  unfolding register_services
  logged_stays name addr [] r a = a
  logged_stays name addr (n ∷ names) r a =
      logged_stays name addr names (next_of addr n r) (next_logs name addr n r a)

  -- A service that can be registered is registered in its turn,
  next_lands :
      (addr n : Bytes) (r : Registering K)
      → IsTree nodes node
      → IsName n
      → IsName addr
      → Awaits n addr r
      → Among n (next_of addr n r).log
  next_lands addr n r t named addressed (above, way, inl logged) = next_logs n addr n r logged
  next_lands addr n r t named addressed (above, way, inr empty) =
      let k1 = (nodes.create (service_path n) persistent r.zk).1 in
      let lasting = opened nodes node services_path n r.zk t named above way in
      let empty1 =
        t.apart (service_path n) (own_path n addr) persistent r.zk
          (own_below n n addr named.1 addressed.1) empty in
      let made = t.makes (service_path n) addr ephemeral k1 addressed lasting empty1 in
      rw (made.0) (inl refl)

  -- and can still be behind the turn of another one.
  next-Awaits :
      (name addr n : Bytes) (r : Registering K)
      → IsTree nodes node
      → IsName name
      → IsName n
      → IsName addr
      → n ≢ name
      → Awaits name addr r
      → Awaits name addr (next_of addr n r)
  next-Awaits name addr n r t named named' addressed differ (above, way, here) =
      let k1 = (nodes.create (service_path n) persistent r.zk).1 in
      let k2 = (nodes.create (own_path n addr) ephemeral k1).1 in
      let same_zk = sym (next_zk addr n r) in
      let above1 = t.stays (service_path n) services_path persistent persistent r.zk above in
      let open1 =
        IsOpen-create nodes node (service_path n) (service_path name) persistent r.zk t
          (λ e. differ (sym (service_of_path name n e))) way in
      let open2 =
        IsOpen-create nodes node (own_path n addr) (service_path name) ephemeral k1 t
          (λ e. own_below n name addr named.1 addressed.1 (sym e)) open1 in
      (
        subst (λ k. node services_path k ≡ some persistent) same_zk
            (t.stays (own_path n addr) services_path ephemeral persistent k1 above1),
        subst (IsOpen node (service_path name)) same_zk open2,
        elim here [
          | inl logged ↦ inl (next_logs name addr n r logged)
          | inr empty ↦ inr (
              subst (λ k. node (own_path name addr) k ≡ none) same_zk
                (t.apart (own_path n addr) (own_path name addr) ephemeral k1
                  (own_differs name n addr addressed.1 differ)
                  (t.apart (service_path n) (own_path name addr) persistent r.zk
                    (own_below name n addr named'.1 addressed.1) empty)))
        ],
      )

  pub all_logged :
      (name addr : Bytes) (names : List Bytes) (r : Registering K)
      → IsTree nodes node
      → IsName name
      → AllNamed names
      → IsName addr
      → Awaits name addr r
      → Among name names
      → Among name (register_services nodes addr names r).log
  unfolding register_services
  all_logged name addr [] r t named all addressed w a = absurd a
  all_logged name addr (n ∷ names) r t named all addressed w a = elim (Bool-cases (same n name)) [
    | inl e ↦
        let is_n : n ≡ name = (same_iff n name).0 e in
        let lands =
          next_lands addr n r t all.0 addressed (subst (λ m. Awaits m addr r) (sym is_n) w) in
        logged_stays name addr names (next_of addr n r)
          (subst (λ m. Among m (next_of addr n r).log) is_n lands)
    | inr e ↦
        let differ : n ≢ name = λ p. cc (e, (same_iff n name).1 p) in
        all_logged name addr names (next_of addr n r) t named all.1 addressed
          (next-Awaits name addr n r t named all.0 addressed differ w)
          (elim a [ inl here ↦ absurd (differ (sym here)) | inr later ↦ later ])
  ]

  -- The loop comes upon a service as it can be registered, where the nodes above it are open and its
  -- own place is empty as the registration begins.
  pub register_to_zk-Awaits :
      (name addr : Bytes) (registered : Bool) (k : K)
      → IsTree nodes node
      → IsOpen node (codes "/rpc") k
      → IsOpen node services_path k
      → IsOpen node (service_path name) k
      → node (own_path name addr) k ≡ none
      → let root = (nodes.create (codes "/rpc") persistent k).1 in
        let parent = (nodes.create services_path persistent root).1 in
        Awaits name addr (record { zk = parent; registered = registered; log = [] })
  register_to_zk-Awaits name addr registered k t rpc services way empty =
      let root = (nodes.create (codes "/rpc") persistent k).1 in
      let above = opened nodes node [] (codes "rpc") k t (rpc_named) (t.root k) rpc in
      let services1 =
        IsOpen-create nodes node (codes "/rpc") services_path persistent k t (λ e. cc) services in
      let way1 =
        IsOpen-create nodes node (codes "/rpc") (service_path name) persistent k t (λ e. cc) way in
      let empty1 = t.apart (codes "/rpc") (own_path name addr) persistent k (λ e. cc) empty in
      (
        opened nodes node (codes "/rpc") (codes "services") root t services_named above services1,
        IsOpen-create nodes node services_path (service_path name) persistent root t (λ e. cc) way1,
        inr (t.apart services_path (own_path name addr) persistent root (λ e. cc) empty1),
      )
