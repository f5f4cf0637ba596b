-- ===== src/Node/Rpc.antt =====
-- kontracs/node/src/rpc.rs: the RPC module of a full node.
use kontracts.Prelude.{◌≡◌, refl, String, List, [], ◌++◌, Bool, true, false, arith}
use kontracts.Prelude.Outcome.{Outcome, ok, err, ◌>>=◌}

-- jsonrpsee's modules, and the two extensions of Substrate, by what they are made from.
pub record Extensions : Type 1 where
  pub Client : Type 0
  pub Pool : Type 0
  pub DenyUnsafe : Type 0
  pub RpcModule : Type 0
  pub new : RpcModule
  pub merge : RpcModule → RpcModule → Outcome String RpcModule
  pub system_rpc : Client → Pool → DenyUnsafe → RpcModule
  pub transaction_payment_rpc : Client → RpcModule

pub record FullDeps (X : Extensions) : Type 0 where
  pub client : X.Client
  pub pool : X.Pool
  pub deny_unsafe : X.DenyUnsafe

module _ (X : Extensions) where
  unfoldable pub create_full : FullDeps X → Outcome String X.RpcModule
  create_full deps = do
    with_system ← X.merge X.new (X.system_rpc deps.client deps.pool deps.deny_unsafe)
    X.merge with_system (X.transaction_payment_rpc deps.client)

-- A module answers to the names of its methods. A merge keeps both modules' methods, and fails if
-- they share a name.
pub record IsRpc (X : Extensions) : Type 0 where
  pub methods : X.RpcModule → List String
  pub disjoint : List String → List String → Bool
  pub methods-new : methods X.new ≡ []
  pub merge_disjoint :
      (m n : X.RpcModule)
      → disjoint (methods m) (methods n) ≡ true
      → (r : X.RpcModule) × (X.merge m n ≡ ok r) × (methods r ≡ methods m ++ methods n)
  pub merge_shared :
      (m n : X.RpcModule)
      → disjoint (methods m) (methods n) ≡ false
      → (e : String) × (X.merge m n ≡ err e)
  pub disjoint-nil : (names : List String) → disjoint [] names ≡ true

module _ (X : Extensions) (L : IsRpc X) where
  -- Where the two extensions share no method, the module of a full node is made, with the methods
  -- of both.
  pub create_full-methods :
      (deps : FullDeps X)
      → let system = L.methods (X.system_rpc deps.client deps.pool deps.deny_unsafe) in
        let payment = L.methods (X.transaction_payment_rpc deps.client) in
        L.disjoint system payment ≡ true
        → (r : X.RpcModule) × (create_full X deps ≡ ok r) × (L.methods r ≡ system ++ payment)
  unfolding create_full
  create_full-methods deps apart =
      let system = X.system_rpc deps.client deps.pool deps.deny_unsafe in
      let payment = X.transaction_payment_rpc deps.client in
      let (first, merged, named) =
        L.merge_disjoint X.new system (rw L.methods-new (L.disjoint-nil (L.methods system))) in
      let same : L.methods first ≡ L.methods system = rw (named, L.methods-new) refl in
      let (both, merged', named') = L.merge_disjoint first payment (rw same apart) in
      (both, ground (arith, merged, merged'), rw (named', same) refl)

  -- Where they share one, the node gets an error and no module.
  pub create_full_shared :
      (deps : FullDeps X)
      → L.disjoint
          (L.methods (X.system_rpc deps.client deps.pool deps.deny_unsafe))
          (L.methods (X.transaction_payment_rpc deps.client))
        ≡ false
      → (e : String) × (create_full X deps ≡ err e)
  unfolding create_full
  create_full_shared deps shared =
      let system = X.system_rpc deps.client deps.pool deps.deny_unsafe in
      let payment = X.transaction_payment_rpc deps.client in
      let (first, merged, named) =
        L.merge_disjoint X.new system (rw L.methods-new (L.disjoint-nil (L.methods system))) in
      let same : L.methods first ≡ L.methods system = rw (named, L.methods-new) refl in
      let (e, failed) = L.merge_shared first payment (rw same shared) in
      (e, ground (arith, merged, failed))
