-- ===== src/Node/Rpc.antt =====
-- node/src/rpc.rs: the handlers of remote calls that the pallets of the runtime add.
use substrate_demo.Prelude.{Bool, List, [], ◌∷◌, ◌++◌}
use substrate_demo.Node.Startup.{Handles, RpcHandler, full_system, transaction_payment}

pub record FullDeps (H : Handles) : Type 0 where
  pub client : H.Client
  pub pool : H.TransactionPool
  pub deny_unsafe : Bool

unfoldable pub create_full : {H : Handles} → FullDeps H → List (RpcHandler H)
create_full deps =
    let io = [] in
    let io = io ++ full_system deps.client deps.pool deps.deny_unsafe ∷ [] in
    io ++ transaction_payment deps.client ∷ []
