-- ===== src/Pallet/Chain.antt =====
-- What happens on a chain as the pallet sees it: calls, in block after block.
use substrate_demo.Prelude.{ℕ, Option, List, [], ◌∷◌, Bytes, Result}
use substrate_demo.Pallet.Types.{Call}
use substrate_demo.Pallet.Config.{Trait}
use substrate_demo.Pallet.Store.{Store}
use substrate_demo.Pallet.Call.{dispatch}

-- A call by an origin, or the start of a block or of an extrinsic, with the number of the block, its
-- seed, and the index of the extrinsic, if there is one.
pub data Entry (T : Trait) : Type 0 where
  entry_call : Call T.AccountId → T.Origin → Entry T
  entry_block : ℕ → Bytes → Option ℕ → Entry T

module _ (T : Trait) where
  abbrev pub enter : ℕ → Bytes → Option ℕ → Store T → Store T
  enter n seed index s = record s { block_number = n; random_seed = seed; extrinsic_index = index }

  -- The results of the calls one after the other, and the storage in the end.
  unfoldable pub dispatch_all :
      List (Entry T) → Store T → List (Result T.DispatchError (Unit {0})) × Store T
  dispatch_all [] s = ([], s)
  dispatch_all (entry_block n seed index ∷ rest) s = dispatch_all rest (enter n seed index s)
  dispatch_all (entry_call c o ∷ rest) s =
      let (result, t) = dispatch T c o s in
      let (results, u) = dispatch_all rest t in (result ∷ results, u)
