-- ===== src/Offchain/Worker/Registration.antt =====
-- From the call `request_delegate` to the answer of the worker in the same block.
use substrate_demo.Prelude.{nat_eq}
use substrate_demo.Prelude.StorageMap
use substrate_demo.Pallet.Store.{Store}
use substrate_demo.Offchain.World.{Offchain}
