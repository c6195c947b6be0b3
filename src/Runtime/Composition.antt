-- ===== src/Runtime/Composition.antt =====
-- `construct_runtime!` of runtime/src/lib.rs: the pallets of the runtime, in their order, and the
-- parts that each of them adds; whether a part is generic is left out.
use substrate_demo.Prelude.{◌≡◌, refl, List, [], ◌∷◌, Bytes, Eq, contains, if◌then◌else◌}
use substrate_demo.Offchain.Text.{str}

pub data Part : Type 0 where
  module_part call config storage event inherent : Part

Part-discrete : Discrete Part
Part-discrete = hlevel

instance unfoldable part_eq : Eq Part
unfolding Part-discrete
part_eq = record { discrete = Part-discrete }

pub record RuntimePallet : Type 0 where
  pub name : Bytes
  pub path : Bytes
  pub parts : List Part

abbrev pallets : List RuntimePallet
pallets =
    record {
      name = str "System";
      path = str "frame_system";
      parts = module_part ∷ call ∷ config ∷ storage ∷ event ∷ [];
    }
    ∷ record {
      name = str "RandomnessCollectiveFlip";
      path = str "pallet_randomness_collective_flip";
      parts = module_part ∷ call ∷ storage ∷ [];
    }
    ∷ record {
      name = str "Timestamp";
      path = str "pallet_timestamp";
      parts = module_part ∷ call ∷ storage ∷ inherent ∷ [];
    }
    ∷ record {
      name = str "Aura";
      path = str "pallet_aura";
      parts = module_part ∷ config ∷ inherent ∷ [];
    }
    ∷ record {
      name = str "Grandpa";
      path = str "pallet_grandpa";
      parts = module_part ∷ call ∷ storage ∷ config ∷ event ∷ [];
    }
    ∷ record {
      name = str "Balances";
      path = str "pallet_balances";
      parts = module_part ∷ call ∷ storage ∷ config ∷ event ∷ [];
    }
    ∷ record {
      name = str "TransactionPayment";
      path = str "pallet_transaction_payment";
      parts = module_part ∷ storage ∷ [];
    }
    ∷ record {
      name = str "Sudo";
      path = str "pallet_sudo";
      parts = module_part ∷ call ∷ config ∷ storage ∷ event ∷ [];
    }
    ∷ record {
      name = str "Abc";
      path = str "pallet_abc";
      parts = module_part ∷ call ∷ storage ∷ event ∷ config ∷ [];
    }
    ∷ []

-- The names of the pallets that add a part.
abbrev adding : Part → List RuntimePallet → List Bytes
adding part [] = []
adding part (p ∷ ps) =
    let rest = adding part ps in if contains part p.parts then p.name ∷ rest else rest

-- The pallets with a genesis configuration are those that node/src/chain_spec.rs configures.
adding_config :
    adding config pallets
    ≡ str "System" ∷ str "Aura" ∷ str "Grandpa" ∷ str "Balances" ∷ str "Sudo" ∷ str "Abc" ∷ []
unfolding part_eq
adding_config = refl
