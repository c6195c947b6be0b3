-- ===== src/Prelude/Equality.antt =====
-- Rust's `==` for every type whose equality is decided by an instance.
use Prim.Native.Nat.{ℕ}
use mathlib.Core.Logic.{ite}
use mathlib.Core.Bool.{Bool, true, false}
use mathlib.Core.List.{List}
use native.Mathlib.Decide.{ℕ_discrete}

pub record Eq {ℓ} (A : Type ℓ) : Type ℓ where
  pub discrete : Discrete A

infix 50 ◌==◌
abbrev pub ◌==◌ {ℓ} : {A : Type ℓ} ⦃e : Eq A⦄ → A → A → Bool
◌==◌ ⦃e⦄ a b = ite (e.discrete a b) true false

-- `Vec<u8>`: bytes are numbers, and nothing in the pallet computes with them.
abbrev pub Bytes : Type 0
Bytes = List ℕ

Bytes-discrete : Discrete Bytes
unfolding ℕ_discrete
Bytes-discrete = hlevel ℕ_discrete

instance unfoldable pub bytes_eq : Eq Bytes
unfolding Bytes-discrete
bytes_eq = record { discrete = Bytes-discrete }

instance unfoldable pub nat_eq : Eq ℕ
unfolding ℕ_discrete
nat_eq = record { discrete = ℕ_discrete }
