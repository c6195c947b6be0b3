-- ===== src/Prelude/StorageMap.antt =====
-- `StorageMap` of `frame_support`, as the pallet uses it: a finite map by its lookups.
use mathlib.Core.Bool.{Bool}
use mathlib.Core.Option.{Option, none, some}
use substrate_demo.Prelude.Tests.{if◌then◌else◌, is_some}
use substrate_demo.Prelude.Equality.{Eq, ◌==◌}

abbrev pub StorageMap : Type 0 → Type 0 → Type 0
StorageMap K V = K → Option V

module _ {K V : Type 0} where
  abbrev pub empty : StorageMap K V
  empty _ = none

  abbrev pub contains_key : K → StorageMap K V → Bool
  contains_key k m = is_some (m k)

  -- `get` of a map declared with a plain value: a missing key reads as the default.
  abbrev pub get_or : V → K → StorageMap K V → V
  get_or d k m = elim (m k) [ none ↦ d | some v ↦ v ]

module _ {K V : Type 0} ⦃e : Eq K⦄ where
  abbrev pub insert : K → V → StorageMap K V → StorageMap K V
  insert k v m j = if j == k then some v else m j

  abbrev pub remove : K → StorageMap K V → StorageMap K V
  remove k m j = if j == k then none else m j
