-- ===== src/Runtime/Constants.antt =====
-- The constants of runtime/src/lib.rs: its version, the measure of time by blocks, and the limits of
-- a block.
use substrate_demo.Prelude.{ℕ, ◌+◌, ◌*◌, ◌^◌, ◌/◌, ◌%◌, ◌≤◌, ◌≡◌, subst, Bytes, arith}
use substrate_demo.Offchain.Text.{str}

-- `RuntimeVersion`: the versions of the runtime's interfaces are collected by a macro.
pub record RuntimeVersion (Apis : Type 0) : Type 0 where
  pub spec_name : Bytes
  pub impl_name : Bytes
  pub authoring_version : ℕ
  pub spec_version : ℕ
  pub impl_version : ℕ
  pub apis : Apis
  pub transaction_version : ℕ

pub record NativeVersion (Apis Authorship : Type 0) : Type 0 where
  pub runtime_version : RuntimeVersion Apis
  pub can_author_with : Authorship

abbrev pub version : {Apis : Type 0} → Apis → RuntimeVersion Apis
version runtime_api_versions = record {
  spec_name = str "node-template";
  impl_name = str "node-template";
  authoring_version = 1;
  spec_version = 1;
  impl_version = 1;
  apis = runtime_api_versions;
  transaction_version = 1;
}

-- The versions to author with are those of the default.
abbrev native_version :
    {Apis Authorship : Type 0} → Apis → Authorship → NativeVersion Apis Authorship
native_version runtime_api_versions default = record {
  runtime_version = version runtime_api_versions;
  can_author_with = default;
}

abbrev pub millisecs_per_block : ℕ
millisecs_per_block = 6000

abbrev slot_duration : ℕ
slot_duration = millisecs_per_block

-- `as BlockNumber`
abbrev as_u32 : ℕ → ℕ
as_u32 n = n % 2 ^ 32

unfoldable pub minutes : ℕ
minutes = 60000 / as_u32 millisecs_per_block

unfoldable hours : ℕ
hours = minutes * 60

unfoldable days : ℕ
days = hours * 24

abbrev minimum_period : ℕ
minimum_period = slot_duration / 2

abbrev maximum_block_length : ℕ
maximum_block_length = 5 * 1024 * 1024

abbrev existential_deposit : ℕ
existential_deposit = 500

abbrev max_locks : ℕ
max_locks = 50

abbrev transaction_byte_fee : ℕ
transaction_byte_fee = 1

-- `Perbill` of `sp_arithmetic`, a number of billionths, and the weight of a second.
pub record Fractions : Type 1 where
  pub Perbill : Type 0
  pub parts : Perbill → ℕ
  pub from_percent : ℕ → Perbill
  pub saturating_sub : Perbill → Perbill → Perbill
  pub times : Perbill → ℕ → ℕ
  pub weight_per_second : ℕ

-- A product is rounded to the nearest number.
pub record IsLawfulFractions (F : Fractions) : Type 0 where
  pub parts-from_percent : (p : ℕ) → p ≤ 100 → F.parts (F.from_percent p) ≡ p * 10 ^ 7
  pub parts-saturating_sub :
      (p q : F.Perbill)
      → F.parts q ≤ F.parts p
      → F.parts (F.saturating_sub p q) + F.parts q ≡ F.parts p
  pub times_le : (p : F.Perbill) (w : ℕ) → 2 * (10 ^ 9 * F.times p w) ≤ 2 * (F.parts p * w) + 10 ^ 9
  pub times_ge : (p : F.Perbill) (w : ℕ) → 2 * (F.parts p * w) ≤ 2 * (10 ^ 9 * F.times p w) + 10 ^ 9

module _ (F : Fractions) where
  unfoldable pub maximum_block_weight : ℕ
  maximum_block_weight = 2 * F.weight_per_second

  unfoldable pub available_block_ratio : F.Perbill
  available_block_ratio = F.from_percent 75

  unfoldable pub maximum_extrinsic_weight : ℕ
  maximum_extrinsic_weight =
      F.times (F.saturating_sub available_block_ratio (F.from_percent 10)) maximum_block_weight

  -- When a fraction is a number of billionths and products with it are rounded to the nearest
  -- number, a normal extrinsic may weigh 65 of 100 parts of the weight of a block, up to this
  -- rounding: with the tenth that is kept for the start of a block, it stays within the part that is
  -- available to normal transactions.
  pub maximum_extrinsic_weight-maximum_block_weight :
      IsLawfulFractions F
      → (100 * maximum_extrinsic_weight ≤ 65 * maximum_block_weight + 50)
        × (65 * maximum_block_weight ≤ 100 * maximum_extrinsic_weight + 50)
        × (1000 * maximum_extrinsic_weight + 100 * maximum_block_weight
            ≤ 750 * maximum_block_weight + 500)
  unfolding maximum_extrinsic_weight available_block_ratio
  maximum_extrinsic_weight-maximum_block_weight law =
      let p = F.saturating_sub available_block_ratio (F.from_percent 10) in
      let seventy_five = law.parts-from_percent 75 (omega arith) in
      let ten = law.parts-from_percent 10 (omega arith) in
      let left =
        law.parts-saturating_sub available_block_ratio (F.from_percent 10)
          (omega (arith, seventy_five, ten)) in
      let q : F.parts p ≡ 650000000 = omega (arith, left, seventy_five, ten) in
      let w = maximum_block_weight in
      let t = F.times p w in
      let above = subst (λ k. 2 * (10 ^ 9 * t) ≤ 2 * (k * w) + 10 ^ 9) q (law.times_le p w) in
      let below = subst (λ k. 2 * (k * w) ≤ 2 * (10 ^ 9 * t) + 10 ^ 9) q (law.times_ge p w) in
      (omega (arith, above), omega (arith, below), omega (arith, above))
