-- ===== src/Runtime/Transaction.antt =====
-- `create_transaction` of runtime/src/lib.rs, with which the off-chain worker's calls are signed.
use substrate_demo.Prelude.{
  ℕ, ◌-◌, ◌^◌, ◌≡◌, ap, Option, Option-cases, inl, inr, none, some, Bytes, arith, leb,
  if◌then◌else◌,
}
use substrate_demo.Pallet.Types.{AccountId32}

-- What the framework and the crypto of the caller give: eras, payloads and signatures.
pub record Signing : Type 1 where
  pub Call : Type 0
  pub Era : Type 0
  pub mortal : ℕ → ℕ → Era
  pub Public : Type 0
  pub Signature : Type 0
  pub sign : Bytes → Public → Option Signature

-- `SignedExtra`, less the checks that carry no data.
pub record SignedExtra (S : Signing) : Type 0 where
  pub check_era : S.Era
  pub check_nonce : ℕ
  pub charge_transaction_payment : ℕ

-- `generic::SignedPayload`: `new` fails when the additional data of a check cannot be had.
pub record SignedPayload (S : Signing) : Type 1 where
  pub Payload : Type 0
  pub new : S.Call → SignedExtra S → Option Payload
  pub encoded : Payload → Bytes
  pub deconstruct : Payload → S.Call × SignedExtra S

-- `deconstruct` gives back what `new` was given.
pub record IsLawfulPayload {S : Signing} (P : SignedPayload S) : Type 0 where
  pub deconstruct-new :
      (c : S.Call) (e : SignedExtra S) (p : P.Payload)
      → P.new c e ≡ some p
      → P.deconstruct p ≡ (c, e)

abbrev pub block_hash_count : ℕ
block_hash_count = 2400

-- `saturated_into::<u64>`
abbrev pub saturated_into_u64 : ℕ → ℕ
saturated_into_u64 n = if leb n (2 ^ 64 - 1) then n else 2 ^ 64 - 1

module _ {S : Signing} (P : SignedPayload S) where
  unfoldable pub create_transaction :
      ℕ
      → S.Call
      → S.Public
      → AccountId32
      → ℕ
      → Option (S.Call × AccountId32 × S.Signature × SignedExtra S)
  create_transaction block_number call public account index =
      let period = block_hash_count in
      let current_block = saturated_into_u64 block_number - 1 in
      let tip : ℕ = 0 in
      let extra : SignedExtra S = record {
        check_era = S.mortal period current_block;
        check_nonce = index;
        charge_transaction_payment = tip;
      } in
      elim (P.new call extra) [
        | none ↦ none
        | some raw_payload ↦ elim (S.sign (P.encoded raw_payload) public) [
          | none ↦ none
          | some signature ↦
              let (call', extra') = P.deconstruct raw_payload in
              some (call', account, signature, extra')
        ]
      ]

  -- A transaction that is created carries the call, the account and the nonce that were given and no
  -- tip, is mortal from the block before the current one on, and its signature is the one made by
  -- the public key over the payload of just this call and these extras.
  pub create_transaction_signed :
      IsLawfulPayload P
      → (block_number : ℕ) (call : S.Call) (public : S.Public) (account : AccountId32) (index : ℕ)
        {call' : S.Call} {address : AccountId32} {signature : S.Signature} {extra : SignedExtra S}
      → create_transaction block_number call public account index
        ≡ some (call', address, signature, extra)
      → (call' ≡ call)
        × (address ≡ account)
        × (extra.check_nonce ≡ index)
        × (extra.charge_transaction_payment ≡ 0)
        × (extra.check_era ≡ S.mortal block_hash_count (saturated_into_u64 block_number - 1))
        × (payload : P.Payload) × (P.new call' extra ≡ some payload)
        × (S.sign (P.encoded payload) public ≡ some signature)
  unfolding create_transaction
  create_transaction_signed law block_number call public account index {call'} {address} {signature}
        {extra} made =
      let given : SignedExtra S = record {
        check_era = S.mortal block_hash_count (saturated_into_u64 block_number - 1);
        check_nonce = index;
        charge_transaction_payment = 0;
      } in
      elim (Option-cases (P.new call given)) [
        | inl failed ↦ absurd (ground (arith, made, failed))
        | inr (payload, new) ↦ elim (Option-cases (S.sign (P.encoded payload) public)) [
          | inl failed ↦ absurd (ground (arith, made, new, failed))
          | inr (_, signed) ↦
              let back = law.deconstruct-new call given payload new in
              let e : extra ≡ given = ground (arith, made, new, signed, back) in
              let c : call' ≡ call = ground (arith, made, new, signed, back) in
              (
                c,
                ground (arith, made, new, signed, back),
                ap (λ x. x.check_nonce) e,
                ap (λ x. x.charge_transaction_payment) e,
                ap (λ x. x.check_era) e,
                payload,
                rw (c, e) new,
                ground (arith, made, new, signed, back),
              )
        ]
      ]
