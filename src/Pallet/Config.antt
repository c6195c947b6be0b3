-- ===== src/Pallet/Config.antt =====
-- `trait Trait`, and what the pallet takes from the crates that it calls: accounts and their
-- codec, origins, the reservable currency, randomness and the uuid text. None of these is in
-- the repository, so they are parameters, and `IsLawful` lists what their documentation promises.
use substrate_demo.Prelude.{
  ℕ, ◌+◌, ◌-◌, ◌<◌, ◌≡◌, ◌≢◌, ◌⊎◌, Bool, Option, some, Bytes, Eq, ◌==◌, Result, ok, err,
  if◌then◌else◌,
}
use substrate_demo.Pallet.Types.{Error}

pub record Trait : Type 1 where
  pub AccountId : Type 0
  pub account_eq : Eq AccountId
  pub default_account : AccountId
  -- `codec::Encode` and `codec::Decode` of an account
  pub encode : AccountId → Bytes
  pub decode : Bytes → Option AccountId
  -- `dispatch::DispatchError`, and the conversion that `decl_error!` generates
  pub DispatchError : Type 0
  pub from_error : Error → DispatchError
  -- `frame_system`
  pub Origin : Type 0
  pub signed : AccountId → Origin
  pub ensure_signed : Origin → Result DispatchError AccountId
  -- `type Currency: ReservableCurrency`. An account that is left with less than `minimum_balance` in
  -- all may be removed with what it holds.
  pub Balances : Type 0
  pub minimum_balance : ℕ
  pub free_balance : Balances → AccountId → ℕ
  pub reserved_balance : Balances → AccountId → ℕ
  pub reserve : AccountId → ℕ → Balances → Result DispatchError (Unit {0}) × Balances
  pub unreserve : AccountId → ℕ → Balances → ℕ × Balances
  -- `repatriate_reserved(slashed, beneficiary, value, BalanceStatus::Free)`: what could not be moved
  pub repatriate_reserved : AccountId → AccountId → ℕ → Balances → Result DispatchError ℕ × Balances
  -- `using_encoded` of the payload of `generate_errand_id`, `blake2_128`, and the uuid crate
  pub encode_payload : Bytes → AccountId → Option ℕ → Bytes
  pub blake2_128 : Bytes → Bytes
  pub Uuid : Type 0
  pub uuid_from_bytes : Bytes → Uuid
  pub uuid_set_rfc4122 : Uuid → Uuid
  pub uuid_set_random : Uuid → Uuid
  pub uuid_encode_lower : Uuid → Bytes

-- `==` of accounts.
abbrev pub same : (T : Trait) → T.AccountId → T.AccountId → Bool
same T = ◌==◌ ⦃e = T.account_eq⦄

module _ (T : Trait) (a d : T.AccountId) (v rest : ℕ) (b b' : T.Balances) where
  -- All of the value but the rest has gone from what the payer `a` has reserved to what the payee `d`
  -- has free, and nothing else has changed.
  pub record IsMoved : Type 0 where
    pub free_moved :
        (x : T.AccountId)
        → T.free_balance b' x
          ≡ (if same T x d then T.free_balance b x + (v - rest) else T.free_balance b x)
    pub reserved_moved :
        (x : T.AccountId)
        → T.reserved_balance b' x
          ≡ (if same T x a then T.reserved_balance b x - (v - rest) else T.reserved_balance b x)

  -- The payee has got the same, and the payer, who is another account, would have been left with less
  -- than the minimum: it has been removed, and what was left is lost.
  pub record IsReaped : Type 0 where
    pub other : a ≢ d
    pub dust : T.free_balance b a + (T.reserved_balance b a - (v - rest)) < T.minimum_balance
    pub free_reaped :
        (x : T.AccountId)
        → T.free_balance b' x ≡ (
            if same T x a
            then 0
            else if same T x d
            then T.free_balance b x + (v - rest)
            else T.free_balance b x)
    pub reserved_reaped :
        (x : T.AccountId)
        → T.reserved_balance b' x ≡ (if same T x a then 0 else T.reserved_balance b x)

pub record IsLawful (T : Trait) : Type 0 where
  pub decode-encode : (a : T.AccountId) → T.decode (T.encode a) ≡ some a
  pub ensure_signed-signed : (a : T.AccountId) → T.ensure_signed (T.signed a) ≡ ok a
  -- A reservation that succeeds moves the value from free to reserved, for this account alone.
  pub reserve_free :
      (a x : T.AccountId) (v : ℕ) (b b' : T.Balances)
      → T.reserve a v b ≡ (ok tt, b')
      → T.free_balance b x ≡ (if same T x a then T.free_balance b' x + v else T.free_balance b' x)
  pub reserve_reserved :
      (a x : T.AccountId) (v : ℕ) (b b' : T.Balances)
      → T.reserve a v b ≡ (ok tt, b')
      → T.reserved_balance b' x
        ≡ (if same T x a then T.reserved_balance b x + v else T.reserved_balance b x)
  -- A reservation that fails changes nothing.
  pub reserve_failed :
      (a : T.AccountId) (v : ℕ) (b b' : T.Balances) (e : T.DispatchError)
      → T.reserve a v b ≡ (err e, b')
      → b' ≡ b
  -- What is reserved less than the value is released whole.
  pub unreserve_reserved :
      (a x : T.AccountId) (v : ℕ) (b : T.Balances)
      → T.reserved_balance (T.unreserve a v b).1 x
        ≡ (if same T x a then T.reserved_balance b x - v else T.reserved_balance b x)
  pub repatriate_failed :
      (a d : T.AccountId) (v : ℕ) (b b' : T.Balances) (e : T.DispatchError)
      → T.repatriate_reserved a d v b ≡ (err e, b')
      → b' ≡ b
  -- A repatriation moves as much of the value as is reserved, and returns the rest of the value.
  pub repatriate_rest :
      (a d : T.AccountId) (v rest : ℕ) (b b' : T.Balances)
      → T.repatriate_reserved a d v b ≡ (ok rest, b')
      → rest ≡ v - T.reserved_balance b a
  -- The payer is kept, or removed.
  pub repatriate_moves :
      (a d : T.AccountId) (v rest : ℕ) (b b' : T.Balances)
      → T.repatriate_reserved a d v b ≡ (ok rest, b')
      → IsMoved T a d v rest b b' ⊎ IsReaped T a d v rest b b'
