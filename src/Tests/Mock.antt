-- ===== src/Tests/Mock.antt =====
-- A configuration in the manner of pallets/abc-demo/src/mock.rs: accounts are numbers with an
-- encoding of 32 bytes, and the currency keeps a free and a reserved balance for each account.
use mathlib.Core.Option
use substrate_demo.Prelude.{
  ℕ, ◌+◌, ◌-◌, refl, Option, none, some, [], ◌∷◌, ◌++◌, Bytes, nat_eq, ◌==◌, ltb, not, ◌&&◌, Bool,
  Bool-cases, inl, inr, ◌⊎◌, ◌≡◌, Result, ok, err, if◌then◌else◌, leb, eqb, length, arith,
}
use Prim.Native.Nat.{min}
use substrate_demo.Pallet.Types.{Error}
use substrate_demo.Pallet.Config.{Trait, IsLawful, IsMoved, IsReaped}

pub data DispatchError : Type 0 where
  bad_origin low_balance : DispatchError
  module_error : Error → DispatchError

pub data Origin : Type 0 where
  root : Origin
  signed_by : ℕ → Origin

abbrev pub ensure_signed : Origin → Result DispatchError ℕ
ensure_signed root = err bad_origin
ensure_signed (signed_by a) = ok a

pub record Purse : Type 0 where
  pub free : ℕ → ℕ
  pub reserved : ℕ → ℕ

abbrev update : ℕ → ℕ → (ℕ → ℕ) → ℕ → ℕ
update a v f x = if x == a then v else f x

abbrev reserve : ℕ → ℕ → Purse → Result DispatchError (Unit {0}) × Purse
reserve a v p =
    if leb v (p.free a)
    then (
      ok tt,
      record {
        free = update a (p.free a - v) p.free;
        reserved = update a (p.reserved a + v) p.reserved;
      },
    )
    else (err low_balance, p)

abbrev unreserve : ℕ → ℕ → Purse → ℕ × Purse
unreserve a v p =
    let moved = min v (p.reserved a) in
    (
      v - moved,
      record {
        free = update a (p.free a + moved) p.free;
        reserved = update a (p.reserved a - moved) p.reserved;
      },
    )

abbrev pub minimum_balance : ℕ
minimum_balance = 5

-- Whether the payment leaves the payer with less than the minimum.
abbrev reaps : ℕ → ℕ → ℕ → Purse → Bool
reaps a d moved p = not (a == d) && ltb (p.free a + (p.reserved a - moved)) minimum_balance

abbrev repatriate : ℕ → ℕ → ℕ → Purse → Result DispatchError ℕ × Purse
repatriate a d v p =
    let moved = min v (p.reserved a) in
    let free = update d (p.free d + moved) p.free in
    (
      ok (v - moved),
      (if reaps a d moved p
          then record { free = update a 0 free; reserved = update a 0 p.reserved }
          else record { free = free; reserved = update a (p.reserved a - moved) p.reserved }),
    )

abbrev padding : Bytes
padding =
    0 ∷ 0 ∷ 0 ∷ 0 ∷ 0 ∷ 0 ∷ 0 ∷ 0 ∷ 0 ∷ 0 ∷ 0 ∷ 0 ∷ 0 ∷ 0 ∷ 0 ∷ 0 ∷ 0 ∷ 0 ∷ 0 ∷ 0 ∷ 0 ∷ 0 ∷ 0 ∷ 0
    ∷ 0 ∷ 0 ∷ 0 ∷ 0 ∷ 0 ∷ 0 ∷ 0 ∷ []

abbrev decode : Bytes → Option ℕ
decode [] = none
decode (a ∷ rest) = if eqb (length rest) 31 then some a else none

abbrev pub mock : Trait
mock = record {
  AccountId = ℕ;
  account_eq = nat_eq;
  default_account = 0;
  encode = λ a. a ∷ padding;
  decode = decode;
  DispatchError = DispatchError;
  from_error = module_error;
  Origin = Origin;
  signed = signed_by;
  ensure_signed = ensure_signed;
  Balances = Purse;
  minimum_balance = minimum_balance;
  free_balance = λ p. p.free;
  reserved_balance = λ p. p.reserved;
  reserve = reserve;
  unreserve = unreserve;
  repatriate_reserved = repatriate;
  encode_payload = λ seed a i. seed ++ a ∷ Option.get_or (Option.map (λ n. n ∷ []) i) [];
  blake2_128 = λ b. b;
  Uuid = Bytes;
  uuid_from_bytes = λ b. b;
  uuid_set_rfc4122 = λ b. b;
  uuid_set_random = λ b. b;
  uuid_encode_lower = λ b. b;
}

repatriate_moves_lem :
    (a d : ℕ) (v rest : ℕ) (p p' : Purse)
    → repatriate a d v p ≡ (ok rest, p')
    → IsMoved mock a d v rest p p' ⊎ IsReaped mock a d v rest p p'
repatriate_moves_lem a d v rest p p' h = elim (Bool-cases (reaps a d (min v (p.reserved a)) p)) [
  | inl gone ↦ inr (record {
    other = λ e. ground (arith, gone, e);
    dust = ground (arith, h, gone);
    free_reaped = λ x. ground (arith, h, gone);
    reserved_reaped = λ x. ground (arith, h, gone);
  })
  | inr stays ↦ inl (record {
    free_moved = λ x. ground (arith, h, stays);
    reserved_moved = λ x. ground (arith, h, stays);
  })
]

-- The configuration keeps the promises.
pub mock-IsLawful : IsLawful mock
mock-IsLawful = record {
  decode-encode = λ a. refl;
  ensure_signed-signed = λ a. refl;
  reserve_free = λ a x v b b' h. ground arith;
  reserve_reserved = λ a x v b b' h. ground arith;
  reserve_failed = λ a v b b' e h. ground arith;
  unreserve_reserved = λ a x v b. ground arith;
  repatriate_failed = λ a d v b b' e h. ground arith;
  repatriate_rest = λ a d v rest b b' h. ground arith;
  repatriate_moves = repatriate_moves_lem;
}
