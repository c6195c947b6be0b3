-- ===== src/Offchain/Text.antt =====
-- Rust strings by their bytes: literals, and the check of `String::from_utf8`.
use Prim.Native.Char.{code}
use Prim.Native.String.{String}
use substrate_demo.Prelude.{
  ℕ, zero, suc, ◌≡◌, refl, Bool, true, false, ◌&&◌, Option, none, some, [], ◌∷◌, Bytes, leb,
  if◌then◌else◌,
}

abbrev pub str : String → Bytes
str String.[] = []
str (String.◌∷◌ c s) = code c ∷ str s

-- What the next byte of a text has to be: the start of a character, or a continuation byte in a
-- range, after which so many more continuation bytes follow.
pub data Expect : Type 0 where
  start : Expect
  tail : ℕ → ℕ → ℕ → Expect

abbrev within : ℕ → ℕ → ℕ → Bool
within lo hi b = leb lo b && leb b hi

abbrev rest_of : ℕ → Expect
rest_of zero = start
rest_of (suc n) = tail 0x80 0xbf n

-- The table of well-formed sequences of the Unicode standard.
abbrev step : Expect → ℕ → Option Expect
step start b =
    if leb b 0x7f
    then some start
    else if within 0xc2 0xdf b
    then some (tail 0x80 0xbf 0)
    else if within 0xe0 0xe0 b
    then some (tail 0xa0 0xbf 1)
    else if within 0xed 0xed b
    then some (tail 0x80 0x9f 1)
    else if within 0xe1 0xef b
    then some (tail 0x80 0xbf 1)
    else if within 0xf0 0xf0 b
    then some (tail 0x90 0xbf 2)
    else if within 0xf1 0xf3 b
    then some (tail 0x80 0xbf 2)
    else if within 0xf4 0xf4 b
    then some (tail 0x80 0x8f 2)
    else none
step (tail lo hi n) b = if within lo hi b then some (rest_of n) else none

scan : Expect → Bytes → Bool
scan start [] = true
scan (tail _ _ _) [] = false
scan e (b ∷ bs) = elim (step e b) [ none ↦ false | some e' ↦ scan e' bs ]

-- `String::from_utf8`: the same bytes as a text, if they are well formed.
unfoldable pub from_utf8 : Bytes → Option Bytes
unfolding scan
from_utf8 bs = if scan start bs then some bs else none

from_utf8_euro : from_utf8 (0xe2 ∷ 0x82 ∷ 0xac ∷ []) ≡ some (0xe2 ∷ 0x82 ∷ 0xac ∷ [])
unfolding from_utf8
from_utf8_euro = refl

from_utf8_broken : from_utf8 (0x61 ∷ 0xc3 ∷ []) ≡ none
unfolding from_utf8
from_utf8_broken = refl
