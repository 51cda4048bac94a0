-- ===== src/Ipfs/Dag/Varint.antt =====
-- A varint is read back by a decoder that knows nothing of the encoder.
use Prim.Native.Nat.{bit_or}
use ib.Prelude.{
  ℕ, zero, suc, ◌+◌, ◌-◌, ◌*◌, ◌/◌, ◌%◌, ◌^◌, ◌<◌, ◌≡◌, refl, Bytes, [], ◌∷◌, ◌++◌, Bool, true,
  false, ap, Option, none, some, ltb, leb, ◌==◌, ==_iff, arith, append_assoc, if◌then◌else◌,
  Bool-cases, inl, inr,
}
use ib.Ipfs.Dag.{varint_loop, append_varint}

-- A byte below 128 ends the number, another adds 128 times the rest.
unfoldable pub read_varint : Bytes → Option (ℕ × Bytes)
read_varint [] = none
read_varint (b ∷ bs) =
    let more : Option (ℕ × Bytes) = elim (read_varint bs) [
      | none ↦ none
      | some (v, rest) ↦ some (b - 128 + 128 * v, rest)
    ] in
    if ltb b 128 then some (b, bs) else more

-- For the bytes below a bound, setting the high bit is what it is on numbers.
sets_high_bit : ℕ → Bool
sets_high_bit zero = true
sets_high_bit (suc byte) =
    let below = sets_high_bit byte in if bit_or byte 0x80 == byte % 128 + 128 then below else false

high_bit_below :
    (bound byte : ℕ)
    → byte < bound
    → sets_high_bit bound ≡ true
    → bit_or byte 0x80 ≡ byte % 128 + 128
unfolding sets_high_bit
high_bit_below (suc bound) byte under holds = ground (
  arith,
  ==_iff (bit_or bound 0x80) (bound % 128 + 128),
  high_bit_below bound byte,
  ap (λ n. bit_or n 0x80) {x = byte} {y = bound},
)
high_bit_below zero byte under holds = absurd (omega arith)

high_bit : (x : ℕ) → x < 256 → bit_or x 0x80 ≡ x % 128 + 128
unfolding sets_high_bit
high_bit x h = high_bit_below 256 x h refl

pub varint_loop-append :
    (fuel : ℕ) (buf : Bytes) (v : ℕ) → varint_loop fuel buf v ≡ buf ++ varint_loop fuel [] v
unfolding varint_loop
varint_loop-append zero buf v = refl
varint_loop-append (suc fuel) buf v =
    let x : Bytes = bit_or (v % 256) 0x80 ∷ [] in
    ground (
      arith,
      varint_loop-append fuel (buf ++ x) (v / 2 ^ 7),
      varint_loop-append fuel x (v / 2 ^ 7),
      append_assoc buf x (varint_loop fuel [] (v / 2 ^ 7)),
    )

read_varint_loop :
    (fuel v : ℕ) (rest : Bytes)
    → v < 128 ^ suc fuel
    → read_varint (varint_loop fuel [] v ++ rest) ≡ some (v, rest)
unfolding varint_loop read_varint
read_varint_loop zero v rest h = ground arith
read_varint_loop (suc fuel) v rest h = elim (Bool-cases (leb 0x80 v)) [
  | inr t ↦ ground (arith, t)
  | inl t ↦ ground (
    arith,
    t,
    varint_loop-append fuel (bit_or (v % 256) 0x80 ∷ []) (v / 2 ^ 7),
    high_bit (v % 256) (omega arith),
    read_varint_loop fuel (v / 2 ^ 7) rest (omega arith),
  )
]

-- Every uint64 that appendVarint writes is read back, with what follows it left over.
pub read_varint-append_varint :
    (v : ℕ) (rest : Bytes) → v < 2 ^ 64 → read_varint (append_varint [] v ++ rest) ≡ some (v, rest)
unfolding append_varint
read_varint-append_varint v rest h = read_varint_loop 9 v rest (omega arith)

-- appendVarint keeps what the buffer held.
pub append_varint-append : (buf : Bytes) (v : ℕ) → append_varint buf v ≡ buf ++ append_varint [] v
unfolding append_varint
append_varint-append buf v = varint_loop-append 9 buf v
