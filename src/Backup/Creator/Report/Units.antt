-- ===== src/Backup/Creator/Report/Units.antt =====
-- The unit of a size.
use ib.Prelude.{
  ℕ, zero, suc, ◌+◌, ◌/◌, ◌^◌, ◌≤◌, ◌<◌, ◌≡◌, refl, inl, inr, Str, codes, ◌∷◌, ◌++◌, some,
  get_elem?, ltb, arith, Bool-cases,
}
use ib.Backup.Creator.Report.{size_loop, units, format_bytes}

-- Where the loop ends.
abbrev Ends : ℕ → ℕ → Type 0
Ends b exp =
    (size_loop 7 (b / 1024) 1024 0 ≡ some (1024 ^ (exp + 1), exp))
    × (1024 ^ (exp + 1) ≤ b)
    × (b < 1024 ^ (exp + 2))

size_loop-Ends : (b : ℕ) → 1024 ≤ b → b < 2 ^ 63 → (exp : ℕ) × (exp ≤ 5) × Ends b exp
unfolding size_loop
size_loop-Ends b h k = elim (Bool-cases (ltb b (1024 ^ 2))) [
  | inl t ↦ (0, omega arith, ground (arith, t, h))
  | inr t ↦ elim (Bool-cases (ltb b (1024 ^ 3))) [
    | inl u ↦ (1, omega arith, ground (arith, t, u))
    | inr u ↦ elim (Bool-cases (ltb b (1024 ^ 4))) [
      | inl v ↦ (2, omega arith, ground (arith, u, v))
      | inr v ↦ elim (Bool-cases (ltb b (1024 ^ 5))) [
        | inl w ↦ (3, omega arith, ground (arith, v, w))
        | inr w ↦ elim (Bool-cases (ltb b (1024 ^ 6))) [
          | inl x ↦ (4, omega arith, ground (arith, w, x))
          | inr x ↦ (5, omega arith, ground (arith, x, k))
        ]
      ]
    ]
  ]
]

unit_at : (exp : ℕ) → exp ≤ 5 → (c : ℕ) × (get_elem? units exp ≡ some c)
unit_at zero h = (b'K', refl)
unit_at (suc zero) h = (b'M', refl)
unit_at (suc (suc zero)) h = (b'G', refl)
unit_at (suc (suc (suc zero))) h = (b'T', refl)
unit_at (suc (suc (suc (suc zero)))) h = (b'P', refl)
unit_at (suc (suc (suc (suc (suc zero))))) h = (b'E', refl)
unit_at (suc (suc (suc (suc (suc (suc n)))))) h = absurd (omega (arith, h))

-- For every int64 from 1024 on, the loop of formatBytes ends within its rounds and the divisor
-- does not overflow: it is the power of 1024 that the number is at least, while the number is below
-- the next power. The unit's index is in range, and the result is the quotient with this unit.
pub format_bytes_lem :
    (ratio : ℕ → ℕ → Str) (b : ℕ)
    → 1024 ≤ b
    → b < 2 ^ 63
    → (exp : ℕ) × (c : ℕ) × (get_elem? units exp ≡ some c)
      × (1024 ^ (exp + 1) ≤ b)
      × (b < 1024 ^ (exp + 2))
      × (format_bytes ratio b ≡ some (ratio b (1024 ^ (exp + 1)) ++ (b' ' ∷ c ∷ codes "B")))
unfolding format_bytes
format_bytes_lem ratio b h k =
    let (exp, small, (ends, low, high)) = size_loop-Ends b h k in
    let (c, named) = unit_at exp small in (exp, c, named, low, high, ground (arith, ends, named))
