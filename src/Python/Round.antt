-- ===== src/Python/Round.antt =====
-- Python's `round(a / b)` for naturals. The program rounds quotients a / b with a < 2^24 and b < 2^16.
-- Such a double is a half exactly when the quotient is one, and otherwise lies on the same side of it,
-- since a quotient that is no half is at least 1 / 2^17 away from one: so the exact quotient decides.
use native.Mathlib.Nat.{div-add-mod, mod-lt}
use linker.Prelude.{
  ℕ, ◌+◌, ◌*◌, ◌/◌, ◌%◌, ◌≤◌, ◌<◌, ◌≡◌, arith, ltb, nat_eq, if◌then◌else◌, ◌⊎◌, inl, inr,
}

-- The quotient `q` with twice the remainder: rounded to the nearest integer, and a half to the even one.
nearest : ℕ → ℕ → ℕ → ℕ
nearest q twice b =
    if ltb twice b then q else if ltb b twice then q + 1 else if nat_eq (q % 2) 0 then q else q + 1

unfoldable pub round_div : ℕ → ℕ → ℕ
unfolding nearest
round_div a b = nearest (a / b) (2 * (a % b)) b

nearest-cases :
    (q twice b : ℕ)
    → ((nearest q twice b ≡ q) × (twice ≤ b)) ⊎ ((nearest q twice b ≡ q + 1) × (b ≤ twice))
unfolding nearest
nearest-cases q twice b = ground arith

-- The result is off by half a unit at most.
pub round_div_near :
    (a b : ℕ)
    → 0 < b
    → (2 * (b * round_div a b) ≤ 2 * a + b) × (2 * a ≤ 2 * (b * round_div a b) + b)
unfolding round_div
round_div_near a b h = elim (nearest-cases (a / b) (2 * (a % b)) b) [
  | inl (e, t) ↦ rw e (omega (arith, div-add-mod a b, mod-lt a h))
  | inr (e, t) ↦ rw e (omega (arith, div-add-mod a b, mod-lt a h))
]

pub lt_of_mul-lt : (b u v : ℕ) → b * u < b * v + b → u ≤ v
lt_of_mul-lt b u v h = grind arith

-- An integer that is less than half a unit away is the result.
pub round_div_unique :
    (a b v : ℕ) → 2 * (b * v) < 2 * a + b → 2 * a < 2 * (b * v) + b → round_div a b ≡ v
round_div_unique a b v above below =
    let near = round_div_near a b (omega arith) in
    omega (
      arith,
      lt_of_mul-lt b (round_div a b) v (omega (arith, near.0)),
      lt_of_mul-lt b v (round_div a b) (omega (arith, near.1)),
    )
