-- ===== src/Core/Rng/Words.antt =====
-- The word arithmetic of one draw: it is the linear congruential step, and it can be undone.
use native.Mathlib.Nat.{mul-le-mul_right, div-lt_iff_lt-mul, div-mul-le_self, lt-div-mul-add}
use sandboxengine.Prelude.{ℕ, ◌+◌, ◌-◌, ◌*◌, ◌/◌, ◌%◌, ◌≤◌, ◌<◌, ◌≡◌, refl, ap, ◌∙◌, sym, arith}
use sandboxengine.Prelude.Int.{pos, ◌+ℤ◌}
use sandboxengine.Core.Rng.{to_uint32, to_int32, imul, next_raw, uint32_values, scale}

-- The step of the generator on natural numbers.
abbrev pub lcg : ℕ → ℕ
lcg n = (1664525 * n + 1013904223) % uint32_values

to_uint32-to_int32-add :
    (u c : ℕ) → u < uint32_values → to_uint32 (to_int32 u +ℤ pos c) ≡ (u + c) % uint32_values
unfolding to_uint32 to_int32 ◌+ℤ◌
to_uint32-to_int32-add u c h = ground arith

imul_pos :
    (n c : ℕ)
    → imul (pos n) (pos c) ≡ to_int32 (n % uint32_values * (c % uint32_values) % uint32_values)
unfolding imul to_uint32
imul_pos n c = refl

-- The signed 32-bit product, the sum and the unsigned shift are the step modulo 2 ^ 32.
pub next_raw-lcg : (n : ℕ) → n < uint32_values → next_raw (pos n) ≡ lcg n
unfolding next_raw
next_raw-lcg n h =
    ap (λ z. to_uint32 (z +ℤ pos 1013904223)) (imul_pos n 1664525)
    ∙ to_uint32-to_int32-add (n % uint32_values * (1664525 % uint32_values) % uint32_values)
        1013904223 (omega arith)
    ∙ omega arith

pub lcg_lt : (n : ℕ) → lcg n < uint32_values
lcg_lt n = omega arith

-- The step before: 4276115653 inverts the multiplier modulo 2 ^ 32.
abbrev pub lcg_back : ℕ → ℕ
lcg_back r = 4276115653 * (r + 3281063073) % uint32_values

pub lcg_back-lcg : (n : ℕ) → n < uint32_values → lcg_back (lcg n) ≡ n
lcg_back-lcg n h = omega arith

pub lcg-lcg_back : (n : ℕ) → n < uint32_values → lcg (lcg_back n) ≡ n
lcg-lcg_back n h = omega arith

pub lcg-injective : (m n : ℕ) → m < uint32_values → n < uint32_values → lcg m ≡ lcg n → m ≡ n
lcg-injective m n h k e = sym (lcg_back-lcg m h) ∙ ap lcg_back e ∙ lcg_back-lcg n k

-- A draw is below its bound.
pub scale_lt : (r b : ℕ) → r < uint32_values → 0 < b → scale r (pos b) < b
scale_lt r b h k = omega (arith, mul-le-mul_right b h)

-- The least raw word whose draw is `v`.
abbrev pub raw_for : ℕ → ℕ → ℕ
raw_for b v = (v * uint32_values + b - 1) / b

pub scale-raw_for :
    (b v : ℕ)
    → v < b
    → b ≤ uint32_values
    → (raw_for b v < uint32_values) × (scale (raw_for b v) (pos b) ≡ v)
scale-raw_for b v h k =
    let positive : 0 < b = omega arith in
    (
      (div-lt_iff_lt-mul positive).1 (omega arith),
      omega (
        arith,
        div-mul-le_self (v * uint32_values + b - 1) b,
        lt-div-mul-add {a = v * uint32_values + b - 1} positive,
      ),
    )
