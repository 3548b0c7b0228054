-- ===== src/Core/Actions/Units.antt =====
-- The number of units of a paint action, from the floored quotient of actions.ts.
use native.Mathlib.Nat.{le-div_iff_mul-le, lt-div-mul-add, div-lt_iff_lt-mul}
use sandboxengine.Prelude.{
  ℕ, ◌+◌, ◌*◌, ◌/◌, ◌≤◌, ◌<◌, min, ◌≡◌, refl, Bool, true, false, not, ◌&&◌, ◌||◌, leb, ltb, inl,
  inr, ◌⊎◌, Bool-cases, arith,
}

-- The number of units, from the number that the resource allows.
pub units_done :
    (avail per requested possible : ℕ) (allowed : Bool)
    → 0 < per
    → 1 ≤ requested
    → possible ≡ avail / per
    → (leb possible 0 || not allowed && ltb possible requested) ≡ false
    → (1 ≤ min requested possible)
      × (min requested possible ≤ requested)
      × (min requested possible * per ≤ avail)
      × ((min requested possible ≡ requested)
          ⊎ (allowed ≡ true)
            × (min requested possible < requested)
            × (avail < min requested possible * per + per))
units_done avail per requested possible allowed p q e h =
    elim (Bool-cases (ltb possible requested)) [
      | inl less ↦
          let same : min requested possible ≡ possible = ground arith in
          let fits : possible * per ≤ avail = (le-div_iff_mul-le p).0 (omega (arith, e)) in
          let all_of_it : avail < possible * per + per = rw e (lt-div-mul-add p) in
          rw same (ground arith, ground arith, fits, inr (ground arith, ground arith, all_of_it))
      | inr enough ↦
          let same : min requested possible ≡ requested = ground arith in
          let fits : requested * per ≤ avail = (le-div_iff_mul-le p).0 (ground (arith, e)) in
          rw same (q, omega arith, fits, inl refl)
    ]

pub units_blocked :
    (avail per requested possible : ℕ) (allowed : Bool)
    → 0 < per
    → possible ≡ avail / per
    → (leb possible 0 || not allowed && ltb possible requested) ≡ true
    → (avail < per) ⊎ (allowed ≡ false) × (avail < requested * per)
units_blocked avail per requested possible allowed p e h = elim (Bool-cases (leb possible 0)) [
  | inl none_possible ↦
      let small : avail < 1 * per = (div-lt_iff_lt-mul p).0 (ground (arith, e)) in
      inl (omega (arith, small))
  | inr more ↦
      let wanting : (allowed ≡ false) × (possible < requested) = ground arith in
      inr (wanting.0, (div-lt_iff_lt-mul p).0 (omega (arith, e, wanting.1)))
]
