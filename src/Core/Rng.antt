-- ===== src/Core/Rng.antt =====
-- packages/core/src/rng.ts: the deterministic generator, with the state explicit.
pub mod Words
pub mod Draws
use sandboxengine.Prelude.{
  ℕ, ◌+◌, ◌-◌, ◌*◌, ◌/◌, ◌%◌, Bool, true, false, ◌&&◌, Option, none, some, List, [], ◌∷◌, leb, ltb,
  length, if◌then◌else◌,
}
use sandboxengine.Prelude.Int.{
  ℤ, pos, negsuc, pos_part, sub_ℕ, ◌+ℤ◌, leb_ℤ, eqb_ℤ, is_safe_integer, max_safe_integer,
}
use sandboxengine.Prelude.Text.{Text, lit, text_eq}
use sandboxengine.Prelude.Results.{Result, ok, err}

-- DETERMINISTIC_RNG_ALGORITHM
abbrev pub algorithm_name : Text
algorithm_name = lit "lh-lcg32-v1"

-- UINT32_MAX and UINT32_MAX + 1
abbrev pub uint32_max : ℕ
uint32_max = 0xffffffff

abbrev pub uint32_values : ℕ
uint32_values = 0x100000000

pub record DeterministicRngState : Type 0 where
  pub algorithm : Text
  pub seed : ℤ
  pub stream_id : Text
  pub state : ℤ
  pub draw_index : ℤ

pub record DeterministicRngProvenance : Type 0 where
  pub algorithm : Text
  pub seed : ℤ
  pub stream_id : Text
  pub draw_index : ℤ
  pub raw_uint32 : ℤ
  pub max_exclusive : ℤ
  pub value : ℤ

pub record Draw : Type 0 where
  pub state : DeterministicRngState
  pub provenance : DeterministicRngProvenance

pub data DrawFailureCode : Type 0 where
  invalid_state invalid_bound draw_index_overflow : DrawFailureCode

-- isUint32
abbrev pub is_uint32 : ℤ → Bool
is_uint32 (pos n) = leb n uint32_max
is_uint32 (negsuc n) = false

-- 1 to 200 code units
unfoldable pub is_stream_id : Text → Bool
is_stream_id s = leb 1 (length s) && leb (length s) 200

unfoldable pub create_deterministic_rng_state : ℤ → Text → Option DeterministicRngState
create_deterministic_rng_state seed stream_id =
    if is_uint32 seed && is_stream_id stream_id
    then some (record {
      algorithm = algorithm_name;
      seed = seed;
      stream_id = stream_id;
      state = seed;
      draw_index = pos 0;
    })
    else none

-- isValidState
unfoldable pub is_valid_state : DeterministicRngState → Bool
is_valid_state r =
    text_eq r.algorithm algorithm_name
    && is_uint32 r.seed
    && is_stream_id r.stream_id
    && is_uint32 r.state
    && is_safe_integer r.draw_index
    && leb_ℤ (pos 0) r.draw_index

-- ToUint32, which is also what `>>> 0` returns
unfoldable pub to_uint32 : ℤ → ℕ
to_uint32 (pos n) = n % uint32_values
to_uint32 (negsuc n) = uint32_max - n % uint32_values

-- ToInt32, of a number that ToUint32 has read
unfoldable pub to_int32 : ℕ → ℤ
to_int32 u = if ltb u 0x80000000 then pos u else negsuc (uint32_max - u)

-- Math.imul
unfoldable pub imul : ℤ → ℤ → ℤ
imul a b = to_int32 (to_uint32 a * to_uint32 b % uint32_values)

-- (Math.imul(state, 1_664_525) + 1_013_904_223) >>> 0
unfoldable pub next_raw : ℤ → ℕ
next_raw s = to_uint32 (imul s (pos 1664525) +ℤ pos 1013904223)

-- Number((BigInt(raw) * BigInt(maxExclusive)) >> 32n), for a bound that is positive
abbrev pub scale : ℕ → ℤ → ℕ
scale raw bound = raw * pos_part bound / uint32_values

abbrev pub is_bound : ℤ → Bool
is_bound b = is_safe_integer b && leb_ℤ (pos 1) b && leb_ℤ b (pos uint32_values)

abbrev pub draw_from : DeterministicRngState → ℤ → ℕ → Draw
draw_from rng bound raw = record {
  state = record {
    algorithm = algorithm_name;
    seed = rng.seed;
    stream_id = rng.stream_id;
    state = pos raw;
    draw_index = rng.draw_index +ℤ pos 1;
  };
  provenance = record {
    algorithm = algorithm_name;
    seed = rng.seed;
    stream_id = rng.stream_id;
    draw_index = rng.draw_index;
    raw_uint32 = pos raw;
    max_exclusive = bound;
    value = pos (scale raw bound);
  };
}

unfoldable pub draw_deterministic_int : DeterministicRngState → ℤ → Result DrawFailureCode Draw
draw_deterministic_int rng bound =
    if is_valid_state rng
    then (if is_bound bound
        then (if eqb_ℤ rng.draw_index (pos max_safe_integer)
            then err draw_index_overflow
            else ok (draw_from rng bound (next_raw rng.state)))
        else err invalid_bound)
    else err invalid_state

-- A run of draws, one for each bound, as a caller makes them by passing the state on.
unfoldable pub draw_all :
    DeterministicRngState → List ℤ → Result DrawFailureCode (List ℤ × DeterministicRngState)
draw_all rng [] = ok ([], rng)
draw_all rng (b ∷ bs) = elim (draw_deterministic_int rng b) [
  | err e ↦ err e
  | ok d ↦ elim (draw_all d.state bs) [
    | err e ↦ err e
    | ok (vs, end) ↦ ok (d.provenance.value ∷ vs, end)
  ]
]
