-- ===== src/Core/Rng/Draws.antt =====
-- What a draw returns, which draws succeed, and that the states of a stream never merge.
use sandboxengine.Prelude.{
  ℕ, ◌+◌, ◌≤◌, ◌<◌, ◌≡◌, refl, ap, ◌∙◌, sym, true, false, some, arith, Bool-cases, inl, inr, ◌↔◌,
}
use sandboxengine.Prelude.Int.{
  ℤ, pos, pos_part, ◌+ℤ◌, ◌≤ℤ◌, ◌<ℤ◌, max_safe_integer, eqb_ℤ, negsuc, pos_add, +ℤ_cancel_right,
}
use sandboxengine.Prelude.Text.{Text, text_eq_refl, text_eq_iff}
use sandboxengine.Prelude.Results.{ok, ok-injective}
use sandboxengine.Core.Rng.{
  DeterministicRngState, Draw, algorithm_name, is_stream_id, is_valid_state, is_bound,
  create_deterministic_rng_state, draw_deterministic_int, draw_from, next_raw, uint32_values, scale,
}
use sandboxengine.Core.Rng.Words.{
  lcg, lcg-injective, lcg_lt, next_raw-lcg, scale_lt, lcg_back, lcg-lcg_back, raw_for,
  scale-raw_for,
}

-- The state of a stream at a word and an index.
abbrev pub rng_at : ℕ → Text → ℕ → ℕ → DeterministicRngState
rng_at seed stream word index = record {
  algorithm = algorithm_name;
  seed = pos seed;
  stream_id = stream;
  state = pos word;
  draw_index = pos index;
}

-- A valid state is of that form, with its parts in range.
pub is_valid_state_parts :
    (r : DeterministicRngState)
    → is_valid_state r ≡ true
    → (seed : ℕ) × (word : ℕ) × (index : ℕ) × (r ≡ rng_at seed r.stream_id word index)
      × (seed < uint32_values)
      × (word < uint32_values)
      × (index ≤ max_safe_integer)
      × (is_stream_id r.stream_id ≡ true)
unfolding is_valid_state
is_valid_state_parts r h = (
  pos_part r.seed,
  pos_part r.state,
  pos_part r.draw_index,
  ground (arith, text_eq_iff r.algorithm algorithm_name),
  ground arith,
  ground arith,
  ground arith,
  ground arith,
)

is_valid_state-rng_at :
    (seed word index : ℕ) (stream : Text)
    → seed < uint32_values
    → word < uint32_values
    → index ≤ max_safe_integer
    → is_stream_id stream ≡ true
    → is_valid_state (rng_at seed stream word index) ≡ true
unfolding is_valid_state
is_valid_state-rng_at seed word index stream h k l m =
    rw (text_eq_refl algorithm_name) (ground arith)

-- A draw from a valid state that has a next index, for a bound from 1 to 2 ^ 32, succeeds.
draw-rng_at :
    (seed word index bound : ℕ) (stream : Text)
    → is_valid_state (rng_at seed stream word index) ≡ true
    → index < max_safe_integer
    → 1 ≤ bound
    → bound ≤ uint32_values
    → draw_deterministic_int (rng_at seed stream word index) (pos bound)
      ≡ ok (draw_from (rng_at seed stream word index) (pos bound) (next_raw (pos word)))
unfolding draw_deterministic_int
draw-rng_at seed word index bound stream v h k l = rw v (ground arith)

-- A successful draw, taken apart.
pub draw-ok :
    (rng : DeterministicRngState) (bound : ℤ) (d : Draw)
    → draw_deterministic_int rng bound ≡ ok d
    → (is_valid_state rng ≡ true)
      × (is_bound bound ≡ true)
      × (eqb_ℤ rng.draw_index (pos max_safe_integer) ≡ false)
      × (d ≡ draw_from rng bound (next_raw rng.state))
unfolding draw_deterministic_int
draw-ok rng bound d h = elim (Bool-cases (is_valid_state rng)) [
  | inr n ↦ let bad = rw (n, draw_deterministic_int) at h in cc
  | inl v ↦ elim (Bool-cases (is_bound bound)) [
    | inr n ↦ let bad = rw (v, n, draw_deterministic_int) at h in cc
    | inl b ↦ elim (Bool-cases (eqb_ℤ rng.draw_index (pos max_safe_integer))) [
      | inl e ↦ let bad = rw (v, b, e, draw_deterministic_int) at h in cc
      | inr e ↦ (v, b, e, sym (ok-injective (rw (v, b, e, draw_deterministic_int) at h)))
    ]
  ]
]

scale-in_range :
    (raw : ℕ) (bound : ℤ)
    → raw < uint32_values
    → is_bound bound ≡ true
    → (pos 0 ≤ℤ pos (scale raw bound)) × (pos (scale raw bound) <ℤ bound)
scale-in_range raw (pos n) h b =
    let positive : 0 < n = ground arith in (omega arith, omega (arith, scale_lt raw n h positive))
scale-in_range raw (negsuc n) h b = ground arith

next_raw-word :
    (rng : DeterministicRngState)
    → is_valid_state rng ≡ true
    → next_raw rng.state ≡ lcg (pos_part rng.state)
next_raw-word rng v =
    let (seed, word, index, form, hs, hw, hi, hst) = is_valid_state_parts rng v in
    let word_eq : rng.state ≡ pos word = ap (λ r. r.state) form in rw word_eq (next_raw-lcg word hw)

draw_from-is_valid :
    (rng : DeterministicRngState) (bound : ℤ)
    → is_valid_state rng ≡ true
    → eqb_ℤ rng.draw_index (pos max_safe_integer) ≡ false
    → is_valid_state (draw_from rng bound (next_raw rng.state)).state ≡ true
draw_from-is_valid rng bound v e =
    let (seed, word, index, form, hs, hw, hi, hst) = is_valid_state_parts rng v in
    let word_step = next_raw-word rng v in
    let index_eq : rng.draw_index ≡ pos index = ap (λ r. r.draw_index) form in
    let seed_eq : rng.seed ≡ pos seed = ap (λ r. r.seed) form in
    let next_index : rng.draw_index +ℤ pos 1 ≡ pos (index + 1) =
      rw index_eq (sym (pos_add index 1)) in
    let not_last : eqb_ℤ (pos index) (pos max_safe_integer) ≡ false = rw index_eq at e in
    rw (seed_eq, next_index, word_step)
      (is_valid_state-rng_at seed (lcg (pos_part rng.state)) (index + 1) rng.stream_id hs
        (lcg_lt (pos_part rng.state)) (ground arith) hst)

-- A successful draw has a value from 0 to below its bound and a valid next state of the same seed
-- and stream, whose index is one more and whose word is the linear congruential step of the word.
pub draw_deterministic_int_lem :
    (rng : DeterministicRngState) (bound : ℤ) (d : Draw)
    → draw_deterministic_int rng bound ≡ ok d
    → (pos 0 ≤ℤ d.provenance.value)
      × (d.provenance.value <ℤ bound)
      × (is_valid_state d.state ≡ true)
      × (d.state.seed ≡ rng.seed)
      × (d.state.stream_id ≡ rng.stream_id)
      × (d.state.draw_index ≡ rng.draw_index +ℤ pos 1)
      × (d.state.state ≡ pos (lcg (pos_part rng.state)))
draw_deterministic_int_lem rng bound d h =
    let (v, b, e, same) = draw-ok rng bound d h in
    let word_step = next_raw-word rng v in
    let (low, high) =
      scale-in_range (next_raw rng.state) bound (rw word_step (lcg_lt (pos_part rng.state))) b in
    rw same (low, high, draw_from-is_valid rng bound v e, refl, refl, refl, ap pos word_step)

-- Two successful draws, of any bounds, that lead to equal next states were made from equal states.
pub draw-injective :
    (a b : DeterministicRngState) (m n : ℤ) (d e : Draw)
    → draw_deterministic_int a m ≡ ok d
    → draw_deterministic_int b n ≡ ok e
    → d.state ≡ e.state
    → a ≡ b
draw-injective a b m n d e h k same =
    let (va, _, _, _) = draw-ok a m d h in
    let (vb, _, _, _) = draw-ok b n e k in
    let (sa, wa, ia, forma, _, ha, _, _) = is_valid_state_parts a va in
    let (sb, wb, ib, formb, _, hb, _, _) = is_valid_state_parts b vb in
    let (_, _, _, seeda, streama, indexa, worda) = draw_deterministic_int_lem a m d h in
    let (_, _, _, seedb, streamb, indexb, wordb) = draw_deterministic_int_lem b n e k in
    let seeds : a.seed ≡ b.seed = sym seeda ∙ ap (λ r. r.seed) same ∙ seedb in
    let streams : a.stream_id ≡ b.stream_id = sym streama ∙ ap (λ r. r.stream_id) same ∙ streamb in
    let indices : a.draw_index ≡ b.draw_index =
      +ℤ_cancel_right a.draw_index b.draw_index (pos 1)
        (sym indexa ∙ ap (λ r. r.draw_index) same ∙ indexb) in
    let steps : lcg (pos_part a.state) ≡ lcg (pos_part b.state) =
      ap pos_part (sym worda ∙ ap (λ r. r.state) same ∙ wordb) in
    let words : pos_part a.state ≡ pos_part b.state =
      lcg-injective (pos_part a.state) (pos_part b.state) (rw (ap (λ r. r.state) forma) ha)
        (rw (ap (λ r. r.state) formb) hb) steps in
    let states : a.state ≡ b.state =
      ap (λ r. r.state) forma
      ∙ ap pos (sym (ap (λ r. pos_part r.state) forma) ∙ words ∙ ap (λ r. pos_part r.state) formb)
      ∙ sym (ap (λ r. r.state) formb) in
    let algorithms : a.algorithm ≡ b.algorithm =
      ap (λ r. r.algorithm) forma ∙ sym (ap (λ r. r.algorithm) formb) in
    λ i. record {
      algorithm = algorithms i;
      seed = seeds i;
      stream_id = streams i;
      state = states i;
      draw_index = indices i;
    }

-- A state is the one that is created for a seed and a stream id just if it is valid and has this
-- seed, this stream id, the seed as its word and the draw index 0.
pub create_iff :
    (seed : ℤ) (stream : Text) (r : DeterministicRngState)
    → (create_deterministic_rng_state seed stream ≡ some r) ↔ (
        (is_valid_state r ≡ true)
        × (r.seed ≡ seed)
        × (r.stream_id ≡ stream)
        × (r.state ≡ seed)
        × (r.draw_index ≡ pos 0))
unfolding create_deterministic_rng_state is_valid_state
create_iff seed stream r = (
  λ h. ground (arith, text_eq_refl algorithm_name),
  λ h. ground (arith, text_eq_iff r.algorithm algorithm_name),
)

-- For a seed of 32 bits, a stream id, an index that can still grow and a bound of at most 2 ^ 32,
-- every value below the bound is what a draw with this bound returns for some word of the stream.
pub draw_onto :
    (seed index bound v : ℕ) (stream : Text)
    → seed < uint32_values
    → is_stream_id stream ≡ true
    → index < max_safe_integer
    → bound ≤ uint32_values
    → v < bound
    → (word : ℕ) × (d : Draw) × (draw_deterministic_int (rng_at seed stream word index) (pos bound)
        ≡ ok d)
      × (d.provenance.value ≡ pos v)
draw_onto seed index bound v stream hs hst h k l =
    let (small, hit) = scale-raw_for bound v l k in
    let word : ℕ = lcg_back (raw_for bound v) in
    let rng : DeterministicRngState = rng_at seed stream word index in
    let valid : is_valid_state rng ≡ true =
      is_valid_state-rng_at seed word index stream hs (omega arith) (omega arith) hst in
    let reached : next_raw (pos word) ≡ raw_for bound v =
      next_raw-lcg word (omega arith) ∙ lcg-lcg_back (raw_for bound v) small in
    (
      word,
      draw_from rng (pos bound) (next_raw (pos word)),
      draw-rng_at seed word index bound stream valid h (omega arith) k,
      ap pos (ap (λ r. scale r (pos bound)) reached ∙ hit),
    )
