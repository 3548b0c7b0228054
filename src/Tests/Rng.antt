-- ===== src/Tests/Rng.antt =====
-- Draws of one stream.
use sandboxengine.Prelude.{ℕ, ◌≡◌, refl, true, some, ◌↔◌, arith}
use sandboxengine.Prelude.Int.{pos, pos_part, ◌+ℤ◌, ◌≤ℤ◌, ◌<ℤ◌}
use sandboxengine.Prelude.Text.{lit, text_eq}
use sandboxengine.Prelude.Results.{ok}
use sandboxengine.Core.Rng.{
  DeterministicRngState, Draw, algorithm_name, is_stream_id, is_valid_state, to_uint32, to_int32,
  imul, next_raw, create_deterministic_rng_state, draw_deterministic_int,
}
use sandboxengine.Core.Rng.Words.{lcg}
use sandboxengine.Core.Rng.Draws.{
  rng_at, create_iff, draw_deterministic_int_lem, draw-injective, draw_onto,
}

-- All that a draw computes with.
unfoldable pub draws : Unit {0}
unfolding ◌+ℤ◌ text_eq is_stream_id is_valid_state to_uint32 to_int32 imul next_raw
    create_deterministic_rng_state draw_deterministic_int
draws = tt

abbrev pub stream : DeterministicRngState
stream = rng_at 42 (lit "dice") 42 0

abbrev six : Draw
six = record {
  state = rng_at 42 (lit "dice") 1083814273 1;
  provenance = record {
    algorithm = algorithm_name;
    seed = pos 42;
    stream_id = lit "dice";
    draw_index = pos 0;
    raw_uint32 = pos 1083814273;
    max_exclusive = pos 6;
    value = pos 1;
  };
}

six_run : draw_deterministic_int stream (pos 6) ≡ ok six
unfolding draws
six_run = refl

draw_deterministic_int_example :
    (pos 0 ≤ℤ six.provenance.value)
    × (six.provenance.value <ℤ pos 6)
    × (is_valid_state six.state ≡ true)
    × (six.state.seed ≡ stream.seed)
    × (six.state.stream_id ≡ stream.stream_id)
    × (six.state.draw_index ≡ stream.draw_index +ℤ pos 1)
    × (six.state.state ≡ pos (lcg (pos_part stream.state)))
draw_deterministic_int_example = draw_deterministic_int_lem stream (pos 6) six six_run

draw-injective_example : stream ≡ stream
draw-injective_example = draw-injective stream stream (pos 6) (pos 6) six six six_run six_run refl

create_iff_example : (create_deterministic_rng_state (pos 42) (lit "dice") ≡ some stream) ↔ (
    (is_valid_state stream ≡ true)
    × (stream.seed ≡ pos 42)
    × (stream.stream_id ≡ lit "dice")
    × (stream.state ≡ pos 42)
    × (stream.draw_index ≡ pos 0))
create_iff_example = create_iff (pos 42) (lit "dice") stream

dice_is_stream_id : is_stream_id (lit "dice") ≡ true
unfolding draws
dice_is_stream_id = refl

draw_onto_example :
    (word : ℕ) × (d : Draw) × (draw_deterministic_int (rng_at 42 (lit "dice") word 7) (pos 6)
      ≡ ok d)
    × (d.provenance.value ≡ pos 5)
draw_onto_example =
    draw_onto 42 7 6 5 (lit "dice") (omega arith) dice_is_stream_id (omega arith) (omega arith)
      (omega arith)
