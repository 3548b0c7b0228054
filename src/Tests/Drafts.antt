-- ===== src/Tests/Drafts.antt =====
-- A draft of two places, a character and a resource.
use sandboxengine.Prelude.{◌≡◌, refl, some, [], ◌∷◌, if◌then◌else◌}
use sandboxengine.Prelude.Int.{ℤ, pos}
use sandboxengine.Prelude.Text.{Text, lit}
use sandboxengine.Prelude.Results.{ok, err}
use sandboxengine.Contracts.Authoring.{
  Block, location, character, resource, is_block, has_valid_quest_release_references,
}
use sandboxengine.Control.Drafts.{
  Trial, quest_title_set, block_add, block_remove, remove_block, reference_le, block_references,
  analyze_draft_block_references, change_block_referenced, apply_trial_change, try_changes,
  make_release,
}
use sandboxengine.Control.Drafts.Safety.{apply_trial_change-removal}
use sandboxengine.Control.Drafts.Changes.{IsTrial, try_changes-IsTrial}
use sandboxengine.Tests.Data.{batches}

-- All that changes of a draft compute with.
unfoldable drafted : Unit {0}
unfolding batches is_block has_valid_quest_release_references reference_le block_references
    analyze_draft_block_references apply_trial_change try_changes
drafted = tt

abbrev same_place : Text → Text → ℤ
same_place a b = pos 0

abbrev hall : Block
hall = record { id = lit "hall"; title = lit "Hall"; description = []; data_of = location }

abbrev yard : Block
yard = record { id = lit "yard"; title = lit "Yard"; description = []; data_of = location }

abbrev ann : Block
ann = record {
  id = lit "ann";
  title = lit "Ann";
  description = [];
  data_of = character (some (lit "yard")) (lit "ok");
}

abbrev paint : Block
paint = record {
  id = lit "paint";
  title = lit "Paint";
  description = [];
  data_of = resource (lit "l") (pos 1) (pos 0) (pos 9);
}

abbrev draft : Trial
draft = record { title = lit "Quest"; blocks = hall ∷ yard ∷ ann ∷ paint ∷ [] }

-- The character stands in the yard.
refused :
    apply_trial_change same_place (lit "q") (lit "hall") (block_remove (lit "yard")) draft
    ≡ err (
        change_block_referenced
          (analyze_draft_block_references same_place
            (lit "q")
            (lit "hall")
            draft.blocks
            (lit "yard")).references)
unfolding drafted
refused = refl

apply_trial_change-removal_example :
    apply_trial_change same_place (lit "q") (lit "hall") (block_remove (lit "paint")) draft ≡ (
      if has_valid_quest_release_references
        (make_release (lit "q") draft.title (lit "hall") (remove_block (lit "paint") draft.blocks))
        (remove_block (lit "paint") draft.blocks)
      then ok (record draft { blocks = remove_block (lit "paint") draft.blocks })
      else err (
          change_block_referenced
            (analyze_draft_block_references same_place
              (lit "q")
              (lit "hall")
              draft.blocks
              (lit "paint")).references))
unfolding drafted
apply_trial_change-removal_example =
    apply_trial_change-removal same_place (lit "q") (lit "hall") draft (lit "paint") refl refl refl

try_changes-IsTrial_example :
    IsTrial
      (try_changes same_place
        (lit "q")
        (lit "hall")
        0
        (block_remove (lit "paint") ∷ quest_title_set [] ∷ block_add paint ∷ [])
        draft).0
unfolding drafted
try_changes-IsTrial_example =
    try_changes-IsTrial same_place (lit "q") (lit "hall") 0
      (block_remove (lit "paint") ∷ quest_title_set [] ∷ block_add paint ∷ []) draft
      (record { titled = refl; separate = refl; blocks_ok = refl })
