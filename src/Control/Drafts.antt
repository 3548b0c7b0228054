-- ===== src/Control/Drafts.antt =====
-- Changes of a draft: applyTrialChange and the loop over them in packages/control/src/memory-store.ts,
-- with analyzeDraftBlockReferences of draft-history.ts.
pub mod Removal
pub mod Safety
pub mod Changes
use sandboxengine.Prelude.{
  ℕ, suc, Bool, true, false, not, ◌&&◌, Option, none, some, List, [], ◌∷◌, ◌++◌, any, map,
  update_first, if◌then◌else◌,
}
use sandboxengine.Prelude.Sort.{sort_by}
use sandboxengine.Prelude.Int.{ℤ, pos, eqb_ℤ, leb_ℤ}
use sandboxengine.Prelude.Text.{Text, lit, text_eq}
use sandboxengine.Prelude.Results.{Result, ok, err}
use sandboxengine.Contracts.Value.{is_id, is_bounded_text, schema_version}
use sandboxengine.Contracts.Authoring.{
  Block, BlockData, location, character, resource, action, QuestRelease, is_block, ids,
  has_valid_quest_release_references,
}

-- The paths of the three references that there are.
pub data DraftReference : Type 0 where
  quest_entry : (quest_id : Text) → DraftReference
  character_location : (block_id : Text) → DraftReference
  action_resource : (block_id : Text) → DraftReference

abbrev pub source_kind : DraftReference → Text
source_kind (quest_entry q) = lit "quest"
source_kind (character_location b) = lit "block"
source_kind (action_resource b) = lit "block"

abbrev pub source_id : DraftReference → Text
source_id (quest_entry q) = q
source_id (character_location b) = b
source_id (action_resource b) = b

abbrev pub path : DraftReference → Text
path (quest_entry q) = lit "entryLocationId"
path (character_location b) = lit "data.initialLocationId"
path (action_resource b) = lit "data.resourceId"

-- The comparison of two references, at most 0, with localeCompare as a parameter
unfoldable pub reference_le : (Text → Text → ℤ) → DraftReference → DraftReference → Bool
reference_le locale_compare left right =
    let by_kind = locale_compare (source_kind left) (source_kind right) in
    let by_id = locale_compare (source_id left) (source_id right) in
    if not (eqb_ℤ by_kind (pos 0))
    then leb_ℤ by_kind (pos 0)
    else if not (eqb_ℤ by_id (pos 0))
    then leb_ℤ by_id (pos 0)
    else leb_ℤ (locale_compare (path left) (path right)) (pos 0)

abbrev pub is_text_of : Option Text → Text → Bool
is_text_of none k = false
is_text_of (some j) k = text_eq j k

-- What the data of a block refers to.
abbrev pub data_references : Text → BlockData → Text → List DraftReference
data_references id location target = []
data_references id (character place status) target =
    if is_text_of place target then character_location id ∷ [] else []
data_references id (resource unit initial min max) target = []
data_references id (action resource_id units seconds partly) target =
    if text_eq resource_id target then action_resource id ∷ [] else []

unfoldable pub block_references : List Block → Text → List DraftReference
block_references [] target = []
block_references (b ∷ bs) target =
    if text_eq b.id target
    then block_references bs target
    else data_references b.id b.data_of target ++ block_references bs target

abbrev pub entry_references : Text → Text → Text → List DraftReference
entry_references quest_id entry target =
    if text_eq entry target then quest_entry quest_id ∷ [] else []

abbrev pub is_empty {ℓ} : {A : Type ℓ} → List A → Bool
is_empty [] = true
is_empty (x ∷ xs) = false

pub record DraftReferenceAnalysis : Type 0 where
  pub target_exists : Bool
  pub safe_to_delete : Bool
  pub references : List DraftReference

-- analyzeDraftBlockReferences of the blocks and the entry of a draft
unfoldable pub analyze_draft_block_references :
    (Text → Text → ℤ) → Text → Text → List Block → Text → DraftReferenceAnalysis
analyze_draft_block_references locale_compare quest_id entry bs target =
    let target_exists = any (λ b. text_eq b.id target) bs in
    let references =
      sort_by (reference_le locale_compare)
        (entry_references quest_id entry target ++ block_references bs target) in
    record {
      target_exists = target_exists;
      safe_to_delete = target_exists && is_empty references;
      references = references;
    }

pub data DraftChange : Type 0 where
  quest_title_set : (title : Text) → DraftChange
  block_add : Block → DraftChange
  block_replace : (block_id : Text) → Block → DraftChange
  block_remove : (block_id : Text) → DraftChange

pub data ChangeError : Type 0 where
  change_title change_block change_duplicate_block change_block_id_mismatch : ChangeError
  change_block_not_found change_block_id : ChangeError
  change_block_referenced : List DraftReference → ChangeError

-- The title and the blocks that a trial changes.
pub record Trial : Type 0 where
  pub title : Text
  pub blocks : List Block

-- blocks.splice(index, 1) at the first block of an id
abbrev pub remove_block : Text → List Block → List Block
remove_block k [] = []
remove_block k (b ∷ bs) = if text_eq b.id k then bs else b ∷ remove_block k bs

abbrev pub has_block : List Block → Text → Bool
has_block bs k = any (λ b. text_eq b.id k) bs

-- applyTrialChange on changes of this type
unfoldable pub apply_trial_change :
    (Text → Text → ℤ) → Text → Text → DraftChange → Trial → Result ChangeError Trial
apply_trial_change locale_compare quest_id entry (quest_title_set title) t =
    if is_bounded_text 200 title then ok (record t { title = title }) else err change_title
apply_trial_change locale_compare quest_id entry (block_add b) t =
    if not (is_block b)
    then err change_block
    else if has_block t.blocks b.id
    then err change_duplicate_block
    else ok (record t { blocks = t.blocks ++ b ∷ [] })
apply_trial_change locale_compare quest_id entry (block_replace k b) t =
    if not (is_id k && is_block b)
    then err change_block
    else if not (text_eq b.id k)
    then err change_block_id_mismatch
    else if not (has_block t.blocks k)
    then err change_block_not_found
    else ok (record t { blocks = update_first (λ x. text_eq x.id k) (λ x. b) t.blocks })
apply_trial_change locale_compare quest_id entry (block_remove k) t =
    let analysis = analyze_draft_block_references locale_compare quest_id entry t.blocks k in
    if not (is_id k)
    then err change_block_id
    else if not (has_block t.blocks k)
    then err change_block_not_found
    else if not analysis.safe_to_delete
    then err (change_block_referenced analysis.references)
    else ok (record t { blocks = remove_block k t.blocks })

-- makeRelease
abbrev pub make_release : Text → Text → Text → List Block → QuestRelease
make_release quest_id title entry bs = record {
  schema_version = schema_version;
  quest_id = quest_id;
  release_id = lit "draft-content";
  title = title;
  contracts_schema_version = schema_version;
  block_ids = ids bs;
  entry_location_id = entry;
}

-- The loop of applyDraftChanges: each change is tried on what the accepted ones before it have left,
-- and the refused ones are listed with their index.
unfoldable pub try_changes :
    (Text → Text → ℤ) → Text → Text → ℕ → List DraftChange → Trial → Trial × List (ChangeError × ℕ)
try_changes locale_compare quest_id entry index [] t = (t, [])
try_changes locale_compare quest_id entry index (c ∷ cs) t =
    elim (apply_trial_change locale_compare quest_id entry c t) [
      | ok t' ↦ try_changes locale_compare quest_id entry (suc index) cs t'
      | err e ↦
          let rest = try_changes locale_compare quest_id entry (suc index) cs t in
          (rest.0, (e, index) ∷ rest.1)
    ]
