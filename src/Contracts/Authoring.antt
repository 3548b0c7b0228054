-- ===== src/Contracts/Authoring.antt =====
-- packages/contracts/src/authoring.ts: blocks and releases; hasValidQuestReleaseReferences of
-- references.ts.
use sandboxengine.Prelude.{
  Bool, true, false, ◌&&◌, Option, none, some, List, [], ◌∷◌, leb, ◌==◌, length, all, find?,
}
use sandboxengine.Prelude.Int.{ℤ, pos, leb_ℤ, is_safe_integer, is_safe_natural}
use sandboxengine.Prelude.Text.{Text, text_eq}
use sandboxengine.Contracts.World.{distinct, has}
use sandboxengine.Contracts.Value.{is_id, is_bounded_text}

-- The data of the four kinds of blocks; `actionType` is "core.paint" in every action.
pub data BlockData : Type 0 where
  location : BlockData
  character : (initial_location_id : Option Text) (initial_status : Text) → BlockData
  resource : (unit : Text) (initial_value min max : ℤ) → BlockData
  action :
      (resource_id : Text) (resource_units_per_unit duration_seconds_per_unit : ℤ)
      (allow_partial : Bool)
      → BlockData

-- `schemaVersion` is the known version in every block.
pub record Block : Type 0 where
  pub id : Text
  pub title : Text
  pub description : Text
  pub data_of : BlockData

pub record QuestRelease : Type 0 where
  pub schema_version : Text
  pub quest_id : Text
  pub release_id : Text
  pub title : Text
  pub contracts_schema_version : Text
  pub block_ids : List Text
  pub entry_location_id : Text

abbrev pub is_no_id_or_id : Option Text → Bool
is_no_id_or_id none = true
is_no_id_or_id (some k) = is_id k

-- isPositiveSafeInteger
abbrev pub is_positive_safe : ℤ → Bool
is_positive_safe n = is_safe_integer n && leb_ℤ (pos 1) n

abbrev pub is_range : ℤ → ℤ → ℤ → Bool
is_range initial min max =
    is_safe_integer initial
    && is_safe_integer min
    && is_safe_integer max
    && leb_ℤ min max
    && leb_ℤ min initial
    && leb_ℤ initial max

abbrev pub is_block_data : BlockData → Bool
is_block_data location = true
is_block_data (character place status) = is_no_id_or_id place && is_bounded_text 100 status
is_block_data (resource unit initial min max) = is_bounded_text 100 unit && is_range initial min max
is_block_data (action resource_id units seconds partly) =
    is_id resource_id && is_positive_safe units && is_safe_natural seconds

-- isBlock, on values of these types
unfoldable pub is_block : Block → Bool
is_block b =
    is_id b.id
    && is_bounded_text 200 b.title
    && leb (length b.description) 2000
    && is_block_data b.data_of

-- byId.get, where no two blocks share an id
abbrev pub find_block : List Block → Text → Option Block
find_block bs k = find? (λ b. text_eq b.id k) bs

abbrev pub ids : List Block → List Text
ids [] = []
ids (b ∷ bs) = b.id ∷ ids bs

abbrev pub is_location_data : BlockData → Bool
is_location_data location = true
is_location_data _ = false

abbrev pub is_resource_data : BlockData → Bool
is_resource_data (resource unit initial min max) = true
is_resource_data _ = false

abbrev pub is_kind : (BlockData → Bool) → Option Block → Bool
is_kind p none = false
is_kind p (some b) = p b.data_of

-- The last loop of hasValidQuestReleaseReferences: what one block refers to, with a way to find it.
abbrev pub resolves : (Text → Option Block) → BlockData → Bool
resolves find location = true
resolves find (character none status) = true
resolves find (character (some l) status) = is_kind is_location_data (find l)
resolves find (resource unit initial min max) = is_range initial min max
resolves find (action resource_id units seconds partly) =
    is_kind is_resource_data (find resource_id) && is_positive_safe units && is_safe_natural seconds

abbrev pub block_resolves : (Text → Option Block) → Block → Bool
block_resolves find b = resolves find b.data_of

unfoldable pub has_valid_quest_release_references : QuestRelease → List Block → Bool
has_valid_quest_release_references release bs =
    distinct (ids bs)
    && distinct release.block_ids
    && length release.block_ids == length bs
    && all (has (ids bs)) release.block_ids
    && all (has release.block_ids) (ids bs)
    && is_kind is_location_data (find_block bs release.entry_location_id)
    && all (block_resolves (find_block bs)) bs
