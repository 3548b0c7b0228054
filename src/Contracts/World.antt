-- ===== src/Contracts/World.antt =====
-- packages/contracts/src/world-state.ts and the world check of references.ts.
use sandboxengine.Prelude.{Bool, true, not, ◌&&◌, Option, none, some, List, [], ◌∷◌, all, any, map}
use sandboxengine.Prelude.Int.{ℤ}
use sandboxengine.Prelude.Text.{Text, text_eq}

pub record WorldClock : Type 0 where
  pub elapsed_seconds : ℤ

pub record WorldLocation : Type 0 where
  pub id : Text

pub record WorldEntity : Type 0 where
  pub id : Text
  pub type : Text
  pub status : Text
  pub location_id : Option Text

pub record WorldResource : Type 0 where
  pub id : Text
  pub unit : Text
  pub value : ℤ
  pub min : ℤ
  pub max : ℤ

pub data WorldItemPosition : Type 0 where
  location : Text → WorldItemPosition
  holder : Text → WorldItemPosition

pub record WorldItem : Type 0 where
  pub id : Text
  pub position : WorldItemPosition

pub record WorldTerminal : Type 0 where
  pub reason : Text
  pub outcome : Text

pub record WorldState : Type 0 where
  pub schema_version : Text
  pub revision : ℤ
  pub clock : WorldClock
  pub locations : List WorldLocation
  pub entities : List WorldEntity
  pub resources : List WorldResource
  pub items : List WorldItem
  pub terminal : Option WorldTerminal

abbrev pub location_ids : List WorldLocation → List Text
location_ids = map (λ l. l.id)

abbrev pub entity_ids : List WorldEntity → List Text
entity_ids = map (λ e. e.id)

abbrev pub resource_ids : List WorldResource → List Text
resource_ids = map (λ r. r.id)

abbrev pub item_ids : List WorldItem → List Text
item_ids = map (λ i. i.id)

-- new Set(ids).has(id)
unfoldable pub has : List Text → Text → Bool
has ids k = any (λ j. text_eq j k) ids

-- new Set(ids).size === ids.length: no text stands twice
unfoldable pub distinct : List Text → Bool
distinct [] = true
distinct (k ∷ ks) = not (has ks k) && distinct ks

unfoldable pub entity_location_known : List Text → WorldEntity → Bool
entity_location_known locations e = elim e.location_id [ none ↦ true | some l ↦ has locations l ]

abbrev pub position_known : List Text → List Text → WorldItemPosition → Bool
position_known locations entities (location l) = has locations l
position_known locations entities (holder h) = has entities h

unfoldable pub item_position_known : List Text → List Text → WorldItem → Bool
item_position_known locations entities i = position_known locations entities i.position

-- hasValidWorldStateReferences
unfoldable pub has_valid_world_state_references : WorldState → Bool
has_valid_world_state_references s =
    distinct (location_ids s.locations)
    && distinct (entity_ids s.entities)
    && distinct (resource_ids s.resources)
    && distinct (item_ids s.items)
    && all (entity_location_known (location_ids s.locations)) s.entities
    && all (item_position_known (location_ids s.locations) (entity_ids s.entities)) s.items
