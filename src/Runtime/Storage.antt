-- ===== src/Runtime/Storage.antt =====
-- packages/runtime/src/memory-storage.ts: the guards, the constructor and the reads. A service time is an
-- argument of each call.
use sandboxengine.Prelude.{
  ℕ, zero, suc, ◌+◌, Bool, true, false, not, ◌&&◌, ◌||◌, Option, none, some, List, [], ◌∷◌, ◌++◌,
  leb, ◌==◌, length, all, any, map, if◌then◌else◌,
}
use sandboxengine.Prelude.Int.{
  ℤ, pos, ◌+ℤ◌, leb_ℤ, ltb_ℤ, eqb_ℤ, is_safe_integer, is_safe_natural, max_safe_integer,
}
use sandboxengine.Prelude.Text.{Text, text_eq}
use sandboxengine.Prelude.Dict.{lookup, store, is_stored}
use sandboxengine.Contracts.Value.{
  Value, Items, Fields, null, bool, num, str, arr, obj, nil, cons, end, field, integer, fraction,
  not_finite, items, keys, is_id, schema_version,
}
use sandboxengine.Contracts.World.{WorldState, has_valid_world_state_references}
use sandboxengine.Core.Resource.{is_safe_resource}
use sandboxengine.Runtime.Records.{
  SessionRecord, OperationStatus, processing, OperationRecord, TurnRecordBoundary, MutableSession,
  Storage,
}

-- /^[a-fA-F0-9]{64}$/.test
abbrev pub is_hex : ℕ → Bool
is_hex c = (leb b'a' c && leb c b'f') || (leb b'A' c && leb c b'F') || (leb b'0' c && leb c b'9')

unfoldable pub is_sha256 : Text → Bool
is_sha256 s = length s == 64 && all is_hex s

-- canonicalRequestHash: toLowerCase of a hexadecimal text
abbrev pub lower_unit : ℕ → ℕ
lower_unit c = if leb b'A' c && leb c b'Z' then c + 32 else c

unfoldable pub canonical_request_hash : Text → Text
canonical_request_hash = map lower_unit

-- operationKey: the two texts with the unit 0 between them
unfoldable pub operation_key : Text → Text → Text
operation_key session_id idempotency_key = session_id ++ 0 ∷ idempotency_key

-- isRuntimeId and isIdempotencyKey: 1 to 200 units of an id
abbrev pub is_runtime_id : Text → Bool
is_runtime_id = is_id

-- isPositiveSafeInteger
abbrev pub is_positive_safe_integer : ℤ → Bool
is_positive_safe_integer n = is_safe_integer n && leb_ℤ (pos 1) n

abbrev pub max_lease_duration_ms : ℤ
max_lease_duration_ms = pos 300000

abbrev pub max_public_response_json_chars : ℕ
max_public_response_json_chars = 100000

-- isValidLeaseDuration
abbrev pub is_valid_lease_duration : ℤ → Bool
is_valid_lease_duration n = is_safe_integer n && leb_ℤ (pos 1) n && leb_ℤ n max_lease_duration_ms

-- isLeaseEndSafe
abbrev pub is_lease_end_safe : ℤ → ℤ → Bool
is_lease_end_safe now duration = is_safe_integer (now +ℤ duration)

-- isJsonValue(value, depth), with `left` = 21 - depth
unfoldable mutual
  pub is_json_value : ℕ → Value → Bool
  is_json_value zero v = false
  is_json_value (suc left) null = true
  is_json_value (suc left) (bool b) = true
  is_json_value (suc left) (num (integer z)) = true
  is_json_value (suc left) (num fraction) = true
  is_json_value (suc left) (num not_finite) = false
  is_json_value (suc left) (str s) = true
  is_json_value (suc left) (arr vs) = leb (length (items vs)) 1000 && are_json_items left vs
  is_json_value (suc left) (obj fs) = leb (length (keys fs)) 1000 && are_json_fields left fs

  pub are_json_items : ℕ → Items → Bool
  are_json_items left nil = true
  are_json_items left (cons v vs) = is_json_value left v && are_json_items left vs

  pub are_json_fields : ℕ → Fields → Bool
  are_json_fields left end = true
  are_json_fields left (field k v fs) =
      leb (length k) 200 && is_json_value left v && are_json_fields left fs

-- isPlainObject: a value of JSON has no other prototype
abbrev pub is_plain_object : Value → Bool
is_plain_object (obj fs) = true
is_plain_object _ = false

-- isPublicResponse. `json_length` is the length of what JSON.stringify prints.
unfoldable pub is_public_response : (Value → ℕ) → Value → Bool
is_public_response json_length v =
    is_plain_object v && is_json_value 21 v && leb (json_length v) max_public_response_json_chars

-- isValidWorldState
unfoldable pub is_valid_world_state : WorldState → Bool
is_valid_world_state s =
    text_eq s.schema_version schema_version
    && is_safe_natural s.revision
    && is_safe_natural s.clock.elapsed_seconds
    && has_valid_world_state_references s
    && all is_safe_resource s.resources

-- isValidCandidateState
unfoldable pub is_valid_candidate_state : WorldState → ℤ → Bool
is_valid_candidate_state s expected =
    not (eqb_ℤ expected (pos max_safe_integer))
    && is_valid_world_state s
    && eqb_ℤ s.revision (expected +ℤ pos 1)

-- isValidTurnRecord
unfoldable pub is_valid_turn_record : TurnRecordBoundary → OperationRecord → ℤ → Bool
is_valid_turn_record t o expected =
    is_runtime_id t.turn_id
    && text_eq t.operation_id o.operation_id
    && text_eq t.session_id o.session_id
    && eqb_ℤ t.before_revision expected
    && eqb_ℤ t.after_revision (expected +ℤ pos 1)
    && is_sha256 t.state_hash

abbrev pub is_no_id : Option Text → Bool
is_no_id none = true
is_no_id (some k) = false

-- isValidSeedSession
unfoldable pub is_valid_seed_session : SessionRecord → Bool
is_valid_seed_session s =
    is_runtime_id s.session_id
    && is_no_id s.active_operation_id
    && is_runtime_id s.release.quest_id
    && is_runtime_id s.release.release_id
    && is_sha256 s.release.content_hash
    && is_safe_natural s.revision
    && eqb_ℤ s.state.revision s.revision
    && is_valid_world_state s.state

abbrev pub empty_storage : Storage
empty_storage = record {
  sessions = [];
  operations = [];
  operation_by_key = [];
  turns = [];
  next_operation_ordinal = 1;
}

abbrev pub seeded : SessionRecord → MutableSession
seeded r = record {
  session_id = r.session_id;
  release = r.release;
  state = r.state;
  revision = r.revision;
  active_operation_id = none;
  fencing_counter = pos 0;
}

-- The loop of the constructor; `none` is the TypeError.
unfoldable pub seed_sessions : Storage → List SessionRecord → Option Storage
seed_sessions s [] = some s
seed_sessions s (r ∷ rs) =
    let rest =
      seed_sessions
        (record s {
          sessions = store r.session_id (seeded r) s.sessions;
          turns = store r.session_id [] s.turns;
        })
        rs in
    if not (is_valid_seed_session r) || is_stored (lookup r.session_id s.sessions)
    then none
    else rest

-- The constructor, at a service time; `none` is an error that it throws.
unfoldable pub create_storage : ℤ → List SessionRecord → Option Storage
create_storage now seeds = if is_safe_natural now then seed_sessions empty_storage seeds else none

-- snapshotSession; a copy is the value itself
abbrev pub snapshot_session : MutableSession → SessionRecord
snapshot_session s = record {
  session_id = s.session_id;
  release = s.release;
  state = s.state;
  revision = s.revision;
  active_operation_id = s.active_operation_id;
}

abbrev pub snapshot_found : Option MutableSession → Option SessionRecord
snapshot_found none = none
snapshot_found (some s) = some (snapshot_session s)

unfoldable pub load_session : Storage → Text → Option SessionRecord
load_session s k = if is_runtime_id k then snapshot_found (lookup k s.sessions) else none

-- The operation, if it is one of the session.
abbrev pub of_session : Text → Option OperationRecord → Option OperationRecord
of_session k none = none
of_session k (some o) = if text_eq o.session_id k then some o else none

unfoldable pub get_operation : Storage → Text → Text → Option OperationRecord
get_operation s session_id operation_id =
    if is_runtime_id session_id && is_runtime_id operation_id
    then of_session session_id (lookup operation_id s.operations)
    else none

-- #turnExists
abbrev pub turns_of : Option (List TurnRecordBoundary) → List TurnRecordBoundary
turns_of none = []
turns_of (some ts) = ts

unfoldable pub turn_exists : Storage → Text → Text → Bool
turn_exists s session_id turn_id =
    any (λ t. text_eq t.turn_id turn_id) (turns_of (lookup session_id s.turns))

-- A lease that still holds at a time.
abbrev pub lease_holds : ℤ → Option ℤ → Bool
lease_holds now none = false
lease_holds now (some at) = ltb_ℤ now at

abbrev pub is_processing : OperationStatus → Bool
is_processing processing = true
is_processing _ = false

-- session.activeOperationId === operation id
abbrev pub is_active : Option Text → Text → Bool
is_active none k = false
is_active (some j) k = text_eq j k
