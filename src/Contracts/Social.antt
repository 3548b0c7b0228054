-- ===== src/Contracts/Social.antt =====
-- packages/contracts/src/social-act.ts: social acts and their guard. A value that passes is read as
-- an act with the same fields.
use sandboxengine.Prelude.{
  ℕ, zero, suc, Bool, true, false, not, ◌&&◌, ◌||◌, Option, none, some, List, [], ◌∷◌, leb, ◌==◌,
  length, if◌then◌else◌,
}
use sandboxengine.Prelude.Text.{Text, lit}
use sandboxengine.Prelude.Results.{◌>>=◌, ◌>>◌, require}
use sandboxengine.Contracts.Value.{
  Value, Items, Fields, null, bool, num, str, arr, obj, nil, cons, end, field, integer, fraction,
  not_finite, items, keys, get, has_only_keys, as_text, is_text, as_record, schema_version,
}
use sandboxengine.Contracts.Condition.{as_array}
use sandboxengine.Contracts.Effect.{as_id}

pub record SocialActionSubject : Type 0 where
  pub action_type : Text
  pub target_ids : List Text
  pub args : Fields

pub data SocialResponseDecision : Type 0 where
  accept refuse : SocialResponseDecision

pub record SocialRequest : Type 0 where
  pub proposal_id : Text
  pub from_entity_id : Text
  pub to_entity_id : Text
  pub subject : SocialActionSubject

pub record SocialPermission : Type 0 where
  pub permission_id : Text
  pub from_entity_id : Text
  pub to_entity_id : Text
  pub subject : SocialActionSubject

pub record SocialResponse : Type 0 where
  pub response_id : Text
  pub proposal_id : Text
  pub responder_id : Text
  pub decision : SocialResponseDecision

pub data SocialAct : Type 0 where
  request : SocialRequest → SocialAct
  permission : SocialPermission → SocialAct
  response : SocialResponse → SocialAct

-- [a-z] and [a-z0-9-]
abbrev pub is_lower : ℕ → Bool
is_lower c = leb b'a' c && leb c b'z'

abbrev pub is_word_unit : ℕ → Bool
is_word_unit c = is_lower c || leb b'0' c && leb c b'9' || c == b'-'

-- /^[a-z][a-z0-9-]*(?:\.[a-z][a-z0-9-]*)+$/.test: inside a word, or at the start of one; `dotted`
-- tells that a dot has been read.
unfoldable pub in_word : Bool → Bool → Text → Bool
in_word dotted starts [] = not starts && dotted
in_word dotted true (c ∷ cs) = is_lower c && in_word dotted false cs
in_word dotted false (c ∷ cs) =
    let next = in_word true true cs in
    let inside = in_word dotted false cs in if c == b'.' then next else is_word_unit c && inside

abbrev pub matches_action_type : Text → Bool
matches_action_type t = in_word false true t

-- isJsonValue(value, depth), with `left` = 17 - depth: below that the answer is false.
unfoldable mutual
  pub is_json_value : ℕ → Value → Bool
  is_json_value zero v = false
  is_json_value (suc left) null = true
  is_json_value (suc left) (bool b) = true
  is_json_value (suc left) (num (integer z)) = true
  is_json_value (suc left) (num fraction) = true
  is_json_value (suc left) (num not_finite) = false
  is_json_value (suc left) (str s) = true
  is_json_value (suc left) (arr vs) = leb (length (items vs)) 64 && are_json_items left vs
  is_json_value (suc left) (obj fs) = leb (length (keys fs)) 64 && are_json_fields left fs

  pub are_json_items : ℕ → Items → Bool
  are_json_items left nil = true
  are_json_items left (cons v vs) = is_json_value left v && are_json_items left vs

  pub are_json_fields : ℕ → Fields → Bool
  are_json_fields left end = true
  are_json_fields left (field k v fs) = is_json_value left v && are_json_fields left fs

abbrev pub as_ids : List Value → Option (List Text)
as_ids [] = some []
as_ids (v ∷ vs) = as_id (some v) >>= λ k. as_ids vs >>= λ ks. some (k ∷ ks)

-- The fields of isSocialActionSubject.
abbrev pub as_subject_fields : Fields → Option SocialActionSubject
as_subject_fields fs = do
  require (has_only_keys fs (lit "actionType" ∷ lit "targetIds" ∷ lit "args" ∷ []))
  action_type ← as_text (get (lit "actionType") fs)
  require (matches_action_type action_type)
  targets ← as_array (get (lit "targetIds") fs)
  require (leb (length targets) 16)
  target_ids ← as_ids targets
  args ← get (lit "args") fs >>= as_record
  require (are_json_fields 17 args)
  some (record { action_type = action_type; target_ids = target_ids; args = args })

-- isSocialActionSubject
unfoldable pub as_social_action_subject : Option Value → Option SocialActionSubject
as_social_action_subject v = v >>= as_record >>= as_subject_fields

abbrev as_decision : Option Value → Option SocialResponseDecision
as_decision v =
    if is_text v (lit "accept")
    then some accept
    else if is_text v (lit "refuse")
    then some refuse
    else none

abbrev as_social_request : Fields → Option SocialAct
as_social_request fs = do
  require (
      has_only_keys fs (
        lit "schemaVersion"
        ∷ lit "type"
        ∷ lit "proposalId"
        ∷ lit "fromEntityId"
        ∷ lit "toEntityId"
        ∷ lit "subject"
        ∷ []))
  p ← as_id (get (lit "proposalId") fs)
  f ← as_id (get (lit "fromEntityId") fs)
  t ← as_id (get (lit "toEntityId") fs)
  s ← as_social_action_subject (get (lit "subject") fs)
  some (request (record { proposal_id = p; from_entity_id = f; to_entity_id = t; subject = s }))

abbrev as_social_permission : Fields → Option SocialAct
as_social_permission fs = do
  require (
      has_only_keys fs (
        lit "schemaVersion"
        ∷ lit "type"
        ∷ lit "permissionId"
        ∷ lit "fromEntityId"
        ∷ lit "toEntityId"
        ∷ lit "subject"
        ∷ []))
  p ← as_id (get (lit "permissionId") fs)
  f ← as_id (get (lit "fromEntityId") fs)
  t ← as_id (get (lit "toEntityId") fs)
  s ← as_social_action_subject (get (lit "subject") fs)
  some
      (permission (record { permission_id = p; from_entity_id = f; to_entity_id = t; subject = s }))

abbrev as_social_response : Fields → Option SocialAct
as_social_response fs = do
  require (
      has_only_keys fs (
        lit "schemaVersion"
        ∷ lit "type"
        ∷ lit "responseId"
        ∷ lit "proposalId"
        ∷ lit "responderId"
        ∷ lit "decision"
        ∷ []))
  r ← as_id (get (lit "responseId") fs)
  p ← as_id (get (lit "proposalId") fs)
  b ← as_id (get (lit "responderId") fs)
  d ← as_decision (get (lit "decision") fs)
  some (response (record { response_id = r; proposal_id = p; responder_id = b; decision = d }))

as_social_act_fields : Fields → Option SocialAct
as_social_act_fields fs =
    if is_text (get (lit "type") fs) (lit "request")
    then as_social_request fs
    else if is_text (get (lit "type") fs) (lit "permission")
    then as_social_permission fs
    else if is_text (get (lit "type") fs) (lit "response")
    then as_social_response fs
    else none

-- isSocialAct, with the act that the value is read as when the guard holds.
unfoldable pub as_social_act : Value → Option SocialAct
unfolding as_social_act_fields
as_social_act v = do
  fs ← as_record v
  require (is_text (get (lit "schemaVersion") fs) schema_version)
  as_social_act_fields fs
