-- ===== src/Core/Social.antt =====
-- packages/core/src/social.ts: social acts resolved against the world. A frozen copy is the value
-- itself: of `args` without an own key `__proto__`, which the copy would take for a prototype.
pub mod Decision
use sandboxengine.Prelude.{
  ℕ, Bool, true, false, not, Option, none, some, List, [], ◌∷◌, if◌then◌else◌,
}
use sandboxengine.Prelude.Text.{Text, lit, text_eq}
use sandboxengine.Prelude.Results.{Result, ok, err}
use sandboxengine.Contracts.Value.{Value, schema_version}
use sandboxengine.Contracts.World.{WorldState, has, entity_ids}
use sandboxengine.Contracts.Social.{
  SocialAct, SocialRequest, SocialPermission, SocialResponse, SocialActionSubject,
  SocialResponseDecision, request, permission, response, as_social_act,
}
use sandboxengine.Contracts.Effect.{GameplayEffect}
use sandboxengine.Core.Actions.{CalculatedActionStatus, executed, conditional}
use sandboxengine.Core.Effects.{is_valid_state}

-- The social variants of CalculatedAction: the act's own fields, and the fields that they share.
pub record SocialCalculatedAction : Type 0 where
  pub schema_version : Text
  pub action_type : Text
  pub status : CalculatedActionStatus
  pub reason_code : Option Text
  pub act : SocialAct
  pub duration_seconds : ℕ
  pub effects : List GameplayEffect

abbrev pub requested : SocialRequest → SocialCalculatedAction
requested r = record {
  schema_version = schema_version;
  action_type = lit "core.social.request";
  status = conditional;
  reason_code = some (lit "AWAITING_RESPONSE");
  act = request r;
  duration_seconds = 0;
  effects = [];
}

abbrev pub permitted : SocialPermission → SocialCalculatedAction
permitted p = record {
  schema_version = schema_version;
  action_type = lit "core.social.permission";
  status = executed;
  reason_code = none;
  act = permission p;
  duration_seconds = 0;
  effects = [];
}

abbrev pub responded : SocialResponse → SocialCalculatedAction
responded r = record {
  schema_version = schema_version;
  action_type = lit "core.social.response";
  status = executed;
  reason_code = none;
  act = response r;
  duration_seconds = 0;
  effects = [];
}

pub data SocialResolutionFailureCode : Type 0 where
  invalid_state invalid_social_act entity_not_found : SocialResolutionFailureCode
  proposal_mismatch responder_mismatch : SocialResolutionFailureCode

pub record SocialResolutionFailure : Type 0 where
  pub code : SocialResolutionFailureCode
  pub reference_id : Option Text

abbrev pub SocialResolutionResult : Type 0
SocialResolutionResult = Result SocialResolutionFailure SocialCalculatedAction

abbrev pub social_failure : SocialResolutionFailureCode → Option Text → SocialResolutionResult
social_failure c k = err (record { code = c; reference_id = k })

abbrev pub as_request : Option SocialAct → Option SocialRequest
as_request (some (request r)) = some r
as_request _ = none

abbrev pub as_permission : Option SocialAct → Option SocialPermission
as_permission (some (permission p)) = some p
as_permission _ = none

abbrev pub as_response : Option SocialAct → Option SocialResponse
as_response (some (response r)) = some r
as_response _ = none

-- state.entities.some((entity) => entity.id === id)
abbrev pub knows : WorldState → Text → Bool
knows s k = has (entity_ids s.entities) k

-- validatePair, and what is answered after it.
unfoldable pub validate_pair :
    WorldState → Text → Text → SocialResolutionResult → SocialResolutionResult
validate_pair s first second rest =
    if not (knows s first)
    then social_failure entity_not_found (some first)
    else if not (knows s second)
    then social_failure entity_not_found (some second)
    else rest

unfoldable pub resolve_social_request : WorldState → Value → SocialResolutionResult
resolve_social_request s raw =
    if not (is_valid_state s)
    then social_failure invalid_state none
    else elim (as_request (as_social_act raw)) [
      | none ↦ social_failure invalid_social_act none
      | some r ↦ validate_pair s r.from_entity_id r.to_entity_id (ok (requested r))
    ]

unfoldable pub resolve_social_permission : WorldState → Value → SocialResolutionResult
resolve_social_permission s raw =
    if not (is_valid_state s)
    then social_failure invalid_state none
    else elim (as_permission (as_social_act raw)) [
      | none ↦ social_failure invalid_social_act none
      | some p ↦ validate_pair s p.from_entity_id p.to_entity_id (ok (permitted p))
    ]

-- The checks of a response against the request.
unfoldable pub answer_request : WorldState → SocialRequest → SocialResponse → SocialResolutionResult
answer_request s q r =
    if not (knows s r.responder_id)
    then social_failure entity_not_found (some r.responder_id)
    else if not (text_eq r.proposal_id q.proposal_id)
    then social_failure proposal_mismatch (some r.proposal_id)
    else if not (text_eq r.responder_id q.to_entity_id)
    then social_failure responder_mismatch (some r.responder_id)
    else ok (responded r)

unfoldable pub resolve_social_response : WorldState → Value → Value → SocialResolutionResult
resolve_social_response s known raw =
    if not (is_valid_state s)
    then social_failure invalid_state none
    else elim (as_request (as_social_act known)) [
      | none ↦ social_failure invalid_social_act none
      | some q ↦ elim (as_response (as_social_act raw)) [
        | none ↦ social_failure invalid_social_act none
        | some r ↦ validate_pair s q.from_entity_id q.to_entity_id (answer_request s q r)
      ]
    ]
