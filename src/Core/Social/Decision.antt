-- ===== src/Core/Social/Decision.antt =====
-- When a response to a request is accepted.
use sandboxengine.Prelude.{◌≡◌, true, some}
use sandboxengine.Prelude.Text.{Text}
use sandboxengine.Contracts.Value.{Value}
use sandboxengine.Contracts.World.{WorldState}
use sandboxengine.Contracts.Social.{SocialRequest, SocialResponse, as_social_act}
use sandboxengine.Core.Effects.{is_valid_state}
use sandboxengine.Core.Social.{SocialCalculatedAction, responded, as_request, as_response, knows}

-- A response that answers a request: both are read from the given values, both persons of the
-- request are in the state, and the response names the request's proposal and comes from the person
-- that it was made to.
pub record IsAnswer (s : WorldState) (known raw : Value) (a : SocialCalculatedAction) : Type 0 where
  pub valid : is_valid_state s ≡ true
  pub question : SocialRequest
  pub question_read : as_request (as_social_act known) ≡ some question
  pub reply : SocialResponse
  pub reply_read : as_response (as_social_act raw) ≡ some reply
  pub asker_known : knows s question.from_entity_id ≡ true
  pub asked_known : knows s question.to_entity_id ≡ true
  pub same_proposal : reply.proposal_id ≡ question.proposal_id
  pub by_the_asked : reply.responder_id ≡ question.to_entity_id
  pub action : a ≡ responded reply
