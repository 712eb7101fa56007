-- ===== src/Agent/Identity.antt =====
-- packages/agent/src/identity/agent-credential-service.ts. The random token, the random id and the
-- hash are node:crypto's: they are parameters.
pub mod Laws
use workspace_os.Base.{
  String, Bool, true, false, not, List, Option, none, some, Result, ok, err, ◌>>=◌, ◌>>◌, map_err,
  if◌then◌else◌,
}
use workspace_os.Base.Number.{Number}
use workspace_os.Base.Date.{Date, time_plus, new_date}
use workspace_os.Core.Member.{Member, MemberType, human, agent}
use workspace_os.Core.AgentCredential
use workspace_os.Core.AgentCredential.{
  AgentCredential, InvalidAgentCredentialError, is_expired, has_all_scopes, matches_token_hash,
}

pub record IssueCredentialInput : Type 0 where
  pub agent : Member
  pub scopes : List String
  pub ttl_ms : Number

pub record IssuedCredential : Type 0 where
  pub credential : AgentCredential
  pub token : String

pub data CredentialVerificationFailure : Type 0 where
  invalid_token expired insufficient_scope : CredentialVerificationFailure

-- What `issue` throws.
pub data IssueError : Type 0 where
  not_an_agent : String → IssueError
  invalid_credential : InvalidAgentCredentialError → IssueError

require_agent : Member → MemberType → Result IssueError (Unit {0})
require_agent m human = err (not_an_agent m.id)
require_agent m agent = ok tt

-- `hash_token`, with the token and the id that were drawn
module _ (hash_token : String → String) where
  unfoldable pub issue :
      String → String → IssueCredentialInput → Date → Result IssueError IssuedCredential
  unfolding require_agent
  issue token id input now = do
    require_agent input.agent input.agent.type
    credential ← map_err invalid_credential (
        AgentCredential.create (record {
          id = id;
          agent_member_id = input.agent.id;
          token_hash = hash_token token;
          scopes = input.scopes;
          issued_at = now;
          expires_at = new_date (time_plus now input.ttl_ms);
        }))
    ok (record { credential = credential; token = token })

  unfoldable pub verify :
      String
      → AgentCredential
      → List String
      → Date
      → Result CredentialVerificationFailure (Unit {0})
  verify token credential required_scopes now =
      if not (matches_token_hash credential (hash_token token))
      then err invalid_token
      else if is_expired credential now
      then err expired
      else if not (has_all_scopes credential required_scopes)
      then err insufficient_scope
      else ok tt
