-- ===== src/Core/AgentCredential.antt =====
-- packages/core/src/domain/agent-credential.ts: a short-lived, scoped credential of an agent.
pub mod Laws
use workspace_os.Base.{
  String, Bool, true, false, not, ◌||◌, List, Option, none, some, Result, ok, err, ◌>>=◌, ◌>>◌,
  if◌then◌else◌, ◌==◌,
}
use workspace_os.Base.Text.{is_blank}
use workspace_os.Base.Sets.{has, has_all as set_has_all, set_of}
use workspace_os.Base.Int.{ℤ, pos, leb_ℤ, ltb_ℤ}
use workspace_os.Base.Date.{Date, time_minus, time_ge}

abbrev pub max_agent_credential_ttl_ms : ℤ
max_agent_credential_ttl_ms = pos 3600000

pub record AgentCredentialProps : Type 0 where
  pub id : String
  pub agent_member_id : String
  pub token_hash : String
  pub scopes : List String
  pub issued_at : Date
  pub expires_at : Date

pub data InvalidAgentCredentialError : Type 0 where
  blank_field : String → InvalidAgentCredentialError
  expires_before_issue : InvalidAgentCredentialError
  ttl_too_long : Option ℤ → InvalidAgentCredentialError

pub record AgentCredential : Type 0 where
  pub id : String
  pub agent_member_id : String
  pub token_hash : String
  pub scopes : List String
  pub issued_at : Date
  pub expires_at : Date

pub require_non_blank : String → String → Result InvalidAgentCredentialError (Unit {0})
require_non_blank field value = if is_blank value then err (blank_field field) else ok tt

-- `ttl <= 0`, which is false of NaN
abbrev not_positive : Option ℤ → Bool
not_positive none = false
not_positive (some ttl) = leb_ℤ ttl (pos 0)

-- `ttl > MAX_AGENT_CREDENTIAL_TTL_MS`, which is false of NaN
abbrev too_long : Option ℤ → Bool
too_long none = false
too_long (some ttl) = ltb_ℤ max_agent_credential_ttl_ms ttl

check_ttl : Option ℤ → Result InvalidAgentCredentialError (Unit {0})
check_ttl ttl =
    if not_positive ttl
    then err expires_before_issue
    else if too_long ttl
    then err (ttl_too_long ttl)
    else ok tt

-- the constructor
unfoldable pub construct : AgentCredentialProps → AgentCredential
construct props = record {
  id = props.id;
  agent_member_id = props.agent_member_id;
  token_hash = props.token_hash;
  scopes = set_of props.scopes;
  issued_at = props.issued_at;
  expires_at = props.expires_at;
}

unfoldable pub create : AgentCredentialProps → Result InvalidAgentCredentialError AgentCredential
unfolding require_non_blank check_ttl construct
create props = do
  require_non_blank "id" props.id
  require_non_blank "agentMemberId" props.agent_member_id
  require_non_blank "tokenHash" props.token_hash
  check_ttl (time_minus props.expires_at props.issued_at)
  ok (construct props)

-- `none` is NaN
unfoldable pub ttl_ms : AgentCredential → Option ℤ
ttl_ms c = time_minus c.expires_at c.issued_at

unfoldable pub is_expired : AgentCredential → Date → Bool
is_expired c now = time_ge now c.expires_at

unfoldable pub is_active : AgentCredential → Date → Bool
unfolding is_expired
is_active c now = not (is_expired c now)

unfoldable pub has_scope : AgentCredential → String → Bool
has_scope c scope = has c.scopes scope

unfoldable pub has_all_scopes : AgentCredential → List String → Bool
has_all_scopes c scopes = set_has_all c.scopes scopes

unfoldable pub matches_token_hash : AgentCredential → String → Bool
matches_token_hash c token_hash = c.token_hash == token_hash

unfoldable pub to_json : AgentCredential → AgentCredentialProps
to_json c = record {
  id = c.id;
  agent_member_id = c.agent_member_id;
  token_hash = c.token_hash;
  scopes = c.scopes;
  issued_at = c.issued_at;
  expires_at = c.expires_at;
}
