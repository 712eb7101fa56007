-- ===== src/Agent/Identity/Laws.antt =====
-- agent-credential-service.ts: what an issued credential may be used for.
use workspace_os.Base.{
  String, true, false, not, List, Result, ok, err, if◌then◌else◌, ◌≡◌, ◌↔◌, refl, ◌∙◌, arith,
  eq_iff, ◌==◌,
}
use workspace_os.Base.Text.{is_blank}
use workspace_os.Base.Sets.{has_all}
use workspace_os.Base.Number.{nan}
use workspace_os.Base.Date.{Date, at, invalid, time_plus, new_date}
use workspace_os.Core.Member.{agent}
use workspace_os.Core.AgentCredential
use workspace_os.Core.AgentCredential.{
  AgentCredential, AgentCredentialProps, InvalidAgentCredentialError, is_expired, has_all_scopes,
  matches_token_hash,
}
use workspace_os.Core.AgentCredential.Laws.{create_keeps, invalid_expiry_never_expires}
use workspace_os.Agent.Identity.{
  IssueCredentialInput, IssuedCredential, CredentialVerificationFailure, invalid_token, expired,
  insufficient_scope, issue, verify,
}

module _ (hash_token : String → String) where
  -- A token is accepted exactly if its hash is the stored one, the credential is not expired and it
  -- has every scope asked for.
  pub verify_ok_iff :
      (token : String) (c : AgentCredential) (scopes : List String) (now : Date)
      → (verify hash_token token c scopes now ≡ ok tt) ↔ (
          (c.token_hash ≡ hash_token token)
          × (is_expired c now ≡ false)
          × (has_all_scopes c scopes ≡ true))
  unfolding verify matches_token_hash
  verify_ok_iff token c scopes now = (
    λ h. ground (arith, eq_iff c.token_hash (hash_token token)),
    λ h. ground (arith, eq_iff c.token_hash (hash_token token)),
  )

  abbrev props : String → String → IssueCredentialInput → Date → AgentCredentialProps
  props token id input now = record {
    id = id;
    agent_member_id = input.agent.id;
    token_hash = hash_token token;
    scopes = input.scopes;
    issued_at = now;
    expires_at = new_date (time_plus now input.ttl_ms);
  }

  issue_parts :
      (token id : String) (input : IssueCredentialInput) (now : Date) (out : IssuedCredential)
      → issue hash_token token id input now ≡ ok out
      → (input.agent.type ≡ agent)
        × (out.token ≡ token)
        × (AgentCredential.create (props token id input now) ≡ ok out.credential)
  unfolding issue
  issue_parts token id input now out h = ground arith

  -- What `verify` answers about a credential issued for `token` and `scopes`.
  abbrev pub answer :
      String
      → List String
      → String
      → AgentCredential
      → List String
      → Date
      → Result CredentialVerificationFailure (Unit {0})
  answer token scopes presented c required later =
      if not (hash_token token == hash_token presented)
      then err invalid_token
      else if is_expired c later
      then err expired
      else if not (has_all scopes required)
      then err insufficient_scope
      else ok tt

  -- A credential is issued to agents only and is bound to that agent. At any later time `verify`
  -- refuses a token whose hash is not that of the issued one, then an expired credential, then a
  -- required scope that was not asked for at the issue, and accepts everything else; so the token
  -- returned by `issue` is accepted, for the scopes asked for, until it expires.
  pub verify-issue :
      (token id : String) (input : IssueCredentialInput) (now : Date) (out : IssuedCredential)
      → issue hash_token token id input now ≡ ok out
      → (input.agent.type ≡ agent)
        × (out.credential.agent_member_id ≡ input.agent.id)
        × (out.token ≡ token)
        × ((presented : String) (required : List String) (later : Date)
            → verify hash_token presented out.credential required later
              ≡ answer token input.scopes presented out.credential required later)
  unfolding verify matches_token_hash
  verify-issue token id input now out h =
      let (kind, same, made) = issue_parts token id input now out h in
      let (hash, member, scopes) = create_keeps _ out.credential made in
      (kind, member, same, λ presented required later. rw (scopes required, hash))

  never_expires : (now : Date) → new_date (time_plus now nan) ≡ invalid
  unfolding new_date time_plus
  never_expires (at z) = refl
  never_expires invalid = refl

  -- An agent that asks for a lifetime of NaN milliseconds gets a credential, and its token is
  -- accepted at every time, for every list of scopes that were asked for.
  pub nan_ttl_never_expires :
      (token id : String) (input : IssueCredentialInput) (now : Date)
      → input.agent.type ≡ agent
      → input.ttl_ms ≡ nan
      → is_blank id ≡ false
      → is_blank input.agent.id ≡ false
      → is_blank (hash_token token) ≡ false
      → (out : IssuedCredential) × (issue hash_token token id input now ≡ ok out)
        × ((later : Date) (required : List String)
            → has_all input.scopes required ≡ true
            → verify hash_token token out.credential required later ≡ ok tt)
  unfolding issue
  nan_ttl_never_expires token id input now kind ttl named agent_named hashed =
      let (c, made, forever) =
        invalid_expiry_never_expires (props token id input now)
          (record { id = named; agent_member_id = agent_named; token_hash = hashed })
          (rw ttl (never_expires now)) in
      (
        record { credential = c; token = token },
        rw (kind, made),
        λ later required covered. (verify_ok_iff token c required later).1 (
          (create_keeps _ c made).0,
          forever later,
          (create_keeps _ c made).2 required ∙ covered,
        ),
      )
