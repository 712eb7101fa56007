-- ===== src/Core/AgentCredential/Laws.antt =====
-- agent-credential.ts: the lifetime of a credential.
use workspace_os.Base.{String, true, false, List, ok, ◌≡◌, refl, ap, arith}
use workspace_os.Base.Text.{is_blank}
use workspace_os.Base.Sets.{has_all, set_of-IsDistinct, set_of_of_IsDistinct, has_all-set_of}
use workspace_os.Base.Int.{ℤ, ◌+ℤ◌, ◌≤ℤ◌, ◌<ℤ◌}
use workspace_os.Base.Date.{Date, at, invalid, time_minus, time_ge}
use workspace_os.Core.AgentCredential.{
  AgentCredentialProps, AgentCredential, max_agent_credential_ttl_ms, check_ttl, construct, create,
  is_expired, is_active, has_all_scopes, to_json,
}

pub record IsNamed (p : AgentCredentialProps) : Type 0 where
  pub id : is_blank p.id ≡ false
  pub agent_member_id : is_blank p.agent_member_id ≡ false
  pub token_hash : is_blank p.token_hash ≡ false

create_parts :
    (p : AgentCredentialProps) (c : AgentCredential)
    → create p ≡ ok c
    → IsNamed p × (check_ttl (time_minus p.expires_at p.issued_at) ≡ ok tt) × (c ≡ construct p)
unfolding create
create_parts p c h = (ground arith, ground arith, ground arith)

check_ttl_bounds :
    (i e : ℤ)
    → check_ttl (time_minus (at e) (at i)) ≡ ok tt
    → (i <ℤ e) × (e ≤ℤ i +ℤ max_agent_credential_ttl_ms)
unfolding check_ttl time_minus
check_ttl_bounds i e h = ground arith

check_ttl_of_bounds :
    (i e : ℤ)
    → i <ℤ e
    → e ≤ℤ i +ℤ max_agent_credential_ttl_ms
    → check_ttl (time_minus (at e) (at i)) ≡ ok tt
unfolding check_ttl time_minus
check_ttl_of_bounds i e h k = ground arith

-- With real dates, a credential that could be created expires after its issue and at most one hour
-- after it: it is active at its issue, and expired at every time from one hour after the issue on.
pub credential_expires :
    (p : AgentCredentialProps) (c : AgentCredential) (i e : ℤ)
    → create p ≡ ok c
    → p.issued_at ≡ at i
    → p.expires_at ≡ at e
    → (is_active c (at i) ≡ true)
      × ((n : ℤ) → i +ℤ max_agent_credential_ttl_ms ≤ℤ n → is_expired c (at n) ≡ true)
unfolding is_active construct time_ge
credential_expires p c i e h pi pe =
    let (named, ttl, same) = create_parts p c h in
    let (later, bounded) = check_ttl_bounds i e (rw (pe, pi) at ttl) in
    rw (same, pe) (ground arith, λ n late. ground arith)

time_ge-invalid : (d : Date) → time_ge d invalid ≡ false
unfolding time_ge
time_ge-invalid (at z) = refl
time_ge-invalid d = refl

-- An expiry that is not a real date passes the checks, and the credential never expires.
pub invalid_expiry_never_expires :
    (p : AgentCredentialProps)
    → IsNamed p
    → p.expires_at ≡ invalid
    → (c : AgentCredential) × (create p ≡ ok c) × ((now : Date) → is_expired c now ≡ false)
unfolding create is_expired time_ge time_minus
invalid_expiry_never_expires p v h =
    (construct p, rw (v.id, v.agent_member_id, v.token_hash, h), λ now. rw h (time_ge-invalid now))

-- A credential that is written out and read back through `create` is the same credential.
pub credential_round_trip :
    (p : AgentCredentialProps) (c : AgentCredential) → create p ≡ ok c → create (to_json c) ≡ ok c
unfolding create to_json construct
credential_round_trip p c h =
    let (v, ttl, same) = create_parts p c h in
    rw same (
      rw (
        v.id,
        v.agent_member_id,
        v.token_hash,
        ttl,
        set_of_of_IsDistinct _ (set_of-IsDistinct p.scopes),
      ))

-- A created credential keeps the hash and the member, and covers a list of scopes exactly as far as
-- its props' scopes do.
pub create_keeps :
    (p : AgentCredentialProps) (c : AgentCredential)
    → create p ≡ ok c
    → (c.token_hash ≡ p.token_hash)
      × (c.agent_member_id ≡ p.agent_member_id)
      × ((scopes : List String) → has_all_scopes c scopes ≡ has_all p.scopes scopes)
unfolding construct has_all_scopes
create_keeps p c h =
    let same = (create_parts p c h).2 in
    (
      ap (λ (x : AgentCredential). x.token_hash) same,
      ap (λ (x : AgentCredential). x.agent_member_id) same,
      λ scopes. rw same (has_all-set_of p.scopes scopes),
    )
