-- ===== src/Governance/PolicyEngine/Decisions.antt =====
-- policy-engine.ts: when each outcome is given, and what it depends on.
use workspace_os.Base.{
  String, true, false, not, List, [], Option, none, some, or_else, ◌≡◌, ◌↔◌, ◌⊎◌, inl, inr, refl,
  ap, ◌∙◌, arith, eq_iff, ◌≢◌, Option-cases,
}
use workspace_os.Base.Sets.{has, has_any_witness, has_any_of, has_any_same}
use workspace_os.Core.Member.{Member, has_role, has_any_role}
use workspace_os.Governance.Action.{
  Consequence, routine, consequential, irreversible, ActionDefinition, get,
}
use workspace_os.Governance.PolicyEngine.{
  allow, requires_approval, AuthorizationContext, PolicyEngine, denied, fails_role_gate,
  fails_relationship_gate, authorize_found, authorize, can_execute_directly, decide_by_consequence,
}

-- The member holds one of the roles, where roles are listed.
abbrev pub HoldsRole : Option (List String) → Member → Type 0
HoldsRole none m = Unit
HoldsRole (some roles) m = (r : String) × (has roles r ≡ true) × (has_role m r ≡ true)

-- The member has the relationship, where a relationship other than the empty text is named.
abbrev pub IsRelated : Option String → AuthorizationContext → Type 0
IsRelated none c = Unit
IsRelated (some r) c = (r ≡ "") ⊎ (has (or_else c.relationships []) r ≡ true)

-- The action is registered under the name, and the member passes both of its gates.
pub record IsEligible (engine : PolicyEngine) (m : Member) (name : String)
    (c : AuthorizationContext) (action : ActionDefinition) : Type 0 where
  pub registered : get engine.registry name ≡ some action
  pub role : HoldsRole action.required_roles m
  pub related : IsRelated action.required_relationship c

role_gate_sound :
    (o : Option (List String)) (m : Member) → fails_role_gate o m ≡ false → HoldsRole o m
unfolding fails_role_gate has_any_role has_role
role_gate_sound none m h = tt
role_gate_sound (some roles) m h = has_any_witness m.roles roles (ground arith)

role_gate_complete :
    (o : Option (List String)) (m : Member) → HoldsRole o m → fails_role_gate o m ≡ false
unfolding fails_role_gate has_any_role has_role
role_gate_complete none m h = refl
role_gate_complete (some roles) m (r, listed, held) = rw (has_any_of m.roles roles r listed held)

relationship_gate_sound :
    (o : Option String) (c : AuthorizationContext)
    → fails_relationship_gate o c ≡ false
    → IsRelated o c
unfolding fails_relationship_gate
relationship_gate_sound none c h = tt
relationship_gate_sound (some r) c h = ground (arith, eq_iff r "")

relationship_gate_complete :
    (o : Option String) (c : AuthorizationContext)
    → IsRelated o c
    → fails_relationship_gate o c ≡ false
unfolding fails_relationship_gate
relationship_gate_complete none c h = refl
relationship_gate_complete (some r) c h = ground (arith, eq_iff r "")

-- A decision that the consequence gave, and not a gate.
decided :
    (action : ActionDefinition) (m : Member) (c : AuthorizationContext) (k : Consequence)
    → authorize_found (some action) m c ≡ decide_by_consequence k
    → (fails_role_gate action.required_roles m ≡ false)
      × (fails_relationship_gate action.required_relationship c ≡ false)
      × (action.consequence ≡ k)
unfolding authorize_found decide_by_consequence
decided action m c k h = ground arith

undecided : (k : Consequence) (reason : String) → denied reason ≢ decide_by_consequence k
unfolding decide_by_consequence
undecided k reason h = ground arith

module _ (engine : PolicyEngine) (m : Member) (name : String) (c : AuthorizationContext) where
  authorize_sound :
      (k : Consequence)
      → authorize engine m name c ≡ decide_by_consequence k
      → (action : ActionDefinition) × IsEligible engine m name c action × (action.consequence ≡ k)
  unfolding authorize
  authorize_sound k h = elim (Option-cases (get engine.registry name)) [
    | inl missing ↦ absurd (undecided k "unknown-action" (rw (missing, authorize_found) at h))
    | inr (action, found) ↦
        let (role, related, same) = decided action m c k (rw found at h) in
        (
          action,
          record {
            registered = found;
            role = role_gate_sound action.required_roles m role;
            related = relationship_gate_sound action.required_relationship c related;
          },
          same,
        )
  ]

  authorize_complete :
      (action : ActionDefinition)
      → IsEligible engine m name c action
      → authorize engine m name c ≡ decide_by_consequence action.consequence
  unfolding authorize
  authorize_complete action e = rw (
    e.registered,
    authorize_found,
    role_gate_complete action.required_roles m e.role,
    relationship_gate_complete action.required_relationship c e.related,
  )

  -- The decision of a consequence is given exactly for an eligible action of that consequence.
  authorize_decides :
      (k : Consequence)
      → (authorize engine m name c ≡ decide_by_consequence k) ↔ (
          (action : ActionDefinition) × IsEligible engine m name c action
          × (action.consequence ≡ k))
  authorize_decides k = (
    authorize_sound k,
    λ (action, e, same). authorize_complete action e ∙ ap decide_by_consequence same,
  )

  -- Some registered action of the name has the consequence, and the member passes its gates.
  abbrev pub Decides : Consequence → Type 0
  Decides k =
      (action : ActionDefinition) × IsEligible engine m name c action × (action.consequence ≡ k)

  -- `authorize` allows exactly if the name is registered, the member holds one of the roles where
  -- roles are listed, the member has the named relationship if it is not the empty text, and the
  -- action is routine. It asks for one approver exactly if the same holds of a consequential action,
  -- and for two, the dual control, exactly if it holds of an irreversible one.
  pub authorize_iff :
      ((authorize engine m name c
          ≡ record { outcome = allow; reason = "routine-allowed"; approvers_required = none })
        ↔ Decides routine)
      × ((authorize engine m name c ≡ record {
        outcome = requires_approval;
        reason = "consequential-requires-approval";
        approvers_required = some 1;
      })
          ↔ Decides consequential)
      × ((authorize engine m name c ≡ record {
        outcome = requires_approval;
        reason = "irreversible-requires-dual-control";
        approvers_required = some 2;
      })
          ↔ Decides irreversible)
  unfolding decide_by_consequence
  authorize_iff =
      (authorize_decides routine, authorize_decides consequential, authorize_decides irreversible)

  allow_decided :
      (authorize engine m name c).outcome ≡ allow
      → authorize engine m name c ≡ decide_by_consequence routine
  unfolding authorize decide_by_consequence
  allow_decided h = ground arith

  -- A member may execute directly exactly the registered routine actions whose gates the member
  -- passes: nobody executes a consequential or irreversible action without approval.
  pub can_execute_directly_iff : (can_execute_directly engine m name c ≡ true) ↔ (
      (action : ActionDefinition) × IsEligible engine m name c action
      × (action.consequence ≡ routine))
  unfolding can_execute_directly
  can_execute_directly_iff = (
    λ h. (authorize_decides routine).0 (allow_decided (ground arith)),
    λ e. rw ((authorize_decides routine).1 e) (unfold decide_by_consequence in refl),
  )

same_gate :
    (o : Option (List String)) (m n : Member)
    → ((r : String) → has_role m r ≡ has_role n r)
    → fails_role_gate o m ≡ fails_role_gate o n
unfolding fails_role_gate has_any_role has_role
same_gate none m n h = refl
same_gate (some roles) m n h = ap not (has_any_same m.roles n.roles roles h)

-- Two members who hold the same roles get the same decision, whatever they are: a human and an agent
-- are peers.
pub authorize_peers :
    (engine : PolicyEngine) (m n : Member) (name : String) (c : AuthorizationContext)
    → ((r : String) → has_role m r ≡ has_role n r)
    → authorize engine m name c ≡ authorize engine n name c
unfolding authorize
authorize_peers engine m n name c same = elim (Option-cases (get engine.registry name)) [
  | inl missing ↦ rw missing (unfold authorize_found in refl)
  | inr (action, found) ↦
      rw found (unfold authorize_found in (rw (same_gate action.required_roles m n same)))
]
