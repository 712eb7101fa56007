-- ===== src/Governance/PolicyDefinition/Laws.antt =====
-- policy-definition.ts: which policies are accepted, what a revision keeps, and that the registry
-- made from a policy shadows no action.
use mathlib.Core.Path.{subst}
use mathlib.Core.List.{Memᴰ}
use workspace_os.Base.{
  ℕ, zero, suc, ◌+◌, ◌≤◌, String, true, false, List, ◌∷◌, [], Option, none, some, ok, or_else, ◌≡◌,
  refl, sym, ap, ◌∙◌, arith, eq_iff, eq_refl, ◌↔◌,
}
use workspace_os.Base.Text.{is_blank}
use workspace_os.Base.Sets.{has, add, has-add, IsDistinct}
use workspace_os.Base.Int.{ℤ, pos}
use workspace_os.Base.Number.{of_ℕ, as_integer, as_integer-of_ℤ}
use workspace_os.Base.Maps.{lookup, keys, lookup_fresh, lookup-map_of}
use workspace_os.Governance.Action.{ActionDefinition, entries, get, of}
use workspace_os.Governance.PolicyDefinition.{
  PolicyDefinitionProps, PolicyDefinition, check_names, at_least_one, create, to_action_registry,
  revise, to_json,
}

abbrev pub names : List ActionDefinition → List String
names [] = []
names (a ∷ rest) = a.name ∷ names rest

-- None of the names was seen before.
abbrev IsFresh : List String → List ActionDefinition → Type 0
IsFresh seen [] = Unit
IsFresh seen (a ∷ rest) = (has seen a.name ≡ false) × IsFresh seen rest

IsFresh-add :
    (seen : List String) (x : String) (l : List ActionDefinition)
    → has (names l) x ≡ false
    → IsFresh seen l
    → IsFresh (add seen x) l
unfolding has
IsFresh-add seen x [] h f = tt
IsFresh-add seen x (a ∷ rest) h (fresh, f) = (
  has-add seen x a.name ∙ ground (arith, eq_iff x a.name, eq_iff a.name x),
  IsFresh-add seen x rest (ground arith) f,
)

IsFresh-of_add :
    (seen : List String) (x : String) (l : List ActionDefinition)
    → IsFresh (add seen x) l
    → (has (names l) x ≡ false) × IsFresh seen l
unfolding has
IsFresh-of_add seen x [] f = (refl, tt)
IsFresh-of_add seen x (a ∷ rest) (fresh, f) =
    let (absent, f') = IsFresh-of_add seen x rest f in
    (
      ground (arith, eq_iff x a.name, eq_iff a.name x, has-add seen x a.name),
      (ground (arith, has-add seen x a.name), f'),
    )

check_names_sound :
    (seen : List String) (l : List ActionDefinition)
    → check_names seen l ≡ ok tt
    → IsFresh seen l × IsDistinct (names l)
unfolding check_names
check_names_sound seen [] h = (tt, tt)
check_names_sound seen (a ∷ rest) h =
    let (f, d) = check_names_sound (add seen a.name) rest (ground arith) in
    let (absent, f') = IsFresh-of_add seen a.name rest f in ((ground arith, f'), (absent, d))

check_names_complete :
    (seen : List String) (l : List ActionDefinition)
    → IsFresh seen l
    → IsDistinct (names l)
    → check_names seen l ≡ ok tt
unfolding check_names
check_names_complete seen [] f d = refl
check_names_complete seen (a ∷ rest) (fresh, f) (absent, d) =
    rw
      (fresh, check_names_complete (add seen a.name) rest (IsFresh-add seen a.name rest absent f) d)

IsFresh-nil : (l : List ActionDefinition) → IsFresh [] l
unfolding has
IsFresh-nil [] = tt
IsFresh-nil (a ∷ rest) = (refl, IsFresh-nil rest)

-- The loop accepts a list of actions exactly if no name occurs twice.
check_names_iff : (l : List ActionDefinition) → (check_names [] l ≡ ok tt) ↔ IsDistinct (names l)
check_names_iff l =
    (λ h. (check_names_sound [] l h).1, λ d. check_names_complete [] l (IsFresh-nil l) d)

pub record IsValid (p : PolicyDefinition) : Type 0 where
  pub policy_id : is_blank p.policy_id ≡ false
  pub distinct : IsDistinct (names p.actions)
  pub version : 1 ≤ p.version

at_least_one_sound : (o : Option ℤ) (n : ℕ) → at_least_one o ≡ some n → (o ≡ some (pos n)) × (1 ≤ n)
unfolding at_least_one
at_least_one_sound (some (pos (suc k))) n h = ground arith
at_least_one_sound o n h = cc

at_least_one-of_ℕ : (n : ℕ) → 1 ≤ n → at_least_one (as_integer (of_ℕ n)) ≡ some n
unfolding at_least_one
at_least_one-of_ℕ zero h = absurd (omega arith)
at_least_one-of_ℕ (suc k) h = rw (as_integer-of_ℤ (pos (suc k)))

create_parts :
    (p : PolicyDefinitionProps) (q : PolicyDefinition)
    → create p ≡ ok q
    → (is_blank p.policy_id ≡ false)
      × (check_names [] p.actions ≡ ok tt)
      × (at_least_one (as_integer (or_else p.version (of_ℕ 1))) ≡ some q.version)
      × (q.policy_id ≡ p.policy_id)
      × (q.actions ≡ p.actions)
unfolding create
create_parts p q h = ground arith

-- What `create` builds is valid: the id is not blank, no action name occurs twice, the version is the
-- whole number given (1 if none is given) and at least 1. The id and the actions are the props'.
pub policy_builds :
    (p : PolicyDefinitionProps) (q : PolicyDefinition)
    → create p ≡ ok q
    → IsValid q
      × (q.policy_id ≡ p.policy_id)
      × (q.actions ≡ p.actions)
      × (as_integer (or_else p.version (of_ℕ 1)) ≡ some (pos q.version))
policy_builds p q h =
    let (id, checked, version, same_id, same_actions) = create_parts p q h in
    let (exact, low) = at_least_one_sound _ q.version version in
    (
      record {
        policy_id = rw same_id id;
        distinct = rw same_actions ((check_names_iff p.actions).0 checked);
        version = low;
      },
      same_id,
      same_actions,
      exact,
    )

-- A valid policy that is written out and read back through `create` is the same policy.
pub policy_round_trip : (p : PolicyDefinition) → IsValid p → create (to_json p) ≡ ok p
unfolding create to_json
policy_round_trip p v =
    rw
      (v.policy_id, (check_names_iff p.actions).1 v.distinct, at_least_one-of_ℕ p.version v.version)

pos_inj : {m n : ℕ} → some (pos m) ≡ some (pos n) → m ≡ n
pos_inj h = ground arith

policy_path :
    (q : PolicyDefinition) {id : String} {actions : List ActionDefinition} {n : ℕ}
    → q.policy_id ≡ id
    → q.actions ≡ actions
    → q.version ≡ n
    → q ≡ record { policy_id = id; actions = actions; version = n }
policy_path q e f g = λ i. record { policy_id = e i; actions = f i; version = g i }

abbrev revision : PolicyDefinition → List ActionDefinition → PolicyDefinitionProps
revision p actions = record {
  policy_id = p.policy_id;
  actions = actions;
  version = some (of_ℕ (p.version + 1));
}

-- On a valid policy a revision succeeds exactly for actions whose names are distinct, and then gives
-- a valid policy of the same id, with those actions and the next version.
pub revise_iff :
    (p q : PolicyDefinition) (actions : List ActionDefinition)
    → IsValid p
    → (revise p actions ≡ ok q) ↔ (
        IsDistinct (names actions)
        × (q ≡ record { policy_id = p.policy_id; actions = actions; version = p.version + 1 }))
unfolding revise create
revise_iff p q actions v = (
  λ h.
      let (valid, id, same_actions, exact) = policy_builds (revision p actions) q h in
      (
        subst (λ l. IsDistinct (names l)) same_actions valid.distinct,
        policy_path q id same_actions (pos_inj (sym exact ∙ as_integer-of_ℤ (pos (p.version + 1)))),
      ),
  λ (d, same). rw (
    v.policy_id,
    (check_names_iff actions).1 d,
    at_least_one-of_ℕ (p.version + 1) (omega arith),
    same,
  ),
)

has_name :
    {a : ActionDefinition} {l : List ActionDefinition} → Memᴰ a l → has (names l) a.name ≡ true
unfolding has
has_name {l = []} m = elim m [ ]
has_name {a} {l = b ∷ rest} (Memᴰ.head e) = rw (← e) (rw (eq_refl a.name))
has_name {a} {l = b ∷ rest} (Memᴰ.tail m) = ground (arith, has_name m)

lookup_listed :
    {a : ActionDefinition} {l : List ActionDefinition}
    → Memᴰ a l
    → IsDistinct (names l)
    → lookup a.name (entries l) ≡ some a
unfolding lookup
lookup_listed {l = []} m d = elim m [ ]
lookup_listed {a} {l = b ∷ rest} (Memᴰ.head e) d = rw (← e) (rw (eq_refl a.name))
lookup_listed {a} {l = b ∷ rest} (Memᴰ.tail m) (fresh, d) =
    ground (arith, eq_iff b.name a.name, has_name m, lookup_listed m d)

keys-entries : (l : List ActionDefinition) → keys (entries l) ≡ names l
keys-entries [] = refl
keys-entries (a ∷ rest) = ap (λ ks. a.name ∷ ks) (keys-entries rest)

-- The registry of a valid policy answers each of the policy's actions with that action itself, and
-- knows no other name: no action shadows another.
pub registry_exact :
    (p : PolicyDefinition)
    → IsValid p
    → ((a : ActionDefinition) → Memᴰ a p.actions → get (to_action_registry p) a.name ≡ some a)
      × ((name : String)
          → has (names p.actions) name ≡ false
          → get (to_action_registry p) name ≡ none)
unfolding to_action_registry of get
registry_exact p v =
    let d : IsDistinct (keys (entries p.actions)) = rw (keys-entries p.actions) v.distinct in
    (
      λ a m. lookup-map_of a.name (entries p.actions) d ∙ lookup_listed m v.distinct,
      λ name absent.
          lookup-map_of name (entries p.actions) d
          ∙ lookup_fresh name (entries p.actions) (rw (keys-entries p.actions) absent),
    )
