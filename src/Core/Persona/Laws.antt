-- ===== src/Core/Persona/Laws.antt =====
-- persona.ts: what a persona that was built satisfies, and what a revision changes.
use workspace_os.Base.{
  ℕ, zero, suc, ◌+◌, ◌≤◌, String, false, Option, none, some, ok, or_else, ◌≡◌, refl, sym, ap, ◌∙◌,
  arith, ◌↔◌,
}
use workspace_os.Base.Text.{is_blank}
use workspace_os.Base.Sets.{has, IsDistinct, has-set_of, set_of-IsDistinct, set_of_of_IsDistinct}
use workspace_os.Base.Int.{ℤ, pos}
use workspace_os.Base.Number.{Number, of_ℕ, as_integer, as_integer-of_ℤ, num_lt, num_gt}
use workspace_os.Core.Persona.{
  PersonaModelConfig, PersonaProps, PersonaRevision, Persona, at_least_one, validate_model,
  construct, create, allows_tool, to_json, revise, check_temperature, check_max_tokens,
}

abbrev pub IsTemperature : Option Number → Type 0
IsTemperature none = Unit
IsTemperature (some t) = (num_lt t 0 ≡ false) × (num_gt t 2 ≡ false)

abbrev pub IsMaxTokens : Option Number → Type 0
IsMaxTokens none = Unit
IsMaxTokens (some n) = (k : ℕ) × (as_integer n ≡ some (pos (suc k)))

pub record IsModel (m : PersonaModelConfig) : Type 0 where
  pub model_id : is_blank m.model_id ≡ false
  pub temperature : IsTemperature m.temperature
  pub max_tokens : IsMaxTokens m.max_tokens

pub record IsValid (p : Persona) : Type 0 where
  pub persona_id : is_blank p.persona_id ≡ false
  pub name : is_blank p.name ≡ false
  pub role : is_blank p.role ≡ false
  pub system_prompt : is_blank p.system_prompt ≡ false
  pub tools : IsDistinct p.allowed_tools
  pub model : IsModel p.model
  pub version : 1 ≤ p.version

pub at_least_one_sound :
    (o : Option ℤ) (n : ℕ) → at_least_one o ≡ some n → (o ≡ some (pos n)) × (1 ≤ n)
unfolding at_least_one
at_least_one_sound (some (pos (suc k))) n h = ground arith
at_least_one_sound o n h = cc

at_least_one_complete : (n : ℕ) → 1 ≤ n → at_least_one (some (pos n)) ≡ some n
unfolding at_least_one
at_least_one_complete zero h = absurd (omega arith)
at_least_one_complete (suc k) h = refl

-- A version that was written out is read back.
at_least_one-of_ℕ : (n : ℕ) → 1 ≤ n → at_least_one (as_integer (of_ℕ n)) ≡ some n
at_least_one-of_ℕ n h = rw (as_integer-of_ℤ (pos n)) (at_least_one_complete n h)

check_temperature_iff : (t : Option Number) → (check_temperature t ≡ ok tt) ↔ IsTemperature t
unfolding check_temperature
check_temperature_iff none = (λ h. tt, λ h. refl)
check_temperature_iff (some t) = (λ h. ground arith, λ h. ground arith)

check_max_tokens_sound : (n : Option Number) → check_max_tokens n ≡ ok tt → IsMaxTokens n
unfolding check_max_tokens at_least_one
check_max_tokens_sound none h = tt
check_max_tokens_sound (some n) h = ground arith

check_max_tokens_complete : (n : Option Number) → IsMaxTokens n → check_max_tokens n ≡ ok tt
unfolding check_max_tokens at_least_one
check_max_tokens_complete none h = refl
check_max_tokens_complete (some n) (k, h) = rw (h, check_max_tokens)

validate_model_parts :
    (m : PersonaModelConfig)
    → validate_model m ≡ ok tt
    → (is_blank m.model_id ≡ false)
      × (check_temperature m.temperature ≡ ok tt)
      × (check_max_tokens m.max_tokens ≡ ok tt)
unfolding validate_model
validate_model_parts m h = ground arith

-- A model configuration is accepted exactly if its model id is not blank, its temperature, if any,
-- is neither below 0 nor above 2, and its token limit, if any, is a whole number of at least 1.
pub validate_model_iff : (m : PersonaModelConfig) → (validate_model m ≡ ok tt) ↔ IsModel m
unfolding validate_model
validate_model_iff m = (
  λ h.
      let (id, temperature, tokens) = validate_model_parts m h in
      record {
        model_id = id;
        temperature = (check_temperature_iff m.temperature).0 temperature;
        max_tokens = check_max_tokens_sound m.max_tokens tokens;
      },
  λ v.
      rw (v.model_id, (check_temperature_iff m.temperature).1 v.temperature)
        (check_max_tokens_complete m.max_tokens v.max_tokens),
)

create_parts :
    (p : PersonaProps) (q : Persona)
    → create p ≡ ok q
    → (is_blank p.persona_id ≡ false)
      × (is_blank p.name ≡ false)
      × (is_blank p.role ≡ false)
      × (is_blank p.system_prompt ≡ false)
      × (validate_model p.model ≡ ok tt)
      × (at_least_one (as_integer (or_else p.version (of_ℕ 1))) ≡ some q.version)
      × (q ≡ construct p q.version)
unfolding create
create_parts p q h = ground arith

-- What `create` builds is valid, has the props' own fields, and has as version the whole number
-- given, or 1 if none is given.
pub persona_builds :
    (p : PersonaProps) (q : Persona)
    → create p ≡ ok q
    → IsValid q
      × (q ≡ construct p q.version)
      × (as_integer (or_else p.version (of_ℕ 1)) ≡ some (pos q.version))
persona_builds p q h =
    let (id, name, role, prompt, model, version, same) = create_parts p q h in
    let (exact, low) = at_least_one_sound _ q.version version in
    (
      rw same (
          unfold construct in
          record {
            persona_id = id;
            name = name;
            role = role;
            system_prompt = prompt;
            tools = set_of-IsDistinct p.allowed_tools;
            model = (validate_model_iff p.model).0 model;
            version = low;
          }),
      same,
      exact,
    )

-- A valid persona that is written out and read back through `create` is the same persona.
pub persona_round_trip : (p : Persona) → IsValid p → create (to_json p) ≡ ok p
unfolding create to_json
persona_round_trip p v = rw (
  v.persona_id,
  v.name,
  v.role,
  v.system_prompt,
  (validate_model_iff p.model).1 v.model,
  at_least_one-of_ℕ p.version v.version,
  set_of_of_IsDistinct p.allowed_tools v.tools,
)

pos_inj : {m n : ℕ} → some (pos m) ≡ some (pos n) → m ≡ n
pos_inj h = ground arith

-- A revision that succeeds gives a valid persona of the same id whose version is one higher; each
-- field named in the changes is the one given (the tools as a set), each other field is kept.
pub revise_builds :
    (p q : Persona) (changes : PersonaRevision)
    → revise p changes ≡ ok q
    → IsValid q
      × (q.persona_id ≡ p.persona_id)
      × (q.version ≡ p.version + 1)
      × (q.name ≡ or_else changes.name p.name)
      × (q.role ≡ or_else changes.role p.role)
      × (q.system_prompt ≡ or_else changes.system_prompt p.system_prompt)
      × (q.model ≡ or_else changes.model p.model)
      × ((t : String) → allows_tool q t ≡ has (or_else changes.allowed_tools p.allowed_tools) t)
unfolding revise construct allows_tool
revise_builds p q changes h =
    let (valid, same, exact) = persona_builds _ q h in
    (
      valid,
      ap (λ (x : Persona). x.persona_id) same,
      pos_inj (sym exact ∙ as_integer-of_ℤ (pos (p.version + 1))),
      ap (λ (x : Persona). x.name) same,
      ap (λ (x : Persona). x.role) same,
      ap (λ (x : Persona). x.system_prompt) same,
      ap (λ (x : Persona). x.model) same,
      λ t.
          rw (ap (λ (x : Persona). x.allowed_tools) same)
            (has-set_of (or_else changes.allowed_tools p.allowed_tools) t),
    )
