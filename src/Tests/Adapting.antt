-- ===== src/Tests/Adapting.antt =====
-- The profiles, the sandbox, the activity log and the vectors of packages/adapters, and the offline
-- provider of packages/agent, at concrete inputs.
use mathlib.Core.List.{Perm}
use Prim.Native.String.{◌++◌ as text_append}
use Prim.Native.String.append
use workspace_os.Base.{
  ℕ, zero, suc, map, sym, ◌∙◌, String, Bool, true, false, ◌&&◌, List, [], ◌∷◌, ◌++◌, none, some, ok,
  ◌≡◌, ◌≢◌, refl, ◌==◌, if◌then◌else◌,
}
use workspace_os.Base.Int.{pos}
use workspace_os.Base.Sets.{has}
use workspace_os.Base.Sort.{IsStrictOrder, IsSorted}
use workspace_os.Base.Split.{Lacks}
use workspace_os.Adapters.Sandbox.{
  DockerSandboxRunnerOptions, default_options, SandboxRunOptions, args, Event, stdout_data,
  stderr_data, timer_fires, child_close, child_error, start_run, on_events,
}
use workspace_os.Adapters.Sandbox.Run.{closed, written, complained, fires, run_result}
use workspace_os.Adapters.Profile.{
  Env, hardened, AdapterOverrides, AdapterSet, create_adapters, resolve_profile,
  create_object_store, create_secrets_broker, create_sandbox_runner, given_store, docker_runner,
}
use workspace_os.Adapters.Profile.Laws.{gvisor_args, hardened_is_confined}
use workspace_os.Adapters.Activity.{
  RecordActivityInput, ActivityRecord, record_activity, record_before, list_by_actor,
  list_by_resource,
}
use workspace_os.Adapters.Activity.Listing.{recorded, recorded_is_listed}
use workspace_os.Adapters.Vector.{IsPrinted, to_driver, from_driver, vector_round_trip}
use workspace_os.Tests.Samples.{bot}

abbrev options : SandboxRunOptions
options = record {
  image = "node";
  command = "node" ∷ "-e" ∷ "1" ∷ [];
  env = [];
  network_access = none;
  timeout_ms = some 1000;
}

abbrev happened : List Event
happened = stdout_data "a" ∷ stderr_data "x" ∷ stdout_data "b" ∷ timer_fires ∷ []

timed_out_test :
    (on_events default_options "sbx"
      (start_run default_options "sbx" options)
      (happened ++ child_close none ∷ [])).result
    ≡ some (record { exit_code = pos 124; stdout = "ab"; stderr = "x" })
unfolding on_events start_run
timed_out_test =
    run_result default_options "sbx" options happened none [] (tt, (tt, (tt, (tt, tt))))

run_result_example :
    (on_events default_options "sbx"
      (start_run default_options "sbx" options)
      (happened ++ child_close none ∷ child_error "late" ∷ [])).result
    ≡ some (
        closed default_options none
          (true && fires happened)
          (written happened)
          (complained happened))
run_result_example =
    run_result default_options "sbx" options happened none (child_error "late" ∷ [])
      (tt, (tt, (tt, (tt, tt))))

-- A hardened environment.
abbrev env : Env
env name = if name == "PROFILE" then some "hardened" else none

abbrev overrides : AdapterOverrides String String String
overrides = record { object_store = some "s3"; secrets_broker = none; sandbox_runner = none }

abbrev adapters : AdapterSet String String String
adapters = record {
  profile = hardened;
  object_store = given_store "s3";
  secrets_broker = create_secrets_broker hardened env overrides.secrets_broker;
  sandbox_runner = create_sandbox_runner hardened overrides.sandbox_runner;
}

adapters_made : create_adapters String String String env overrides ≡ ok adapters
unfolding create_adapters resolve_profile create_object_store
adapters_made = refl

hardened_is_confined_example :
    ((store : String) × (some "s3" ≡ some store) × (given_store "s3" ≡ given_store store))
    × (overrides.sandbox_runner ≡ none
        → (runner : DockerSandboxRunnerOptions) × (adapters.sandbox_runner ≡ docker_runner runner)
          × ((name : String) (options : SandboxRunOptions)
              → args runner name options ≡ gvisor_args name options))
hardened_is_confined_example =
    hardened_is_confined String String String env overrides adapters refl adapters_made

abbrev input : RecordActivityInput
input = record {
  actor = bot;
  action = "work.claim";
  resource_type = "work_item";
  resource_id = "w_1";
  metadata = none;
}

-- Ids that are not told apart.
abbrev level : String → String → Bool
level a b = false

level_ordered : IsStrictOrder level
level_ordered = record { asym = λ a b h. refl; level_trans = λ a b c h k. refl }

recorded_is_listed_example :
    (log : List ActivityRecord) × (record_activity ("m_bot" ∷ []) "a_1" 5 input [] ≡ ok log)
    × Perm
        (list_by_actor level "m_bot" log)
        (list_by_actor level "m_bot" [] ++ recorded "a_1" 5 input ∷ [])
    × IsSorted (record_before level) (list_by_actor level "m_bot" log)
    × Perm
        (list_by_resource level "work_item" "w_1" log)
        (list_by_resource level "work_item" "w_1" [] ++ recorded "a_1" 5 input ∷ [])
    × IsSorted (record_before level) (list_by_resource level "work_item" "w_1" log)
unfolding has
recorded_is_listed_example =
    recorded_is_listed level ("m_bot" ∷ []) "a_1" 5 input [] level_ordered refl

-- A printing of numbers by strokes behind a 0, with a reading that takes the 0 for one more.
abbrev strokes : ℕ → String
strokes zero = ""
strokes (suc n) = text_append "1" (strokes n)

abbrev print : ℕ → String
print n = text_append "0" (strokes n)

abbrev parse : String → ℕ
parse String.[] = 0
parse (String.◌∷◌ c s) = suc (parse s)

strokes_plain : (n : ℕ) → Lacks 44 (strokes n)
strokes_plain zero = tt
strokes_plain (suc n) =
    rw (append.cons "1" String.[] (strokes n), append.nil (strokes n)) (refl, strokes_plain n)

print_present : (n : ℕ) → print n ≢ ""
print_present n e = cc (sym (append.cons "0" String.[] (strokes n)) ∙ e)

print_plain : (n : ℕ) → Lacks 44 (print n)
print_plain n =
    rw (append.cons "0" String.[] (strokes n), append.nil (strokes n)) (refl, strokes_plain n)

printed : IsPrinted print parse
printed = record { present = print_present; plain = print_plain }

vector_round_trip_example :
    from_driver print parse (to_driver print parse (2 ∷ 0 ∷ 5 ∷ []))
    ≡ map (λ x. parse (print x)) (2 ∷ 0 ∷ 5 ∷ [])
vector_round_trip_example = vector_round_trip print parse printed (2 ∷ 0 ∷ 5 ∷ [])
