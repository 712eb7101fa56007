-- ===== src/Adapters/Sandbox.antt =====
-- packages/adapters/src/sandbox/docker-sandbox-runner.ts: the command line of a run, and how the
-- events of its process and its timer become a result.
pub mod Run
use Prim.Native.String.{◌++◌ as text_append}
use workspace_os.Base.{
  ℕ, String, Bool, true, false, List, ◌∷◌, [], ◌++◌, Option, none, some, if◌then◌else◌, or_else,
  is_some, ◌==◌,
}
use workspace_os.Base.Int.{ℤ, pos, negsuc}

pub record DockerSandboxRunnerOptions : Type 0 where
  pub runtime : Option String
  pub memory : Option String
  pub cpus : Option String
  pub docker_bin : Option String
  pub timeout_exit_code : Option ℤ

abbrev pub default_options : DockerSandboxRunnerOptions
default_options = record {
  runtime = none;
  memory = none;
  cpus = none;
  docker_bin = none;
  timeout_exit_code = none;
}

-- `env` are the entries of the object.
pub record SandboxRunOptions : Type 0 where
  pub image : String
  pub command : List String
  pub env : List (String × String)
  pub network_access : Option Bool
  pub timeout_ms : Option ℕ

pub record SandboxRunResult : Type 0 where
  pub exit_code : ℤ
  pub stdout : String
  pub stderr : String

-- `if (this.runtime)`: an empty text is no runtime
unfoldable pub runtime_args : Option String → List String
runtime_args none = []
runtime_args (some runtime) = if runtime == "" then [] else "--runtime" ∷ runtime ∷ []

unfoldable pub env_args : List (String × String) → List String
env_args [] = []
env_args ((key, value) ∷ more) = "--env" ∷ text_append key (text_append "=" value) ∷ env_args more

unfoldable pub fixed_args : DockerSandboxRunnerOptions → String → SandboxRunOptions → List String
fixed_args runner name options =
    "run"
    ∷ "--rm"
    ∷ "--name"
    ∷ name
    ∷ "--cap-drop=ALL"
    ∷ "--security-opt"
    ∷ "no-new-privileges"
    ∷ "--read-only"
    ∷ "--tmpfs"
    ∷ "/tmp:rw,size=64m"
    ∷ "--pids-limit"
    ∷ "256"
    ∷ "--memory"
    ∷ or_else runner.memory "256m"
    ∷ "--cpus"
    ∷ or_else runner.cpus "1"
    ∷ "--network"
    ∷ (if or_else options.network_access false then "bridge" else "none")
    ∷ []

unfoldable pub args : DockerSandboxRunnerOptions → String → SandboxRunOptions → List String
args runner name options =
    fixed_args runner name options
    ++ runtime_args runner.runtime
    ++ env_args options.env
    ++ options.image ∷ options.command

-- A command that is started: the program and its arguments.
abbrev pub Spawned : Type 0
Spawned = String × List String

abbrev pub docker : DockerSandboxRunnerOptions → String
docker runner = or_else runner.docker_bin "docker"

-- The two streams, the timer while it is set, and what was started; `result` is what the promise was
-- first resolved with.
pub record RunState : Type 0 where
  pub stdout : String
  pub stderr : String
  pub timed_out : Bool
  pub timer_set : Bool
  pub spawned : List Spawned
  pub result : Option SandboxRunResult

-- A piece of the child's output, the end of the timer, or an `error` or `close` of the child.
pub data Event : Type 0 where
  stdout_data : String → Event
  stderr_data : String → Event
  timer_fires : Event
  child_error : String → Event
  child_close : Option ℤ → Event

-- only the first call of `resolve` counts
abbrev pub resolve : SandboxRunResult → RunState → RunState
resolve r s = elim s.result [ some first ↦ s | none ↦ record s { result = some r } ]

unfoldable pub start_run : DockerSandboxRunnerOptions → String → SandboxRunOptions → RunState
start_run runner name options = record {
  stdout = "";
  stderr = "";
  timed_out = false;
  timer_set = is_some options.timeout_ms;
  spawned = (docker runner, args runner name options) ∷ [];
  result = none;
}

-- a timer that was cleared, or has fired, does not fire; when it fires the client is killed too, which
-- is the operating system's and is left out
unfoldable pub on_event : DockerSandboxRunnerOptions → String → RunState → Event → RunState
on_event runner name s (stdout_data chunk) = record s { stdout = text_append s.stdout chunk }
on_event runner name s (stderr_data chunk) = record s { stderr = text_append s.stderr chunk }
on_event runner name s timer_fires =
    if s.timer_set
    then record s {
      timed_out = true;
      timer_set = false;
      spawned = s.spawned ++ (docker runner, "rm" ∷ "-f" ∷ name ∷ []) ∷ [];
    }
    else s
on_event runner name s (child_error message) =
    resolve
      (record { exit_code = negsuc 0; stdout = s.stdout; stderr = text_append s.stderr message })
      (record s { timer_set = false })
on_event runner name s (child_close code) =
    resolve
      (record {
        exit_code =
            if s.timed_out
            then or_else runner.timeout_exit_code (pos 124)
            else or_else code (negsuc 0);
        stdout = s.stdout;
        stderr = s.stderr;
      })
      (record s { timer_set = false })

unfoldable pub on_events : DockerSandboxRunnerOptions → String → RunState → List Event → RunState
on_events runner name s [] = s
on_events runner name s (e ∷ es) = on_events runner name (on_event runner name s e) es
