-- ===== src/Adapters/Sandbox/Run.antt =====
-- docker-sandbox-runner.ts: the result of a run, from the events of its process.
use Prim.Native.String.{◌++◌ as text_append}
use Prim.Native.String.append
use text.Mathlib.TextLemmas.{append-nil, append_assoc}
use workspace_os.Base.{
  String, Bool, true, false, ◌&&◌, ◌||◌, List, ◌∷◌, [], ◌++◌, Option, none, some, ◌≡◌, refl, sym,
  subst, ◌∙◌, Bool-cases, inl, inr, arith, is_some, or_else, if◌then◌else◌, All,
}
use workspace_os.Base.Int.{ℤ, pos, negsuc}
use workspace_os.Adapters.Sandbox.{
  DockerSandboxRunnerOptions, SandboxRunOptions, SandboxRunResult, docker, RunState, Event,
  stdout_data, stderr_data, timer_fires, child_error, child_close, start_run, on_event, on_events,
}

-- The event does not end the run.
abbrev pub IsRunning : Event → Type 0
IsRunning (child_error message) = ⊥
IsRunning (child_close code) = ⊥
IsRunning _ = Unit

-- What the child wrote to its standard output, in order.
abbrev pub written : List Event → String
written [] = ""
written (stdout_data chunk ∷ es) = text_append chunk (written es)
written (_ ∷ es) = written es

-- What the child wrote to its standard error.
abbrev pub complained : List Event → String
complained [] = ""
complained (stderr_data chunk ∷ es) = text_append chunk (complained es)
complained (_ ∷ es) = complained es

abbrev pub fires : List Event → Bool
fires [] = false
fires (timer_fires ∷ es) = true
fires (_ ∷ es) = fires es

-- The state `t` of a run that has not ended, when `es` happened after the state `s`.
pub record IsOpenAfter (s : RunState) (es : List Event) (t : RunState) : Type 0 where
  pub out : t.stdout ≡ text_append s.stdout (written es)
  pub errors : t.stderr ≡ text_append s.stderr (complained es)
  pub over : t.timed_out ≡ (s.timed_out || (s.timer_set && fires es))
  pub unresolved : t.result ≡ none

or_true : (b : Bool) → true ≡ (b || true)
or_true b = ground arith

-- What a close of the child leaves of a run.
abbrev pub closed :
    DockerSandboxRunnerOptions → Option ℤ → Bool → String → String → SandboxRunResult
closed runner code over out errors = record {
  exit_code = if over then or_else runner.timeout_exit_code (pos 124) else or_else code (negsuc 0);
  stdout = out;
  stderr = errors;
}

module _ (runner : DockerSandboxRunnerOptions) (name : String) where
  keeps_one :
      (s : RunState) (e : Event) (r : SandboxRunResult)
      → s.result ≡ some r
      → (on_event runner name s e).result ≡ some r
  unfolding on_event
  keeps_one s (stdout_data chunk) r h = h
  keeps_one s (stderr_data chunk) r h = h
  keeps_one s timer_fires r h = ground (arith, h)
  keeps_one s (child_error message) r h = rw h refl
  keeps_one s (child_close code) r h = rw h refl

  pub result_stays :
      (s : RunState) (es : List Event) (r : SandboxRunResult)
      → s.result ≡ some r
      → (on_events runner name s es).result ≡ some r
  unfolding on_events
  result_stays s [] r h = h
  result_stays s (e ∷ es) r h = result_stays (on_event runner name s e) es r (keeps_one s e r h)

  not_fired : (s : RunState) → s.timer_set ≡ false → on_event runner name s timer_fires ≡ s
  unfolding on_event
  not_fired s h = rw h refl

  cleared_fires :
      (s : RunState) (es : List Event) (t : RunState)
      → s.timer_set ≡ false
      → IsOpenAfter s es t
      → IsOpenAfter s (timer_fires ∷ es) t
  cleared_fires s es t h o = record {
    out = o.out;
    errors = o.errors;
    over = ground (arith, h, o.over);
    unresolved = o.unresolved;
  }

  stays_open :
      (s : RunState) (es : List Event)
      → s.result ≡ none
      → All IsRunning es
      → IsOpenAfter s es (on_events runner name s es)
  unfolding on_events on_event
  stays_open s [] h all = record {
    out = sym (append-nil s.stdout);
    errors = sym (append-nil s.stderr);
    over = ground arith;
    unresolved = h;
  }
  stays_open s (stdout_data chunk ∷ es) h (one, all) =
      let rest = stays_open (on_event runner name s (stdout_data chunk)) es h all in
      record {
        out = rest.out ∙ append_assoc s.stdout chunk (written es);
        errors = rest.errors;
        over = rest.over;
        unresolved = rest.unresolved;
      }
  stays_open s (stderr_data chunk ∷ es) h (one, all) =
      let rest = stays_open (on_event runner name s (stderr_data chunk)) es h all in
      record {
        out = rest.out;
        errors = rest.errors ∙ append_assoc s.stderr chunk (complained es);
        over = rest.over;
        unresolved = rest.unresolved;
      }
  stays_open s (timer_fires ∷ es) h (one, all) = elim (Bool-cases s.timer_set) [
    | inl armed ↦
        let after : RunState = record s {
          timed_out = true;
          timer_set = false;
          spawned = s.spawned ++ (docker runner, "rm" ∷ "-f" ∷ name ∷ []) ∷ [];
        } in
        let rest = stays_open after es h all in
        record {
          out = rw armed rest.out;
          errors = rw armed rest.errors;
          over = rw armed (rest.over ∙ or_true s.timed_out);
          unresolved = rw armed rest.unresolved;
        }
    | inr cleared ↦
        subst (λ t. IsOpenAfter s (timer_fires ∷ es) (on_events runner name t es))
          (sym (not_fired s cleared)) (cleared_fires s es _ cleared (stays_open s es h all))
  ]
  stays_open s (child_error message ∷ es) h (one, all) = elim one [ ]
  stays_open s (child_close code ∷ es) h (one, all) = elim one [ ]

  on_events-append :
      (s : RunState) (es more : List Event)
      → on_events runner name s (es ++ more)
        ≡ on_events runner name (on_events runner name s es) more
  unfolding on_events
  on_events-append s [] more = refl
  on_events-append s (e ∷ es) more = on_events-append (on_event runner name s e) es more

  close_resolves :
      (s : RunState) (code : Option ℤ)
      → s.result ≡ none
      → (on_event runner name s (child_close code)).result
        ≡ some (closed runner code s.timed_out s.stdout s.stderr)
  unfolding on_event
  close_resolves s code h = rw h refl

  -- A run whose child closes after the events `es` is resolved once, whatever happens later: with
  -- the pieces of its two streams in their order, and with the child's exit code, or -1 if it has
  -- none; if a time limit was set and its timer fired before, the code is that of a time-out.
  pub run_result :
      (options : SandboxRunOptions) (es : List Event) (code : Option ℤ) (later : List Event)
      → All IsRunning es
      → (on_events runner name
          (start_run runner name options)
          (es ++ child_close code ∷ later)).result
        ≡ some (
            closed runner code
              (is_some options.timeout_ms && fires es)
              (written es)
              (complained es))
  unfolding on_events start_run
  run_result options es code later all =
      let s = start_run runner name options in
      let t = on_events runner name s es in
      let o = stays_open s es refl all in
      let out : t.stdout ≡ written es = o.out ∙ append.nil (written es) in
      let errors : t.stderr ≡ complained es = o.errors ∙ append.nil (complained es) in
      rw (on_events-append s es (child_close code ∷ later)) (
        result_stays (on_event runner name t (child_close code)) later _ (
          close_resolves t code o.unresolved
          ∙ (λ i. some (closed runner code (o.over i) (out i) (errors i)))))
