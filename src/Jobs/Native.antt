-- ===== src/Jobs/Native.antt =====
-- `execute_native_step` of crates/cosaci-jobs/src/lib.rs and what it calls. The operating system is
-- the argument: what a command does is what the executor observes of it.
use cosaci.Prelude.{
  ℕ, ◌*◌, ◌-◌, ◌^◌, min, Bool, false, Option, none, some, List, [], ◌∷◌, ◌++◌, if◌then◌else◌, ltb,
  leb, nat_beq, length, take, saturating_add, Result, ok, err,
}
use cosaci.Map.{Map}
use cosaci.Text.{is_empty}
use cosaci.Jobs.{
  Limits, Step, LimitKind, cpu, memory, wall, StepOutput, success, failed, limit_exceeded, Encoding,
  Canonical, hash_canonical, tagged, spawn_error, exited, limited,
}
use cosaci.Jobs.Cgroup.{CgroupFiles, StepCgroup, try_create, was_oom_killed, cpu_usage_usec}

abbrev pub max_capture_bytes : ℕ
max_capture_bytes = 16 * 1024 * 1024

-- The loop of `read_capped`: each read returns bytes, none of them at the end, or an error; `total`
-- is a `usize` of 64 bits. `none` is a pipe that is still open after the reads that are observed.
unfoldable pub read_loop : (cap total : ℕ) → List ℕ → List (Option (List ℕ)) → Option (List ℕ)
read_loop cap total out [] = none
read_loop cap total out (none ∷ reads) = some out
read_loop cap total out (some chunk ∷ reads) =
    let n = length chunk in
    let more = if ltb total cap then out ++ take (min (cap - total) n) chunk else out in
    let rest = read_loop cap (saturating_add total n) more reads in
    if nat_beq n 0 then some out else rest

unfoldable pub read_capped : List (Option (List ℕ)) → ℕ → Option (List ℕ)
read_capped reads cap = read_loop cap 0 [] reads

-- `ExitStatus`: the code, unless a signal ended the process.
pub record ExitStatus : Type 0 where
  pub code : Option ℕ

abbrev pub is_success : ExitStatus → Bool
is_success s = elim s.code [ none ↦ false | some code ↦ nat_beq code 0 ]

-- `status.code().unwrap_or(default)`
abbrev pub code_or : ℕ → ExitStatus → ℕ
code_or default s = elim s.code [ none ↦ default | some code ↦ code ]

pub data ExitOutcome : Type 0 where
  ended : ExitStatus → ExitOutcome
  killed_by_wall killed_by_cpu : ExitOutcome

-- What one turn of the loop sees: `try_wait`, which may fail, the elapsed nanoseconds, and the text
-- of `cpu.stat`.
pub record Poll : Type 0 where
  pub try_wait : Result (Option ExitStatus) (Unit {0})
  pub elapsed : ℕ
  pub cpu_stat : Option (List ℕ)

-- `wall_limit` in nanoseconds and `cpu_limit` in microseconds; `none` is no limit.
abbrev pub wall_limit : Limits → Option ℕ
wall_limit limits =
    if ltb 0 limits.wall_seconds then some (limits.wall_seconds * 1000000000) else none

abbrev pub cpu_limit : Limits → Option ℕ
cpu_limit limits = if ltb 0 limits.cpu_seconds then some (limits.cpu_seconds * 1000000) else none

abbrev pub is_reached : Option ℕ → ℕ → Bool
is_reached none n = false
is_reached (some limit) n = leb limit n

-- The limit is reached by the group's usage, where there is a group and the usage is read.
abbrev pub is_used_up : Option ℕ → Option StepCgroup → Option (List ℕ) → Bool
is_used_up limit none stat = false
is_used_up limit (some group) stat = elim (cpu_usage_usec stat) [
  | none ↦ false
  | some usage ↦ is_reached limit usage
]

-- `child.kill()` and the `child.wait()` after it, which blocks until the child is dead.
abbrev pub kill_and_wait : Bool → ExitOutcome → Option ExitOutcome
kill_and_wait dies outcome = if dies then some outcome else none

-- The loop of `wait_with_limits`; `none` is a child that is still waited for, `dies` whether the wait
-- after a kill returns.
unfoldable pub wait_loop :
    Option ℕ → Option ℕ → Option StepCgroup → Bool → List Poll → Option ExitOutcome
wait_loop wall_at cpu_at group dies [] = none
wait_loop wall_at cpu_at group dies (poll ∷ polls) =
    let rest = wait_loop wall_at cpu_at group dies polls in
    elim poll.try_wait [
      | err _ ↦ some killed_by_wall
      | ok (some status) ↦ some (ended status)
      | ok none ↦
          if is_reached wall_at poll.elapsed
          then kill_and_wait dies killed_by_wall
          else if is_used_up cpu_at group poll.cpu_stat
          then kill_and_wait dies killed_by_cpu
          else rest
    ]

-- The blocking `child.wait()`: it may never return.
pub data Waited : Type 0 where
  still_waits wait_failed : Waited
  exited_with : ExitStatus → Waited

-- What is observed of a child: the blocking wait, the turns of the polling loop, whether it dies of
-- a kill, the files of its group, and the reads of its pipes, which anything that the child started
-- may keep open.
pub record Child : Type 0 where
  pub waited : Waited
  pub polls : List Poll
  pub dies : Bool
  pub group_files : CgroupFiles
  pub memory_events : Option (List ℕ)
  pub stdout_reads : List (Option (List ℕ))
  pub stderr_reads : List (Option (List ℕ))

-- `none` is a child that is still waited for.
unfoldable pub wait_with_limits :
    Child → Option ℕ → Option ℕ → Option StepCgroup → Option ExitOutcome
wait_with_limits child none none group = elim child.waited [
  | still_waits ↦ none
  | wait_failed ↦ some killed_by_wall
  | exited_with status ↦ some (ended status)
]
wait_with_limits child (some w) cpu_at group =
    wait_loop (some w) cpu_at group child.dies child.polls
wait_with_limits child none (some c) group = wait_loop none (some c) group child.dies child.polls

-- `Command::spawn` of a step: the child, or the number of the error's kind.
abbrev pub Spawn : Type 0
Spawn = ℕ → List (List ℕ) → Map (List ℕ) (List ℕ) → Result Child ℕ

pub record NativeCaptures : Type 0 where
  pub stdout_bytes : List ℕ
  pub stdout_sha256 : List ℕ
  pub stderr_bytes : List ℕ
  pub stderr_sha256 : List ℕ

-- `cgroup.as_ref().is_some_and(StepCgroup::was_oom_killed)`
abbrev pub was_killed : Option StepCgroup → Child → Bool
was_killed none child = false
was_killed (some _) child = was_oom_killed child.memory_events

module _ (c : Encoding) where
  -- `NativeCaptures` of these bytes.
  unfoldable pub captures_of : List ℕ → List ℕ → NativeCaptures
  captures_of out errors = record {
    stdout_bytes = out;
    stdout_sha256 = c.sha256 out;
    stderr_bytes = errors;
    stderr_sha256 = c.sha256 errors;
  }

  -- `hash_canonical(&(step, ..., stdout_hash, stderr_hash))` of a child that ended.
  unfoldable pub ended_hash : Step → ExitStatus → NativeCaptures → List ℕ
  unfolding hash_canonical
  ended_hash step status caps =
      if is_success status
      then hash_canonical c
          (exited step "ok" (code_or 0 status) caps.stdout_sha256 caps.stderr_sha256)
      else hash_canonical c (
          exited step "exit_nonzero" (code_or (2 ^ 32 - 1) status) caps.stdout_sha256
            caps.stderr_sha256)

  -- What a step that hit a limit returns, and one that never ran.
  abbrev pub exceeded : ℕ → Step → LimitKind → StepOutput × NativeCaptures
  exceeded step_index step which = (
    record {
      step_index = step_index;
      status = limit_exceeded which;
      output_hash = c.sha256 (c.cbor (limited step which));
    },
    record {
      stdout_bytes = [];
      stdout_sha256 = c.sha256 [];
      stderr_bytes = [];
      stderr_sha256 = c.sha256 [];
    },
  )

  abbrev pub failing : ℕ → Canonical → StepOutput × NativeCaptures
  failing step_index value = (
    record { step_index = step_index; status = failed; output_hash = c.sha256 (c.cbor value) },
    record {
      stdout_bytes = [];
      stdout_sha256 = c.sha256 [];
      stderr_bytes = [];
      stderr_sha256 = c.sha256 [];
    },
  )

  -- The arms of the match on the outcome. A child that ended by itself is followed by the joins of
  -- both readers, which `none` still waits for; one that was killed is not.
  unfoldable pub output_of_exit :
      ℕ → Step → Child → Option StepCgroup → ExitOutcome → Option (StepOutput × NativeCaptures)
  output_of_exit step_index step child group outcome = elim outcome [
    | killed_by_wall ↦ some (exceeded step_index step wall)
    | killed_by_cpu ↦ some (exceeded step_index step cpu)
    | ended status ↦ elim (read_capped child.stdout_reads max_capture_bytes) [
      | none ↦ none
      | some out ↦ elim (read_capped child.stderr_reads max_capture_bytes) [
        | none ↦ none
        | some errors ↦
            let caps = captures_of out errors in
            some (
              if was_killed group child then exceeded step_index step memory else (
                record {
                  step_index = step_index;
                  status = if is_success status then success else failed;
                  output_hash = ended_hash step status caps;
                },
                caps,
              ))
      ]
    ]
  ]

  -- What follows `cmd.spawn()`.
  unfoldable pub after_spawn :
      ℕ → Limits → Step → Result Child ℕ → Option (StepOutput × NativeCaptures)
  after_spawn step_index limits step (err kind_id) =
      some (failing step_index (spawn_error step "spawn_failed" kind_id))
  after_spawn step_index limits step (ok child) =
      let group = try_create child.group_files limits.memory_mb limits.cpu_seconds in
      elim (wait_with_limits child (wall_limit limits) (cpu_limit limits) group) [
        | none ↦ none
        | some outcome ↦ output_of_exit step_index step child group outcome
      ]

  unfoldable pub execute_native_step :
      Spawn
      → ℕ
      → List (List ℕ)
      → Map (List ℕ) (List ℕ)
      → Limits
      → Step
      → Option (StepOutput × NativeCaptures)
  execute_native_step spawn step_index command env limits step =
      if is_empty command
      then some (failing step_index (tagged step "empty_command"))
      else after_spawn step_index limits step (spawn step_index command env)
