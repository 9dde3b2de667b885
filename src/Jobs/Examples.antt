-- ===== src/Jobs/Examples.antt =====
-- Runs of the executor, and theorems on a host of two children, which write the same in other
-- pieces. SHA-256 is the identity here.
use cosaci.Prelude.{
  ℕ, zero, suc, ◌*◌, ◌≡◌, refl, false, true, Option, none, some, List, [], ◌∷◌, length, subst, take,
  All, Result, ok, err, arith,
}
use cosaci.Text.{codes, lines, strip_prefix, fields, decimal, decimal_onto}
use cosaci.NetworkPolicy.{deny_rest}
use cosaci.Wasm.{Wasmtime}
use cosaci.Jobs.{
  Limits, exec_native, capture_log, Pipeline, PipelineResult, success, stdout, stderr, Encoding,
  hash_canonical, outputs,
}
use cosaci.Jobs.Cgroup.{
  CgroupFiles, StepCgroup, try_create, current_cgroup_path, subtree_has_controller,
}
use cosaci.Jobs.Native.{
  was_killed, Poll, Child, wait_loop, wall_limit, killed_by_wall, exited_with, still_waits,
  wait_with_limits, execute_native_step, after_spawn, output_of_exit, read_capped, read_loop,
  captures_of, ended_hash,
}
use cosaci.Jobs.Reading.{contents}
use cosaci.Jobs.Running.{
  Host, PipelineError, run_step, run_steps, execute_pipeline, execute_capture_log_step,
}
use cosaci.Jobs.Captures.{IsGenuine, AreNumbered, execute_pipeline_sound}
use cosaci.Jobs.Determinism.{SameChild, same_child, Agree, execute_pipeline_deterministic}
use cosaci.Jobs.Ending.{wall_poll_interval, AreSpaced, IsServed, execute_pipeline_ends}
use cosaci.Jobs.SourceFetch.{no_git, Row, nil}
use cosaci.Jobs.SourceFetch.Listing.{IsRow, listing_injective}

abbrev files : CgroupFiles
files = record {
  self_cgroup = some (codes "0::/job");
  subtree_control = λ parent. some (codes "memory cpu");
  create_dir = true;
  write_memory_max = true;
}

abbrev done_poll : Poll
done_poll = record { try_wait = ok (some (record { code = some 0 })); elapsed = 0; cpu_stat = none }

abbrev child_of : List (Option (List ℕ)) → Child
child_of reads = record {
  waited = exited_with (record { code = some 0 });
  polls = done_poll ∷ [];
  dies = true;
  group_files = files;
  memory_events = none;
  stdout_reads = reads;
  stderr_reads = some [] ∷ [];
}

abbrev first_child : Child
first_child = child_of (some (1 ∷ 2 ∷ []) ∷ some [] ∷ [])

abbrev second_child : Child
second_child = child_of (some (1 ∷ []) ∷ some (2 ∷ []) ∷ some [] ∷ [])

abbrev idle : Wasmtime
idle = record {
  decode = λ args. err [];
  new_engine = λ setup. err [];
  new_module = λ setup wasm. err [];
  put_fuel = λ setup. err [];
  new_instance = λ setup wasm. err [];
  get_add = λ setup wasm. err [];
  call_add = λ setup wasm args. ok 0;
}

abbrev host_of : Child → Host
host_of child = record {
  wasmtime = idle;
  spawn = λ i command env. ok child;
  fetch = λ i url reference. record {
    has_tempdir = false;
    clone = no_git;
    checkout = no_git;
    rev_parse = no_git;
    workdir = nil;
  };
}

abbrev plain : Encoding
plain = record { sha256 = λ bytes. bytes; cbor = λ value. 5 ∷ [] }

abbrev no_limits : Limits
no_limits = record {
  cpu_seconds = 0;
  memory_mb = 0;
  wall_seconds = 0;
  network = record { allow = []; default = deny_rest };
}

abbrev pipeline : Pipeline
pipeline = record {
  steps = exec_native (codes "ls" ∷ []) [] no_limits ∷ capture_log (codes "log") ∷ [];
}

abbrev result : PipelineResult
result = record {
  steps =
      record { step_index = 0; status = success; output_hash = 5 ∷ [] }
      ∷ record { step_index = 1; status = success; output_hash = 5 ∷ [] }
      ∷ [];
  final_artifact_hash = 5 ∷ [];
  captures =
      record {
        step_index = 1;
        name = codes "log.stdout";
        kind = stdout;
        sha256 = 1 ∷ 2 ∷ [];
        length = 2;
        bytes_inline = 1 ∷ 2 ∷ [];
      }
      ∷ record {
        step_index = 1;
        name = codes "log.stderr";
        kind = stderr;
        sha256 = [];
        length = 0;
        bytes_inline = [];
      }
      ∷ [];
}

pipeline_run : execute_pipeline plain (host_of first_child) pipeline ≡ some (ok result)
unfolding execute_pipeline run_steps run_step execute_native_step after_spawn output_of_exit
    execute_capture_log_step wait_with_limits read_capped read_loop captures_of ended_hash
    try_create hash_canonical
pipeline_run = refl

execute_pipeline_sound_example :
    (length result.steps ≡ length pipeline.steps)
    × AreNumbered 0 result.steps
    × (5 ∷ [] ≡ hash_canonical plain (outputs result.steps))
    × All (IsGenuine plain) result.captures
execute_pipeline_sound_example =
    execute_pipeline_sound plain (host_of first_child) pipeline result pipeline_run

waits_alike :
    (w c : Option ℕ) (g : Option StepCgroup)
    → wait_with_limits first_child w c g ≡ wait_with_limits second_child w c g
unfolding wait_with_limits
waits_alike none none g = refl
waits_alike (some w) c g = refl
waits_alike none (some c) g = refl

killed_alike : (g : Option StepCgroup) → was_killed g first_child ≡ was_killed g second_child
killed_alike none = refl
killed_alike (some g) = refl

reads_alike : contents first_child.stdout_reads ≡ contents second_child.stdout_reads
unfolding contents
reads_alike = refl

children-SameChild : (limits : Limits) → SameChild limits first_child second_child
children-SameChild limits = record {
  same_outcome = waits_alike _ _ _;
  same_memory = killed_alike _;
  same_stdout = reads_alike;
  same_stderr = refl;
}

hosts-Agree : Agree plain (host_of first_child) (host_of second_child)
hosts-Agree = record {
  same_wasm = λ code args limits. refl;
  same_fetch = λ i url reference. refl;
  same_spawn = λ i command env limits. same_child (children-SameChild limits);
}

execute_pipeline_deterministic_example :
    execute_pipeline plain (host_of first_child) pipeline
    ≡ execute_pipeline plain (host_of second_child) pipeline
execute_pipeline_deterministic_example =
    execute_pipeline_deterministic plain (host_of first_child) (host_of second_child) pipeline
      hosts-Agree

-- A child that neither ends nor closes its pipes, seen at the turns of the first second and later.
abbrev turn : ℕ → Poll
turn n = record { try_wait = ok none; elapsed = n * wall_poll_interval; cpu_stat = none }

abbrev turns : ℕ → ℕ → List Poll
turns n zero = []
turns n (suc count) = turn n ∷ turns (suc n) count

abbrev hanging : Child
hanging = record {
  waited = still_waits;
  polls = turns 0 21;
  dies = true;
  group_files = files;
  memory_events = none;
  stdout_reads = [];
  stderr_reads = [];
}

abbrev one_second : Limits
one_second = record no_limits { wall_seconds = 1 }

abbrev hanging_pipeline : Pipeline
hanging_pipeline = record { steps = exec_native (codes "cat" ∷ []) [] one_second ∷ [] }

turns-AreSpaced : (n count : ℕ) → AreSpaced n (turns n count)
turns-AreSpaced n zero = tt
turns-AreSpaced n (suc count) = (omega arith, turns-AreSpaced (suc n) count)

hanging_killed :
    (group : Option StepCgroup)
    → wait_with_limits hanging (wall_limit one_second) none group ≡ some killed_by_wall
unfolding wait_with_limits wait_loop cosaci.Jobs.Cgroup.cpu_usage_usec
hanging_killed none = refl
hanging_killed (some g) = refl

abbrev spawned : Result Child ℕ
spawned = ok hanging

hanging-IsServed : IsServed one_second hanging
hanging-IsServed = record {
  spaced = turns-AreSpaced 0 21;
  observed = omega arith;
  killed = refl;
  closes = λ status e. let killed = hanging_killed (try_create files 0 0) in absurd (cc);
}

served : (child : Child) → spawned ≡ ok child → IsServed one_second child
served child e =
    let same : hanging ≡ child = ground arith in subst (IsServed one_second) same hanging-IsServed

-- Without the limit the run waits forever.
waits_forever :
    execute_pipeline plain
      (host_of hanging)
      (record { steps = exec_native (codes "cat" ∷ []) [] no_limits ∷ [] })
    ≡ none
unfolding execute_pipeline run_steps run_step execute_native_step after_spawn wait_with_limits
    try_create
waits_forever = refl

execute_pipeline_ends_example :
    (r : Result PipelineResult PipelineError) × (execute_pipeline plain
        (host_of hanging)
        hanging_pipeline
      ≡ some r)
execute_pipeline_ends_example =
    execute_pipeline_ends plain (host_of hanging) hanging_pipeline (omega arith, tt) (served, tt)

abbrev group : StepCgroup
group = record { parent = codes "/sys/fs/cgroup/job"; memory_max = some (codes "1048576") }

group_made : try_create files 1 1 ≡ some group
unfolding try_create current_cgroup_path subtree_has_controller lines strip_prefix fields decimal
    decimal_onto
group_made = refl

-- The content of each file is its hash, of as many bytes as a hash has.
abbrev digest : List ℕ
digest = take 32 (
    1 ∷ 2 ∷ 3 ∷ 4 ∷ 5 ∷ 6 ∷ 7 ∷ 8 ∷ 1 ∷ 2 ∷ 3 ∷ 4 ∷ 5 ∷ 6 ∷ 7 ∷ 8 ∷ 1 ∷ 2 ∷ 3 ∷ 4 ∷ 5 ∷ 6 ∷ 7 ∷ 8
    ∷ 1 ∷ 2 ∷ 3 ∷ 4 ∷ 5 ∷ 6 ∷ 7 ∷ 8 ∷ [])

abbrev rows : List Row
rows =
    record { path = codes "a"; mode = 33188; blob_sha = digest }
    ∷ record { path = codes "b"; mode = 33261; blob_sha = digest }
    ∷ []

rows-IsRow : All IsRow rows
rows-IsRow = (
  record { path_fits = omega arith; mode_fits = omega arith; hash_size = refl },
  (record { path_fits = omega arith; mode_fits = omega arith; hash_size = refl }, tt),
)

listing_injective_example : rows ≡ rows
listing_injective_example = listing_injective rows rows rows-IsRow rows-IsRow refl
