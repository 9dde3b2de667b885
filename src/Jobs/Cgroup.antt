-- ===== src/Jobs/Cgroup.antt =====
-- `StepCgroup` of crates/cosaci-jobs/src/lib.rs: the control group of a native step. What the
-- kernel's files hold, and whether a write succeeds, are arguments.
pub mod Enforced
use cosaci.Prelude.{
  ℕ, ◌*◌, Bool, true, false, not, ◌&&◌, ◌||◌, Option, none, some, List, [], ◌∷◌, ◌++◌,
  if◌then◌else◌, ltb, nat_beq, saturating_mul, ◌==◌, bytes_key,
}
use cosaci.Text.{codes, lines, trim, strip_prefix, split_whitespace, parse_u64, decimal}

-- `text.trim_start_matches('/')`
abbrev pub without_slashes : List ℕ → List ℕ
without_slashes [] = []
without_slashes (b ∷ text) = if nat_beq b 47 then without_slashes text else b ∷ text

-- The first line with the prefix: what follows it.
abbrev pub find_line : List ℕ → List (List ℕ) → Option (List ℕ)
find_line prefix [] = none
find_line prefix (line ∷ rest) =
    let later = find_line prefix rest in
    elim (strip_prefix prefix line) [ none ↦ later | some value ↦ some value ]

-- The argument is the text of `/proc/self/cgroup`, if it is read.
unfoldable pub current_cgroup_path : Option (List ℕ) → Option (List ℕ)
current_cgroup_path none = none
current_cgroup_path (some text) = elim (find_line (codes "0::") (lines text)) [
  | none ↦ none
  | some rest ↦ some (codes "/sys/fs/cgroup/" ++ without_slashes rest)
]

abbrev pub has_word : List ℕ → List (List ℕ) → Bool
has_word word [] = false
has_word word (w ∷ words) = w == word || has_word word words

-- The argument is the text of `cgroup.subtree_control`.
unfoldable pub subtree_has_controller : Option (List ℕ) → List ℕ → Bool
subtree_has_controller none controller = false
subtree_has_controller (some text) controller = has_word controller (split_whitespace text)

-- The files as they are read, and which writes succeed.
pub record CgroupFiles : Type 0 where
  pub self_cgroup : Option (List ℕ)
  pub subtree_control : List ℕ → Option (List ℕ)
  pub create_dir : Bool
  pub write_memory_max : Bool

-- The group's directory, and what was written to its `memory.max`.
pub record StepCgroup : Type 0 where
  pub parent : List ℕ
  pub memory_max : Option (List ℕ)

unfoldable pub try_create : CgroupFiles → (memory_mb cpu_seconds : ℕ) → Option StepCgroup
try_create files memory_mb cpu_seconds =
    if nat_beq memory_mb 0 && nat_beq cpu_seconds 0
    then none
    else elim (current_cgroup_path files.self_cgroup) [
      | none ↦ none
      | some parent ↦
          let control = files.subtree_control parent in
          if ltb 0 memory_mb && not (subtree_has_controller control (codes "memory"))
          then none
          else if ltb 0 cpu_seconds && not (subtree_has_controller control (codes "cpu"))
          then none
          else if not files.create_dir
          then none
          else if ltb 0 memory_mb
          then (if files.write_memory_max
              then some record {
                parent = parent;
                memory_max = some (decimal (saturating_mul memory_mb (1024 * 1024)));
              }
              else none)
          else some record { parent = parent; memory_max = none }
    ]

abbrev pub counts_a_kill : List ℕ → Bool
counts_a_kill line = elim (strip_prefix (codes "oom_kill ") line) [
  | none ↦ false
  | some rest ↦ elim (parse_u64 (trim rest)) [ none ↦ false | some n ↦ ltb 0 n ]
]

abbrev pub some_line_counts : List (List ℕ) → Bool
some_line_counts [] = false
some_line_counts (line ∷ rest) = counts_a_kill line || some_line_counts rest

-- The argument is the text of `memory.events.local`.
unfoldable pub was_oom_killed : Option (List ℕ) → Bool
was_oom_killed none = false
was_oom_killed (some text) = some_line_counts (lines text)

-- The argument is the text of `cpu.stat`.
unfoldable pub cpu_usage_usec : Option (List ℕ) → Option ℕ
cpu_usage_usec none = none
cpu_usage_usec (some text) = elim (find_line (codes "usage_usec ") (lines text)) [
  | none ↦ none
  | some rest ↦ parse_u64 (trim rest)
]
