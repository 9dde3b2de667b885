-- ===== src/Jobs/Cgroup/Enforced.antt =====
-- A control group enforces every limit that is asked for, or there is none.
use cosaci.Prelude.{
  ℕ, ◌*◌, ◌<◌, ◌≡◌, refl, true, none, some, List, arith, ltb, nat_beq, saturating_mul, Bool-cases,
  Option-cases, inl, inr, subst, not, ◌&&◌,
}
use cosaci.Text.{codes, decimal}
use cosaci.Jobs.Cgroup.{
  CgroupFiles, StepCgroup, current_cgroup_path, subtree_has_controller, try_create,
}

-- The controllers that the limits need are delegated, and `memory.max` holds the limit in bytes.
pub record Enforces (files : CgroupFiles) (memory_mb cpu_seconds : ℕ) (group : StepCgroup)
    : Type 0 where
  pub parent_is : current_cgroup_path files.self_cgroup ≡ some group.parent
  pub memory_delegated :
      0 < memory_mb
      → subtree_has_controller (files.subtree_control group.parent) (codes "memory") ≡ true
  pub memory_written :
      0 < memory_mb → group.memory_max ≡ some (decimal (saturating_mul memory_mb 1048576))
  pub cpu_delegated :
      0 < cpu_seconds
      → subtree_has_controller (files.subtree_control group.parent) (codes "cpu") ≡ true

abbrev bounded : List ℕ → ℕ → StepCgroup
bounded parent memory_mb = record {
  parent = parent;
  memory_max = some (decimal (saturating_mul memory_mb (1024 * 1024)));
}

abbrev unbounded : List ℕ → StepCgroup
unbounded parent = record { parent = parent; memory_max = none }

-- A group that is made enforces both limits: one of two limits alone is never enforced.
pub try_create-Enforces :
    (files : CgroupFiles) (memory_mb cpu_seconds : ℕ) (group : StepCgroup)
    → try_create files memory_mb cpu_seconds ≡ some group
    → Enforces files memory_mb cpu_seconds group
unfolding try_create
try_create-Enforces files memory_mb cpu_seconds group h =
    elim (Bool-cases (nat_beq memory_mb 0 && nat_beq cpu_seconds 0)) [
      | inl idle ↦ absurd (ground arith)
      | inr asked ↦ elim (Option-cases (current_cgroup_path files.self_cgroup)) [
        | inl p ↦ absurd (ground arith)
        | inr (parent, p) ↦
            let has_memory =
              subtree_has_controller (files.subtree_control parent) (codes "memory") in
            let has_cpu = subtree_has_controller (files.subtree_control parent) (codes "cpu") in
            elim (Bool-cases (ltb 0 memory_mb && not has_memory)) [
              | inl m ↦ absurd (ground arith)
              | inr m ↦ elim (Bool-cases (ltb 0 cpu_seconds && not has_cpu)) [
                | inl c ↦ absurd (ground arith)
                | inr c ↦ elim (Bool-cases files.create_dir) [
                  | inr d ↦ absurd (ground arith)
                  | inl d ↦ elim (Bool-cases (ltb 0 memory_mb)) [
                    | inr none_asked ↦
                        let same : unbounded parent ≡ group = ground arith in
                        subst (Enforces files memory_mb cpu_seconds) same (record {
                          parent_is = p;
                          memory_delegated = λ some_asked. ground arith;
                          memory_written = λ some_asked. absurd (ground arith);
                          cpu_delegated = λ some_asked. ground arith;
                        })
                    | inl some_asked ↦ elim (Bool-cases files.write_memory_max) [
                      | inr w ↦ absurd (ground arith)
                      | inl w ↦
                          let same : bounded parent memory_mb ≡ group = ground arith in
                          subst (Enforces files memory_mb cpu_seconds) same (record {
                            parent_is = p;
                            memory_delegated = λ asked_for. ground arith;
                            memory_written = λ asked_for. refl;
                            cpu_delegated = λ asked_for. ground arith;
                          })
                    ]
                  ]
                ]
              ]
            ]
      ]
    ]
