-- ===== src/Capabilities/Committee.antt =====
-- Who may run a job, and who is selected.
use cosaci.Prelude.{
  if◌then◌else◌, ltb, ℕ, zero, suc, ◌≤◌, ◌<◌, ◌≡◌, ◌↔◌, ◌⊎◌, refl, sym, subst, true, none, some,
  List, [], ◌∷◌, ◌++◌, arith, length, length-take, take, drop, take-drop, All, Has, inl, inr,
  Bool-cases,
}
use mathlib.Core.List.{Perm, perm_middle}
use mathlib.Core.List.Perm
use cosaci.Capabilities.{
  Platform, Runtime, platform_beq, runtime_beq, Capabilities, JobRequirements, has_runtime,
  is_subset, matches, Candidate, eligible, rank, ids, select_capability_aware_committee,
}
use cosaci.Capabilities.Sorting.{IsFirst, IsRanked, rank-IsRanked, rank-Perm, length-rank}

platform_beq_iff : (p q : Platform) → (platform_beq p q ≡ true) ↔ (p ≡ q)
platform_beq_iff p q = ground arith

runtime_beq_iff : (r s : Runtime) → (runtime_beq r s ≡ true) ↔ (r ≡ s)
runtime_beq_iff r s = ground arith

has_runtime_iff :
    (r : Runtime) (runtimes : List Runtime) → (has_runtime r runtimes ≡ true) ↔ Has r runtimes
unfolding has_runtime
has_runtime_iff r [] = (λ e. absurd (cc), λ h. absurd h.lower)
has_runtime_iff r (s ∷ runtimes) =
    let rest = has_runtime_iff r runtimes in
    (
      λ e. elim (Bool-cases (runtime_beq r s)) [
        | inl same ↦ inl ((runtime_beq_iff r s).0 same)
        | inr apart ↦ inr (rest.0 (ground arith))
      ],
      λ has. elim has [
        | inl same ↦ ground (arith, (runtime_beq_iff r s).1 same)
        | inr there ↦ ground (arith, rest.1 there)
      ],
    )

is_subset_iff :
    (wanted offered : List Runtime)
    → (is_subset wanted offered ≡ true) ↔ ((r : Runtime) → Has r wanted → Has r offered)
unfolding is_subset
is_subset_iff [] offered = (λ e r h. absurd h.lower, λ h. refl)
is_subset_iff (s ∷ wanted) offered =
    let rest = is_subset_iff wanted offered in
    let first = has_runtime_iff s offered in
    (
      λ e r has. elim has [
        | inl same ↦ subst (λ x. Has x offered) (sym same) (first.0 (ground arith))
        | inr there ↦ rest.0 (ground arith) r there
      ],
      λ h. ground (arith, first.1 (h s (inl refl)), rest.1 (λ r there. h r (inr there))),
    )

-- The runner has at least the cores and the memory, the platform, and every runtime.
pub record CanRun (runner : Capabilities) (job : JobRequirements) : Type 0 where
  pub enough_cpu : job.cpu ≤ runner.cpu
  pub enough_memory : job.memory_mb ≤ runner.memory_mb
  pub same_platform : runner.platform ≡ job.platform
  pub has_runtimes : (r : Runtime) → Has r job.runtimes → Has r runner.runtimes

pub matches_iff :
    (runner : Capabilities) (job : JobRequirements)
    → (matches runner job ≡ true) ↔ CanRun runner job
unfolding matches
matches_iff runner job =
    let runtimes = is_subset_iff job.runtimes runner.runtimes in
    let platforms = platform_beq_iff runner.platform job.platform in
    (
      λ e. record {
        enough_cpu = ground arith;
        enough_memory = ground arith;
        same_platform = platforms.0 (ground arith);
        has_runtimes = runtimes.0 (ground arith);
      },
      λ c.
          let cpu = c.enough_cpu in
          let memory = c.enough_memory in
          ground (arith, platforms.1 c.same_platform, runtimes.1 c.has_runtimes),
    )

-- The candidates that the filter drops.
unfit_for : JobRequirements → List Candidate → List Candidate
unfit_for job [] = []
unfit_for job (c ∷ candidates) =
    let rest = unfit_for job candidates in if matches c.capabilities job then rest else c ∷ rest

-- The filter divides the candidates into those that can run the job and those that cannot.
eligible-unfit_for :
    (job : JobRequirements) (candidates : List Candidate)
    → Perm (eligible job candidates ++ unfit_for job candidates) candidates
      × All (λ c. CanRun c.capabilities job) (eligible job candidates)
      × All (λ c. CanRun c.capabilities job → ⊥) (unfit_for job candidates)
unfolding eligible unfit_for
eligible-unfit_for job [] = (Perm.refl [], tt, tt)
eligible-unfit_for job (c ∷ candidates) =
    let (same, fit, unfit) = eligible-unfit_for job candidates in
    let fits = matches_iff c.capabilities job in
    elim (Bool-cases (matches c.capabilities job)) [
      | inl yes_fit ↦ rw yes_fit (Perm.cons c same, (fits.0 yes_fit, fit), unfit)
      | inr not_fit ↦ rw not_fit (
        Perm.trans (perm_middle (eligible job candidates) (unfit_for job candidates))
            (Perm.cons c same),
        fit,
        (λ runs. let yes_fit = fits.1 runs in absurd (cc), unfit),
      )
    ]

IsFirst-drop :
    (n : ℕ) (c : Candidate) (candidates : List Candidate)
    → IsFirst c candidates
    → IsFirst c (drop n candidates)
IsFirst-drop zero c candidates f = f
IsFirst-drop (suc n) c [] f = tt
IsFirst-drop (suc n) c (d ∷ candidates) f = IsFirst-drop n c candidates f.1

take-IsFirst :
    (n : ℕ) (candidates : List Candidate)
    → IsRanked candidates
    → All (λ c. IsFirst c (drop n candidates)) (take n candidates)
take-IsFirst zero candidates r = tt
take-IsFirst (suc n) [] r = tt
take-IsFirst (suc n) (c ∷ candidates) r =
    (IsFirst-drop n c candidates r.0, take-IsFirst n candidates r.1)

-- The candidates divide into those that can run the job and those that cannot. A committee is
-- selected exactly if the former are enough; it has the size asked for, all its members can run
-- the job, and no candidate that can run it and was left out has a smaller VRF output than a
-- member.
pub select_committee :
    (candidates : List Candidate) (job : JobRequirements) (size : ℕ)
    → let selected = select_capability_aware_committee candidates job size in
      (fit : List Candidate) × (unfit : List Candidate) × Perm (fit ++ unfit) candidates
      × All (λ c. CanRun c.capabilities job) fit
      × All (λ c. CanRun c.capabilities job → ⊥) unfit
      × (((length fit < size) × (selected ≡ none))
          ⊎ ((size ≤ length fit)
              × ((chosen : List Candidate) × (rest : List Candidate) × (selected
                    ≡ some (ids chosen))
                  × (length chosen ≡ size)
                  × Perm (chosen ++ rest) fit
                  × All (λ c. IsFirst c rest) chosen)))
unfolding select_capability_aware_committee
select_committee candidates job size =
    let fit = eligible job candidates in
    let (same, can, cannot) = eligible-unfit_for job candidates in
    (
      fit,
      unfit_for job candidates,
      same,
      can,
      cannot,
      elim (Bool-cases (ltb (length fit) size)) [
        | inl few ↦ inl (ground arith, rw few refl)
        | inr enough ↦
            let inside : size ≤ length fit = ground arith in
            inr (
              inside,
              (
                take size (rank fit),
                drop size (rank fit),
                rw enough refl,
                length-take size (rank fit) (rw (length-rank fit) inside),
                rw (take-drop size (rank fit)) (rank-Perm fit),
                take-IsFirst size (rank fit) (rank-IsRanked fit),
              ),
            )
      ],
    )
