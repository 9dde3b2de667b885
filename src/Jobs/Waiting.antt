-- ===== src/Jobs/Waiting.antt =====
-- A child is waited for until it ends or a limit is reached, and the limit that is blamed was.
use cosaci.Prelude.{
  ℕ, suc, ◌≡◌, ◌≢◌, refl, ap, subst, ◌∙◌, ◌⊎◌, true, false, Option, none, some, List, [], ◌∷◌,
  arith, take, get_elem?, ok, Has, Bool-cases, Result-cases, inl, inr, Bool,
}
use cosaci.Jobs.Cgroup.{StepCgroup}
use cosaci.Jobs.Native.{
  ExitOutcome, ended, killed_by_wall, killed_by_cpu, Poll, is_reached, is_used_up, wait_loop,
}

-- A turn at which the loop stops: the child ended or cannot be waited for, or the wall limit is
-- reached.
abbrev pub Stops : Option ℕ → Poll → Type 0
Stops wall_at poll = (poll.try_wait ≢ ok none) ⊎ (is_reached wall_at poll.elapsed ≡ true)

pub wait_loop-Stops :
    (wall_at cpu_at : Option ℕ) (group : Option StepCgroup) (dies : Bool) (poll : Poll)
    (polls : List Poll)
    → dies ≡ true
    → Has poll polls
    → Stops wall_at poll
    → (outcome : ExitOutcome) × (wait_loop wall_at cpu_at group dies polls ≡ some outcome)
unfolding wait_loop
wait_loop-Stops wall_at cpu_at group dies poll [] d h s = absurd h.lower
wait_loop-Stops wall_at cpu_at group dies poll (first ∷ polls) d h s =
    elim (Result-cases first.try_wait) [
      | inr (e, t) ↦ (killed_by_wall, rw t refl)
      | inl (some status, t) ↦ (ended status, rw t refl)
      | inl (none, t) ↦ elim (Bool-cases (is_reached wall_at first.elapsed)) [
        | inl r ↦ (killed_by_wall, rw (t, r, d) refl)
        | inr r ↦ elim (Bool-cases (is_used_up cpu_at group first.cpu_stat)) [
          | inl u ↦ (killed_by_cpu, rw (t, r, u, d) refl)
          | inr u ↦ elim h [
            | inl same ↦ absurd (here same s t r)
            | inr later ↦
                let (outcome, e) = wait_loop-Stops wall_at cpu_at group dies poll polls d later s in
                (outcome, rw (t, r, u) e)
          ]
        ]
      ]
    ]
  where
    here :
        poll ≡ first
        → Stops wall_at poll
        → first.try_wait ≡ ok none
        → is_reached wall_at first.elapsed ≡ false
        → ⊥
    here same (inl n) t r = n (ap (λ (p : Poll). p.try_wait) same ∙ t)
    here same (inr y) t r = ground arith

-- A turn whose usage of the processor reaches the limit of a group.
abbrev pub UsesUp : Option ℕ → Option StepCgroup → Poll → Type 0
UsesUp cpu_at group poll = is_used_up cpu_at group poll.cpu_stat ≡ true

-- What the outcome says happened at the turn that stopped the loop.
abbrev pub Reason : Option ℕ → Option ℕ → Option StepCgroup → Poll → ExitOutcome → Type 0
Reason wall_at cpu_at group poll (ended status) = poll.try_wait ≡ ok (some status)
Reason wall_at cpu_at group poll killed_by_wall = Stops wall_at poll
Reason wall_at cpu_at group poll killed_by_cpu = UsesUp cpu_at group poll

-- Nothing stopped the loop at this turn.
abbrev pub Goes : Option ℕ → Option ℕ → Option StepCgroup → Poll → Type 0
Goes wall_at cpu_at group poll =
    (poll.try_wait ≡ ok none)
    × (is_reached wall_at poll.elapsed ≡ false)
    × (is_used_up cpu_at group poll.cpu_stat ≡ false)

abbrev pub AllGo : Option ℕ → Option ℕ → Option StepCgroup → List Poll → Type 0
AllGo wall_at cpu_at group [] = Unit
AllGo wall_at cpu_at group (poll ∷ polls) =
    Goes wall_at cpu_at group poll × AllGo wall_at cpu_at group polls

-- The outcome is that of the first turn at which the child ended or a limit was reached.
pub wait_loop_first :
    (wall_at cpu_at : Option ℕ) (group : Option StepCgroup) (dies : Bool) (polls : List Poll)
    (outcome : ExitOutcome)
    → wait_loop wall_at cpu_at group dies polls ≡ some outcome
    → (n : ℕ) × (poll : Poll) × (get_elem? polls n ≡ some poll)
      × AllGo wall_at cpu_at group (take n polls)
      × Reason wall_at cpu_at group poll outcome
unfolding wait_loop
wait_loop_first wall_at cpu_at group dies [] outcome h = absurd (cc)
wait_loop_first wall_at cpu_at group dies (first ∷ polls) outcome h =
    elim (Result-cases first.try_wait) [
      | inr (e, t) ↦
          let same : killed_by_wall ≡ outcome = ground arith in
          subst Found same (0, first, refl, tt, inl (λ n. absurd (cc (n, t))))
      | inl (some status, t) ↦
          let same : ended status ≡ outcome = ground arith in
          subst Found same (0, first, refl, tt, t)
      | inl (none, t) ↦ elim (Bool-cases (is_reached wall_at first.elapsed)) [
        | inl r ↦
            let same : killed_by_wall ≡ outcome = ground arith in
            subst Found same (0, first, refl, tt, inr r)
        | inr r ↦ elim (Bool-cases (is_used_up cpu_at group first.cpu_stat)) [
          | inl u ↦
              let same : killed_by_cpu ≡ outcome = ground arith in
              subst Found same (0, first, refl, tt, u)
          | inr u ↦
              let (n, poll, at, before, why) =
                wait_loop_first wall_at cpu_at group dies polls outcome (rw (t, r, u) at h) in
              (suc n, poll, at, ((t, r, u), before), why)
        ]
      ]
    ]
  where
    Found : ExitOutcome → Type 0
    Found o =
        (n : ℕ) × (poll : Poll) × (get_elem? (first ∷ polls) n ≡ some poll)
        × AllGo wall_at cpu_at group (take n (first ∷ polls))
        × Reason wall_at cpu_at group poll o
