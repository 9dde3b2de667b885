-- ===== src/Lease/Examples.antt =====
-- Runs of a lease manager, and the theorems at concrete inputs.
use cosaci.Prelude.{ℕ, ◌≡◌, refl, some, [], ◌∷◌, List, arith, nat_key, pair_key, ok, err}
use cosaci.Map.{get, insert, remove, contains_key}
use cosaci.Lease.{
  LeaseManager, Lease, active, completed, already_leased, new, tick, to_expire, expire_all, grant,
  acquire, finish, complete,
}
use cosaci.Lease.Invariant.{IsValid}
use cosaci.Lease.History.{
  Call, acquires, completes, step, run, run-IsValid, run_exclusive, run_protects,
}

-- Job 7 is leased to runner 1 for 100 ns, and to runner 2, who completes.
abbrev history : List Call
history = acquires 7 1 0 0 ∷ acquires 7 2 10 10 ∷ completes 2 20 ∷ []

abbrev used : LeaseManager
used = run (new 100) history

abbrev held_lease : Lease
held_lease = record {
  lease_id = 1;
  job_id = 7;
  runner_id = 1;
  acquired_at_ns = 0;
  ttl_ns = 100;
  state = active;
}

abbrev done_lease : Lease
done_lease = record {
  lease_id = 2;
  job_id = 7;
  runner_id = 2;
  acquired_at_ns = 10;
  ttl_ns = 100;
  state = completed;
}

used_first : get 1 used.leases ≡ some held_lease
unfolding run step acquire complete grant finish tick to_expire expire_all new get insert remove
    contains_key
used_first = refl

used_second : get 2 used.leases ≡ some done_lease
unfolding run step acquire complete grant finish tick to_expire expire_all new get insert remove
    contains_key
used_second = refl

refused_early : (acquire 7 1 99 99 used).1 ≡ err already_leased
unfolding run step acquire complete grant finish tick to_expire expire_all new get insert remove
    contains_key
refused_early = refl

granted_late : (acquire 7 1 100 100 used).1 ≡ ok 3
unfolding run step acquire complete grant finish tick to_expire expire_all new get insert remove
    contains_key
granted_late = refl

other_pair : (acquire 8 1 30 31 used).1 ≡ ok 3
unfolding run step acquire complete grant finish tick to_expire expire_all new get insert remove
    contains_key
other_pair = refl

used-next_id : used.next_id ≡ 3
unfolding run step acquire complete grant finish tick to_expire expire_all new get insert remove
    contains_key
used-next_id = refl

run-IsValid_example : IsValid used
run-IsValid_example = run-IsValid 100 history (omega arith)

run_exclusive_example : ◌≡◌ {A = ℕ} 1 1
run_exclusive_example =
    run_exclusive 100 history 1 1 held_lease held_lease (omega arith) used_first used_first refl
      refl refl

run_protects_example :
    (acquire 7 1 99 99 (run used (acquires 8 1 30 30 ∷ completes 2 40 ∷ []))).1 ≡ err already_leased
run_protects_example =
    run_protects used (acquires 8 1 30 30 ∷ completes 2 40 ∷ []) 1 99 99 held_lease
      run-IsValid_example (omega (arith, used-next_id)) used_first refl (omega arith) (omega arith)
