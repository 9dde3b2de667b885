-- ===== src/Intake/Queue.antt =====
-- The queue of submissions over any run of the reader and the receiver.
use cosaci.Prelude.{
  ℕ, ◌≡◌, refl, ap, sym, ◌∙◌, subst, inl, inr, ◌≤◌, true, false, Option, none, some, List, [], ◌∷◌,
  ◌++◌, arith, length, length-append, All, All-append, append_assoc,
}
use cosaci.Tenant.{TenantRegistry}
use cosaci.Submission.{Primitives, Times}
use cosaci.AdminApi.{AuthState}
use cosaci.Intake.{
  RunSubmission, JobSubmission, Formats, Canned, Intake, try_send, enqueue, admit_line, read_line,
  check_submission, gate_of, with_gate,
}
use cosaci.Intake.Gated.{IsVouched, Queues, as_before, one_more, read_line-cases, read_line-Queues}

-- A line arrives, the run loop takes a submission, an admin's change reloads the registry, or the
-- run loop is gone.
pub data Event : Type 0 where
  arrives : Times → Option (List ℕ) → Event
  taken : Event
  reloaded : TenantRegistry → Event
  hung_up : Event

-- The reader's side, and what the run loop has taken so far.
pub record Flow : Type 0 where
  pub intake : Intake
  pub done : List RunSubmission

abbrev pub with_registry : TenantRegistry → Option AuthState → Option AuthState
with_registry registry none = none
with_registry registry (some a) = some (record a { registry = registry })

abbrev pub take_first : List RunSubmission → Flow → Flow
take_first [] w = w
take_first (r ∷ queue) w = record {
  intake = record w.intake { queue = queue };
  done = w.done ++ (r ∷ []);
}

module _ (p : Primitives) (f : Formats) (canned : Canned) (queue_cap : ℕ) where
  abbrev pub step : Event → Flow → Flow
  step (arrives at line) w = record w { intake = read_line p f canned queue_cap at line w.intake }
  step taken w = take_first w.intake.queue w
  step (reloaded registry) w = record w {
    intake = record w.intake { auth_state = with_registry registry w.intake.auth_state };
  }
  step hung_up w = record w { intake = record w.intake { receiving = false } }

  unfoldable pub run : List Event → Flow → Flow
  run [] w = w
  run (e ∷ events) w = run events (step e w)

  enqueue-auth_state :
      (sub : JobSubmission) (s : Intake)
      → (enqueue p f canned queue_cap sub s).auth_state ≡ s.auth_state
  unfolding enqueue try_send
  enqueue-auth_state sub s = ground arith

  admit_line-registry :
      (at : Times) (sub : JobSubmission) (s : Intake) (a : AuthState)
      → s.auth_state ≡ some a
      → (b : AuthState) × ((admit_line p f canned queue_cap at sub s).auth_state ≡ some b)
        × (b.registry ≡ a.registry)
  unfolding admit_line
  admit_line-registry at sub s a on =
      let (g, verdict) = check_submission p a.registry at sub (gate_of a) in
      let checked : Intake = record s { auth_state = some (with_gate g a) } in
      let kept = enqueue-auth_state sub checked in (with_gate g a, ground (arith, kept), refl)

  -- A line leaves the registry as it is.
  read_line-registry :
      (at : Times) (line : Option (List ℕ)) (s : Intake) (a : AuthState)
      → s.auth_state ≡ some a
      → (b : AuthState) × ((read_line p f canned queue_cap at line s).auth_state ≡ some b)
        × (b.registry ≡ a.registry)
  read_line-registry at line s a on = elim (read_line-cases p f canned queue_cap at line s) [
    | inl (queue, gate) ↦ (a, gate ∙ on, refl)
    | inr (sub, same) ↦
        let (b, e, kept) = admit_line-registry at sub s a on in
        (b, ap (λ (t : Intake). t.auth_state) same ∙ e, kept)
  ]

  module _ (Ok : TenantRegistry → Type 0) where
    -- The submission is signed by a tenant of an accepted registry.
    abbrev pub Accepted : RunSubmission → Type 0
    Accepted r = (registry : TenantRegistry) × Ok registry × IsVouched p f canned registry r

    -- What holds of every state of a run.
    pub record IsSound (w : Flow) : Type 0 where
      pub gated : (a : AuthState) × (w.intake.auth_state ≡ some a) × Ok a.registry
      pub bounded : length w.intake.queue ≤ queue_cap
      pub vouched :
          All
            (λ r. (registry : TenantRegistry) × Ok registry × IsVouched p f canned registry r)
            (w.done ++ w.intake.queue)

    -- The registries that a run loads are accepted.
    abbrev pub Loads : Event → Type 0
    Loads (reloaded registry) = Ok registry
    Loads _ = Unit

    arrives-IsSound :
        (at : Times) (line : Option (List ℕ)) (w : Flow) (a b : AuthState)
        → IsSound w
        → Ok a.registry
        → Ok b.registry
        → (read_line p f canned queue_cap at line w.intake).auth_state ≡ some b
        → Queues queue_cap
            (IsVouched p f canned a.registry)
            w.intake.queue
            (read_line p f canned queue_cap at line w.intake).queue
        → IsSound (step (arrives at line) w)
    arrives-IsSound at line w a b s before after e (as_before q) = record {
      gated = (b, e, after);
      bounded = subst (λ queue. length queue ≤ queue_cap) (sym q) s.bounded;
      vouched = subst (λ queue. All Accepted (w.done ++ queue)) (sym q) s.vouched;
    }
    arrives-IsSound at line w a b s before after e (one_more r v free q) =
        let count = length-append w.intake.queue (r ∷ []) in
        let more =
          All-append Accepted (w.done ++ w.intake.queue) (r ∷ []) s.vouched
            ((a.registry, before, v), tt) in
        record {
          gated = (b, e, after);
          bounded = subst (λ queue. length queue ≤ queue_cap) (sym q) (omega (arith, count, free));
          vouched =
              subst (λ queue. All Accepted (w.done ++ queue)) (sym q)
                (subst (All Accepted) (append_assoc w.done w.intake.queue (r ∷ [])) more);
        }

    take_first-IsSound :
        (queue : List RunSubmission) (w : Flow)
        → w.intake.queue ≡ queue
        → IsSound w
        → IsSound (take_first queue w)
    take_first-IsSound [] w q s = s
    take_first-IsSound (r ∷ queue) w q s = record {
      gated = s.gated;
      bounded = let room = s.bounded in ground (arith, q, room);
      vouched =
          subst (All Accepted) (sym (append_assoc w.done (r ∷ []) queue))
            (subst (λ rs. All Accepted (w.done ++ rs)) q s.vouched);
    }

    step-IsSound : (e : Event) (w : Flow) → Loads e → IsSound w → IsSound (step e w)
    step-IsSound (arrives at line) w l s =
        let (a, on, before) = s.gated in
        let (b, e, kept) = read_line-registry at line w.intake a on in
        arrives-IsSound at line w a b s before (subst Ok (sym kept) before) e
          (read_line-Queues p f canned queue_cap at line w.intake a on)
    step-IsSound taken w l s = take_first-IsSound w.intake.queue w refl s
    step-IsSound (reloaded registry) w l s =
        let (a, on, accepted) = s.gated in
        record {
          gated = (record a { registry = registry }, rw on refl, l);
          bounded = s.bounded;
          vouched = s.vouched;
        }
    step-IsSound hung_up w l s = record {
      gated = s.gated;
      bounded = s.bounded;
      vouched = s.vouched;
    }

    run-IsSound :
        (events : List Event) (w : Flow) → All Loads events → IsSound w → IsSound (run events w)
    unfolding run
    run-IsSound [] w l s = s
    run-IsSound (e ∷ events) w l s = run-IsSound events (step e w) l.1 (step-IsSound e w l.0 s)

  -- A queue that nothing was read into yet.
  abbrev pub fresh : AuthState → Flow
  fresh a = record {
    intake = record { auth_state = some a; queue = []; reading = true; receiving = true };
    done = [];
  }

  -- Under a gate, whatever lines arrive and whatever is taken and reloaded in between, the queue
  -- of submissions keeps within its capacity, and each submission that is queued or was taken is
  -- one that a tenant of a registry that was loaded has signed: with its deadline, and for a
  -- pipeline the very bytes that it is decoded from.
  pub run_vouched :
      (Ok : TenantRegistry → Type 0) (a : AuthState) (events : List Event)
      → Ok a.registry
      → All (Loads Ok) events
      → (length (run events (fresh a)).intake.queue ≤ queue_cap)
        × All (Accepted Ok) ((run events (fresh a)).done ++ (run events (fresh a)).intake.queue)
  run_vouched Ok a events accepted loads =
      let s =
        run-IsSound Ok events (fresh a) loads
          (record { gated = (a, refl, accepted); bounded = omega arith; vouched = tt }) in
      (s.bounded, s.vouched)
