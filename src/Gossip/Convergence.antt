-- ===== src/Gossip/Convergence.antt =====
-- Gossip converges: what a node reads depends on the set of writes that have reached it only.
use cosaci.Map.{get as lookup}
use cosaci.Prelude.{
  Has, nat_key, ◌↔◌, ℕ, ◌≡◌, refl, sym, ◌∙◌, Option, none, some, List, [], ◌∷◌, ◌++◌, arith,
  nat_beq, if◌then◌else◌, inl, inr,
}
use cosaci.Gossip.{Entry, NodeState, new, get, write, merge}
use cosaci.Gossip.Lattice.{
  join, join_comm, join_assoc, join_idem, IsValid, get-merge, get-write, merge-IsValid,
  write-IsValid, Agree,
}

-- A call of `write`.
pub record Write : Type 0 where
  pub key : ℕ
  pub value : ℕ
  pub timestamp : ℕ

abbrev pub entry_of : Write → Entry
entry_of w = record { value = w.value; timestamp = w.timestamp }

-- A node that writes and merges have made, and the writes that have reached it.
pub data Knows : NodeState → List Write → Type 0 where
  starts : Knows new []
  writes :
      {s : NodeState} {ws : List Write} (w : Write)
      → Knows s ws
      → Knows (write w.key w.value w.timestamp s) (w ∷ ws)
  merges :
      {s t : NodeState} {ws us : List Write}
      → Knows s ws
      → Knows t us
      → Knows (merge s t) (us ++ ws)

pub Knows-IsValid : {s : NodeState} {ws : List Write} → Knows s ws → IsValid s
unfolding new
Knows-IsValid starts = tt
Knows-IsValid (writes {s} w h) = write-IsValid w.key w.value w.timestamp s (Knows-IsValid h)
Knows-IsValid (merges {s} {t} h g) = merge-IsValid s t (Knows-IsValid h)

-- What one write says of a key.
abbrev pub said : ℕ → Write → Option Entry
said k w = if nat_beq w.key k then some (entry_of w) else none

-- The best of the writes to a key.
abbrev pub best : ℕ → List Write → Option Entry
best k [] = none
best k (w ∷ ws) = join (best k ws) (said k w)

best-append : (k : ℕ) (ws us : List Write) → best k (us ++ ws) ≡ join (best k ws) (best k us)
best-append k ws [] = refl
best-append k ws (u ∷ us) =
    rw (best-append k ws us) (sym (join_assoc (best k ws) (best k us) (said k u)))

pub get-best : {s : NodeState} {ws : List Write} (k : ℕ) → Knows s ws → get k s ≡ best k ws
unfolding new get lookup
get-best k starts = refl
get-best k (writes {s} {ws} w h) =
    ground (arith, get-write k w.key w.value w.timestamp s, get-best k h)
get-best k (merges {s} {t} {ws} {us} h g) =
    rw (get-merge k s t (Knows-IsValid g), get-best k h, get-best k g) (sym (best-append k ws us))

said-best :
    (k : ℕ) (w : Write) (ws : List Write) → Has w ws → join (said k w) (best k ws) ≡ best k ws
said-best k w [] has = absurd has.lower
said-best k w (u ∷ us) (inl e) = ground (
  arith,
  join_comm (said k w) (best k (u ∷ us)),
  join_assoc (best k us) (said k u) (said k w),
  join_idem (said k u),
)
said-best k w (u ∷ us) (inr has) =
    ground (arith, join_assoc (said k w) (best k us) (said k u), said-best k w us has)

best_below :
    (k : ℕ) (x : Option Entry) (us : List Write)
    → ((w : Write) → Has w us → join (said k w) x ≡ x)
    → join (best k us) x ≡ x
best_below k x [] h = join_comm none x
best_below k x (u ∷ us) h =
    let rest = best_below k x us λ w has. h w (inr has) in
    sym (join_assoc (best k us) (said k u) x) ∙ rw (h u (inl refl)) rest

best_subset :
    (k : ℕ) (ws us : List Write)
    → ((w : Write) → Has w ws → Has w us)
    → join (best k ws) (best k us) ≡ best k us
best_subset k ws us h = best_below k (best k us) ws λ w has. said-best k w us (h w has)

-- Two nodes that the same writes have reached, in any order, by any merges and however often, read
-- alike.
pub convergence :
    {s t : NodeState} {ws us : List Write}
    → Knows s ws
    → Knows t us
    → ((w : Write) → Has w ws ↔ Has w us)
    → Agree s t
convergence {s} {t} {ws} {us} h g same k =
    get-best k h
    ∙ sym (best_subset k us ws λ w has. (same w).1 has)
    ∙ join_comm (best k us) (best k ws)
    ∙ best_subset k ws us (λ w has. (same w).0 has)
    ∙ sym (get-best k g)
