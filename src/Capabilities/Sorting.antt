-- ===== src/Capabilities/Sorting.antt =====
-- The order of the VRF outputs, and sorting by it.
use cosaci.Prelude.{
  ℕ, suc, ◌≡◌, refl, true, false, List, [], ◌∷◌, arith, length, All, inl, inr, Bool-cases,
}
use mathlib.Core.List.{Perm}
use mathlib.Core.List.Perm
use cosaci.Capabilities.{Candidate, bytes_leb, ranks_before, insert_ranked, rank}

pub bytes_leb_total : (xs ys : List ℕ) → bytes_leb xs ys ≡ false → bytes_leb ys xs ≡ true
bytes_leb_total [] ys h = absurd (cc)
bytes_leb_total (x ∷ xs) [] h = refl
bytes_leb_total (x ∷ xs) (y ∷ ys) h = ground (arith, bytes_leb_total xs ys)

pub bytes_leb_trans :
    (xs ys zs : List ℕ) → bytes_leb xs ys ≡ true → bytes_leb ys zs ≡ true → bytes_leb xs zs ≡ true
bytes_leb_trans [] ys zs h k = refl
bytes_leb_trans (x ∷ xs) [] zs h k = absurd (cc)
bytes_leb_trans (x ∷ xs) (y ∷ ys) [] h k = absurd (cc)
bytes_leb_trans (x ∷ xs) (y ∷ ys) (z ∷ zs) h k = ground (arith, bytes_leb_trans xs ys zs)

pub bytes_leb_antisym : (xs ys : List ℕ) → bytes_leb xs ys ≡ true → bytes_leb ys xs ≡ true → xs ≡ ys
bytes_leb_antisym [] [] h k = refl
bytes_leb_antisym [] (y ∷ ys) h k = absurd (cc)
bytes_leb_antisym (x ∷ xs) [] h k = absurd (cc)
bytes_leb_antisym (x ∷ xs) (y ∷ ys) h k = ground (arith, bytes_leb_antisym xs ys)

-- No candidate of the list ranks before `c`.
abbrev pub IsFirst : Candidate → List Candidate → Type 0
IsFirst c candidates = All (λ d. ranks_before c d ≡ true) candidates

abbrev pub IsRanked : List Candidate → Type 0
IsRanked [] = Unit
IsRanked (c ∷ candidates) = IsFirst c candidates × IsRanked candidates

IsFirst-weaken :
    (c d : Candidate) (candidates : List Candidate)
    → ranks_before c d ≡ true
    → IsFirst d candidates
    → IsFirst c candidates
IsFirst-weaken c d [] h f = tt
IsFirst-weaken c d (e ∷ candidates) h f = (
  bytes_leb_trans c.vrf_output d.vrf_output e.vrf_output h f.0,
  IsFirst-weaken c d candidates h f.1,
)

IsFirst-insert_ranked :
    (c d : Candidate) (candidates : List Candidate)
    → ranks_before c d ≡ true
    → IsFirst c candidates
    → IsFirst c (insert_ranked d candidates)
unfolding insert_ranked
IsFirst-insert_ranked c d [] h f = (h, tt)
IsFirst-insert_ranked c d (e ∷ candidates) h f = elim (Bool-cases (ranks_before d e)) [
  | inl before ↦ rw before (h, f)
  | inr after ↦ rw after (f.0, IsFirst-insert_ranked c d candidates h f.1)
]

insert_ranked-IsRanked :
    (c : Candidate) (candidates : List Candidate)
    → IsRanked candidates
    → IsRanked (insert_ranked c candidates)
unfolding insert_ranked
insert_ranked-IsRanked c [] r = (tt, tt)
insert_ranked-IsRanked c (d ∷ candidates) r = elim (Bool-cases (ranks_before c d)) [
  | inl before ↦ rw before ((before, IsFirst-weaken c d candidates before r.0), r)
  | inr after ↦ rw after (
    IsFirst-insert_ranked d c candidates (bytes_leb_total c.vrf_output d.vrf_output after) r.0,
    insert_ranked-IsRanked c candidates r.1,
  )
]

insert_ranked-Perm :
    (c : Candidate) (candidates : List Candidate)
    → Perm (insert_ranked c candidates) (c ∷ candidates)
unfolding insert_ranked
insert_ranked-Perm c [] = Perm.refl (c ∷ [])
insert_ranked-Perm c (d ∷ candidates) = elim (Bool-cases (ranks_before c d)) [
  | inl before ↦ rw before (Perm.refl (c ∷ d ∷ candidates))
  | inr after ↦
      rw after
        (Perm.trans (Perm.cons d (insert_ranked-Perm c candidates)) (Perm.swap c d candidates))
]

pub rank-IsRanked : (candidates : List Candidate) → IsRanked (rank candidates)
unfolding rank
rank-IsRanked [] = tt
rank-IsRanked (c ∷ candidates) =
    insert_ranked-IsRanked c (rank candidates) (rank-IsRanked candidates)

pub rank-Perm : (candidates : List Candidate) → Perm (rank candidates) candidates
unfolding rank
rank-Perm [] = Perm.refl []
rank-Perm (c ∷ candidates) =
    Perm.trans (insert_ranked-Perm c (rank candidates)) (Perm.cons c (rank-Perm candidates))

length-insert_ranked :
    (c : Candidate) (candidates : List Candidate)
    → length (insert_ranked c candidates) ≡ suc (length candidates)
unfolding insert_ranked
length-insert_ranked c [] = refl
length-insert_ranked c (d ∷ candidates) = ground (arith, length-insert_ranked c candidates)

pub length-rank : (candidates : List Candidate) → length (rank candidates) ≡ length candidates
unfolding rank
length-rank [] = refl
length-rank (c ∷ candidates) =
    ground (arith, length-insert_ranked c (rank candidates), length-rank candidates)
