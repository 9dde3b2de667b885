-- ===== src/AdminAuth/Loaded.antt =====
-- The admins of a loaded file: each stands under the fingerprint of its key, and whoever is let in
-- has a key of such a record.
use cosaci.Prelude.{
  ℕ, ◌≡◌, subst, some, List, arith, ok, Result-cases, inl, inr, bytes_key, bytes_beq_iff,
}
use cosaci.Map.{get-insert, contains_key, get as lookup}
use cosaci.Text.{File, missing_file, unreadable_file, text_file, lines}
use cosaci.RecordFile.{load_lines}
use cosaci.RecordFile.Loading.{load_lines_keep}
use cosaci.Submission.{Primitives}
use cosaci.AdminAuth.{AdminRecord, AdminKeySet, new, get, insert, authorized, verify_admin_hello}
use cosaci.AdminAuth.Hello.{verify_admin_hello-authorized_iff}
use cosaci.AdminAuth.Keys.{parse_line, read_line, load_from_path}

abbrev pub IsKeyed : AdminKeySet → Type 0
IsKeyed set = (fp : List ℕ) (admin : AdminRecord) → get fp set ≡ some admin → admin.signing_fp ≡ fp

insert-IsKeyed :
    (admin : AdminRecord) (set : AdminKeySet) → IsKeyed set → IsKeyed (insert admin set).0
unfolding insert get contains_key
insert-IsKeyed admin set k fp other e =
    let here = get-insert admin.signing_fp fp admin set.by_fp in
    let before = k fp other in ground (arith, bytes_beq_iff admin.signing_fp fp)

read_line-IsKeyed :
    (n : ℕ) (line : List ℕ) (set more : AdminKeySet)
    → IsKeyed set
    → read_line n line set ≡ ok more
    → IsKeyed more
unfolding read_line
read_line-IsKeyed n line set more k e = elim (Result-cases (parse_line n line)) [
  | inr (fault, p) ↦ absurd (ground arith)
  | inl (admin, p) ↦
      let same : (insert admin set).0 ≡ more = unfold insert in ground arith in
      subst IsKeyed same (insert-IsKeyed admin set k)
]

new-IsKeyed : IsKeyed new
unfolding get new lookup
new-IsKeyed fp admin e = absurd (cc (e))

pub load_from_path-IsKeyed :
    (file : File) (set : AdminKeySet) → load_from_path file ≡ ok set → IsKeyed set
unfolding load_from_path
load_from_path-IsKeyed missing_file set e = absurd (cc (e))
load_from_path-IsKeyed unreadable_file set e = absurd (cc (e))
load_from_path-IsKeyed (text_file text) set e =
    elim (Result-cases (load_lines read_line 1 (lines text) new)) [
      | inr (fault, l) ↦ absurd (ground arith)
      | inl (found, l) ↦
          let same : found ≡ set = ground arith in
          subst IsKeyed same (
            load_lines_keep read_line IsKeyed read_line-IsKeyed 1 (lines text) new found new-IsKeyed
              l)
    ]

-- Whoever is let in under an id has the key of a record with the id in the file.
pub load_from_path-authorized :
    (p : Primitives) (file : File) (set : AdminKeySet) (pubkey : List ℕ) (ts_unix_ns : ℕ)
    (signature challenge : List ℕ) (freshness_ns now id : ℕ)
    → load_from_path file ≡ ok set
    → verify_admin_hello p set pubkey ts_unix_ns signature challenge freshness_ns now
      ≡ authorized id
    → (admin : AdminRecord) × (admin.admin_id ≡ id) × (admin.signing_fp ≡ p.sha256 pubkey)
load_from_path-authorized p file set pubkey ts_unix_ns signature challenge freshness_ns now id e h =
    let (admin, same, genuine) =
      (verify_admin_hello-authorized_iff p set pubkey ts_unix_ns signature challenge freshness_ns
          now id).0
        h in
    (admin, same, load_from_path-IsKeyed file set e (p.sha256 pubkey) admin genuine.enrolled)
