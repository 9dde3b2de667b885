-- ===== src/MerkleLog/Files.antt =====
-- A log that is opened again from its file is the log that was written.
use cosaci.Prelude.{
  ◌+◌, append_nil, append_assoc, sym, some, none, ap, take, length-take, err, ◌<◌, ℕ, ◌*◌, ◌/◌, ◌%◌,
  ◌≡◌, refl, ◌∙◌, List, [], ◌∷◌, ◌++◌, arith, length, length-append, take_whole, drop_whole, ok,
  All,
}
use cosaci.MerkleLog.{
  invalid_data, write_failed, store_append, file_append, Hash, MerkleLog, FileStore, open_store,
  chunks, read_all, file_open,
}

abbrev pub IsHash : Hash → Type 0
IsHash h = length h ≡ 32

abbrev pub bytes_of : List Hash → List ℕ
bytes_of [] = []
bytes_of (h ∷ hashes) = h ++ bytes_of hashes

-- The file holds the entries, and the store counts them.
pub record IsSynced (l : MerkleLog FileStore) : Type 0 where
  pub hashes : All IsHash l.entries
  pub written : l.store.file ≡ bytes_of l.entries
  pub counted : l.store.stored_len ≡ length l.entries

length-bytes_of :
    (hashes : List Hash) → All IsHash hashes → length (bytes_of hashes) ≡ 32 * length hashes
length-bytes_of [] a = refl
length-bytes_of (h ∷ hashes) a =
    let size = a.0 in omega (arith, length-append h (bytes_of hashes), length-bytes_of hashes a.1)

chunks-bytes_of :
    (hashes : List Hash) → All IsHash hashes → chunks (length hashes) (bytes_of hashes) ≡ hashes
unfolding chunks
chunks-bytes_of [] a = refl
chunks-bytes_of (h ∷ hashes) a =
    rw
      (
        take_whole h (bytes_of hashes) 32 a.0,
        drop_whole h (bytes_of hashes) 32 a.0,
        chunks-bytes_of hashes a.1,
      )
      refl

pub file_open-IsSynced : (l : MerkleLog FileStore) → IsSynced l → file_open l.store.file ≡ ok l
unfolding file_open open_store read_all
file_open-IsSynced l s =
    let size = length-bytes_of l.entries s.hashes in
    let back = chunks-bytes_of l.entries s.hashes in
    let count : length (bytes_of l.entries) / 32 ≡ length l.entries = omega arith in
    let whole : length (bytes_of l.entries) % 32 ≡ 0 = omega arith in
    let bytes : chunks (length l.store.file / 32) l.store.file ≡ l.entries =
      ap (λ file. chunks (length file / 32) file) s.written
      ∙ ap (λ n. chunks n (bytes_of l.entries)) count
      ∙ back in
    let same = ap (λ file. length file) s.written in ground (arith, s.counted)

All-append :
    (hashes : List Hash) (entry : Hash)
    → All IsHash hashes
    → IsHash entry
    → All IsHash (hashes ++ entry ∷ [])
All-append [] entry a h = (h, tt)
All-append (other ∷ hashes) entry a h = (a.0, All-append hashes entry a.1 h)

bytes_of-append :
    (hashes : List Hash) (entry : Hash) → bytes_of (hashes ++ entry ∷ []) ≡ bytes_of hashes ++ entry
bytes_of-append [] entry = append_nil entry
bytes_of-append (other ∷ hashes) entry =
    ap (λ bytes. other ++ bytes) (bytes_of-append hashes entry)
    ∙ sym (append_assoc other (bytes_of hashes) entry)

append-IsSynced :
    (entry : Hash) (l : MerkleLog FileStore)
    → IsHash entry
    → IsSynced l
    → IsSynced (file_append none entry l).0
unfolding file_append store_append
append-IsSynced entry l h s = record {
  hashes = All-append l.entries entry s.hashes h;
  written = ap (λ file. file ++ entry) s.written ∙ sym (bytes_of-append l.entries entry);
  counted = ground (arith, s.counted, length-append l.entries (entry ∷ []));
}

unfoldable pub append_all : List Hash → MerkleLog FileStore → MerkleLog FileStore
append_all [] l = l
append_all (entry ∷ entries) l = append_all entries (file_append none entry l).0

append_all-IsSynced :
    (entries : List Hash) (l : MerkleLog FileStore)
    → All IsHash entries
    → IsSynced l
    → IsSynced (append_all entries l)
unfolding append_all
append_all-IsSynced [] l a s = s
append_all-IsSynced (entry ∷ entries) l a s =
    append_all-IsSynced entries (file_append none entry l).0 a.1 (append-IsSynced entry l a.0 s)

entries-append_all :
    (entries : List Hash) (l : MerkleLog FileStore)
    → (append_all entries l).entries ≡ l.entries ++ entries
unfolding append_all file_append store_append
entries-append_all [] l = sym (append_nil l.entries)
entries-append_all (entry ∷ entries) l =
    entries-append_all entries (file_append none entry l).0
    ∙ append_assoc l.entries (entry ∷ []) entries

-- A log of 32-byte entries that was written from an empty file is read back from its file as it
-- is, with every entry in its order.
pub reopen_appended :
    (entries : List Hash)
    → All IsHash entries
    → (empty : MerkleLog FileStore) × (file_open [] ≡ ok empty)
      × (file_open (append_all entries empty).store.file ≡ ok (append_all entries empty))
      × ((append_all entries empty).entries ≡ entries)
unfolding file_open open_store read_all chunks
reopen_appended entries a =
    let empty : MerkleLog FileStore = record {
      entries = [];
      store = record { file = []; stored_len = 0 };
    } in
    let synced : IsSynced empty = record { hashes = tt; written = refl; counted = refl } in
    (
      empty,
      refl,
      file_open-IsSynced (append_all entries empty) (append_all-IsSynced entries empty a synced),
      entries-append_all entries empty,
    )

-- From a log in step with its file, an append that fails inside the entry changes no entry in
-- memory, and the file is refused when it is opened again.
pub reopen_torn :
    (written : ℕ) (entry : Hash) (l : MerkleLog FileStore)
    → IsSynced l
    → IsHash entry
    → 0 < written
    → written < 32
    → let (after, result) = file_append (some written) entry l in
      (result ≡ err write_failed)
      × (after.entries ≡ l.entries)
      × (file_open after.store.file ≡ err invalid_data)
unfolding file_append store_append file_open open_store
reopen_torn written entry l s h some_of not_all =
    let size = length-bytes_of l.entries s.hashes in
    let torn : length (l.store.file ++ take written entry) ≡ 32 * length l.entries + written =
      length-append l.store.file (take written entry)
      ∙ omega
          (arith, ap (λ file. length file) s.written, length-take written entry (omega arith)) in
    (refl, refl, ground (arith, torn))
