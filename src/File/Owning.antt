-- ===== src/File/Owning.antt =====
-- Who deletes a file, and what a deletion leaves.
use constell.Prelude.{
  ℕ, String, ◌≡◌, refl, sym, ap, ◌∙◌, ◌⊎◌, inl, inr, Bool, true, false, not, ◌&&◌, Option, some,
  List, [], ◌∷◌, arith, eq_iff, Bool-cases, Option-cases, ◌==◌, nat_eq, string_eq, keep, find, any,
  contains,
}
use constell.Prelude.Exec.{Result, ok, err, or_fail}
use constell.Prelude.Exec.Ends.{after_check, after_failing}
use constell.Rpc.{Code, unauthenticated, invalid_argument, internal, not_found, permission_denied}
use constell.Sql.{Store, statement, query}
use constell.File.{
  FileMeta, FileService, FileTables, Minio, delete_file_handler, delete_file_meta,
  delete_file_meta_sql, get_file_meta, is_file, on_files,
}

abbrev pub is_owned : String → String → FileMeta → Bool
is_owned caller_id id f = f.id == id && f.uploader_id == caller_id

get_file_meta-db : (id : String) (s : Store FileTables) → (get_file_meta id s).1.db ≡ s.db
unfolding get_file_meta query
get_file_meta-db id s = elim (Bool-cases (s.server.fails s.statements)) [
  | inl down ↦ rw down refl
  | inr up ↦ rw up refl
]

find-owned :
    (caller_id id : String) (meta : FileMeta) (fs : List FileMeta)
    → find (is_file id) fs ≡ some meta
    → (meta.uploader_id == caller_id) ≡ true
    → any (is_owned caller_id id) fs ≡ true
find-owned caller_id id meta [] h own = cc
find-owned caller_id id meta (f ∷ fs) h own = elim (Bool-cases (f.id == id)) [
  | inl y ↦ let same : some f ≡ some meta = rw⁻¹ h (rw y refl) in ground (arith, y, own, same)
  | inr n ↦ ground (arith, find-owned caller_id id meta fs, h, n, own)
]

get_file_meta-find :
    (id : String) (s : Store FileTables) (meta : FileMeta)
    → (get_file_meta id s).0 ≡ ok meta
    → find (is_file id) s.db.files ≡ some meta
unfolding get_file_meta query
get_file_meta-find id s meta h = elim (Bool-cases (s.server.fails s.statements)) [
  | inl down ↦ absurd (ground (arith, h, down))
  | inr up ↦ elim (Option-cases (find (is_file id) s.db.files)) [
    | inl gone ↦ absurd (ground (arith, h, up, gone))
    | inr (f, here) ↦ ground (arith, h, up, here)
  ]
]

owned-is_file :
    (caller_id id : String) (fs : List FileMeta)
    → any (is_owned caller_id id) fs ≡ true
    → any (is_file id) fs ≡ true
owned-is_file caller_id id [] h = cc
owned-is_file caller_id id (f ∷ fs) h =
    ground (arith, owned-is_file caller_id id fs, h, eq_iff f.id id)

unattached :
    (id : String) (db : FileTables)
    → any (is_file id) db.files ≡ true
    → not (any (is_file id) db.files && contains id db.attached) ≡ true
    → contains id db.attached ≡ false
unattached id db there free = ground (arith, Bool-cases (contains id db.attached), there, free)

module _ {W : Type 0} where
  -- How DeleteFile ends. Where it answers, the caller was the uploader of a file of this id that no
  -- message attaches, and exactly the files of this id are gone. Where it fails the tables are as
  -- they were, and so is the storage unless the caller is the uploader of a file of this id.
  abbrev pub Deletes :
      String → String → FileService W → Result Code (Unit {0}) × FileService W → Type 0
  Deletes caller_id id s (ok x, t) =
      (any (is_owned caller_id id) s.store.db.files ≡ true)
      × (contains id s.store.db.attached ≡ false)
      × (t.store.db ≡ record s.store.db { files = keep (λ f. not (is_file id f)) s.store.db.files })
  Deletes caller_id id s (err e, t) =
      (t.store.db ≡ s.store.db)
      × ((any (is_owned caller_id id) s.store.db.files ≡ true) ⊎ (t.storage ≡ s.storage))

  module _ (minio : Minio W) (generate_thumbnail : List ℕ → String → Option (List ℕ)) where
    -- The deletion of the row, from tables as they were.
    deleted-Deletes :
        (caller_id id : String) (s t : FileService W)
        → t.store.db ≡ s.store.db
        → any (is_owned caller_id id) s.store.db.files ≡ true
        → Deletes caller_id id s (or_fail internal (on_files (delete_file_meta id)) t)
    unfolding delete_file_meta delete_file_meta_sql statement
    deleted-Deletes caller_id id s t same own =
        elim (Bool-cases (t.store.server.fails t.store.statements)) [
          | inl down ↦ rw down (same, inl own)
          | inr up ↦
              elim (Bool-cases
                (not (any (is_file id) t.store.db.files && contains id t.store.db.attached))) [
                  | inl free ↦
                      let there = owned-is_file caller_id id s.store.db.files own in
                      rw (up, free)
                        (
                          own,
                          unattached id s.store.db there (
                              ap
                                (λ (db : FileTables).
                                  not (any (is_file id) db.files && contains id db.attached))
                                (sym same)
                              ∙ free),
                          ap
                              (λ (db : FileTables). record db {
                                files = keep (λ f. not (is_file id f)) db.files;
                              })
                              same,
                        )
                  | inr used ↦ rw (up, used) (same, inl own)
                ]
        ]

    -- Where DeleteFile answers, the caller was the uploader of a file of this id that no message
    -- attaches, and exactly the files of this id are gone. Where it fails the tables are as they
    -- were, and so is the storage unless the caller is the uploader of a file of this id.
    pub delete_file_handler-Deletes :
        (caller_id id : String) (s : FileService W)
        → Deletes caller_id id s (delete_file_handler minio generate_thumbnail caller_id id s)
    unfolding delete_file_handler
    delete_file_handler-Deletes caller_id id s =
        let P = Deletes caller_id id s in
        after_check P (caller_id == "") unauthenticated _ s (λ _. (refl, inr refl))
          λ _.
            after_check P (id == "") invalid_argument _ s (λ _. (refl, inr refl))
              λ _.
                after_failing P not_found (on_files (get_file_meta id)) _ s
                  (get_file_meta-db id s.store, inr refl)
                  λ meta found.
                    after_check P (not (meta.uploader_id == caller_id)) permission_denied _
                      (record s { store = (get_file_meta id s.store).1 })
                      (λ _. (get_file_meta-db id s.store, inr refl))
                      (λ own. deleted-Deletes caller_id id s _ (get_file_meta-db id s.store) (
                        find-owned caller_id id meta s.store.db.files
                          (get_file_meta-find id s.store meta found) (ground (arith, own))))
