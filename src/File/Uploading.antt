-- ===== src/File/Uploading.antt =====
-- What an upload leaves in the tables and in the storage.
use constell.Prelude.{
  ℕ, ◌≤◌, String, ◌≡◌, ◌⊎◌, Bool, true, false, Option, List, [], ◌∷◌, ◌++◌, nat_eq, string_eq,
  length, any,
}
use constell.Prelude.Exec.{Result, ok, err, Exec, ◌>>=◌, ◌>>◌}
use constell.Prelude.Text.{join}
use constell.Rpc.{Code}
use constell.Sql.{DbError, Store}
use constell.File.{
  FileInfo, FileMeta, FileService, FileTables, Minio, UploadFileRequest, add_thumbnail, is_file,
  original_key, put, uploaded_info,
}

abbrev pub with_file : FileMeta → FileTables → FileTables
with_file f db = record db { files = db.files ++ f ∷ [] }

-- An insertion adds one row of a new id, or changes nothing.
abbrev Inserts : FileMeta → Store FileTables → Result DbError (Unit {0}) × Store FileTables → Type 0
Inserts f s (ok x, t) = (t.db ≡ with_file f s.db) × (any (is_file f.id) s.db.files ≡ false)
Inserts f s (err e, t) = t.db ≡ s.db

module _ {W : Type 0} (minio : Minio W)
    (generate_thumbnail : List ℕ → String → Option (List ℕ)) where
  -- The put of the file itself, under its key, and the row of a file that is ready.
  abbrev pub stored : UploadFileRequest → FileService W → Bool × W
  stored msg s =
      minio.put_object (join "originals/" msg.file_id) msg.content_type msg.content s.storage

  abbrev pub new_row : String → UploadFileRequest → FileService W → FileMeta
  new_row caller_id msg s = record {
    id = msg.file_id;
    uploader_id = caller_id;
    filename = msg.filename;
    content_type = msg.content_type;
    size = length msg.content;
    status = "ready";
    bucket = s.bucket;
    created_at = s.clock s.readings;
  }

  -- How UploadFile ends. Where it answers, the file is of 5 MB at most and was stored, and one row was
  -- added, of an id that no file had. Where it fails nothing has changed, or the row was added and the
  -- put of the file failed.
  abbrev pub Uploads :
      String → UploadFileRequest → FileService W → Result Code FileInfo × FileService W → Type 0
  Uploads caller_id msg s (ok info, t) =
      (length msg.content ≤ 5242880)
      × (any (is_file msg.file_id) s.store.db.files ≡ false)
      × (t.store.db ≡ with_file (new_row caller_id msg s) s.store.db)
      × ((stored msg s).0 ≡ true)
  Uploads caller_id msg s (err e, t) =
      ((t.store.db ≡ s.store.db) × (t.storage ≡ s.storage))
      ⊎ ((t.store.db ≡ with_file (new_row caller_id msg s) s.store.db) × ((stored msg s).0 ≡ false))

  abbrev Decorates : FileService W → Result Code String × FileService W → Type 0
  Decorates s (ok url, t) = t.store ≡ s.store
  Decorates s (err e, t) = ⊥

  -- What follows the insertion.
  abbrev after_row : UploadFileRequest → ℕ → Exec (FileService W) Code FileInfo
  unfolding add_thumbnail uploaded_info
  after_row msg now =
      put minio generate_thumbnail (original_key msg.file_id) msg.content_type msg.content
      >> (add_thumbnail minio generate_thumbnail msg >>= λ url u.
          (ok (uploaded_info msg now url u), u))
