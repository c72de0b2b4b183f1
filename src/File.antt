-- ===== src/File.antt =====
-- backend/services/file-service: repository.go, service.go and multipart.go. MinIO is a parameter on a
-- state of its own, and so is the thumbnail of an image.
pub mod Multipart
pub mod Owning
pub mod Uploading
use constell.Prelude.{
  ℕ, zero, suc, ◌+◌, ◌-◌, ◌*◌, ◌/◌, ◌%◌, ◌^◌, ◌≤◌, ◌<◌, min, max, String, ◌≡◌, refl, sym, ap, subst,
  ◌∙◌, ◌≢◌, ◌↔◌, ◌⊎◌, inl, inr, Bool, true, false, not, ◌&&◌, ◌||◌, Option, none, some, List, [],
  ◌∷◌, ◌++◌, map, arith, eq_iff, ltb, leb, eqb, if◌then◌else◌, ltb→lt, lt→ltb, le→ltb, eqb_iff,
  Bool-cases, Option-cases, Comparable, ◌==◌, nat_eq, string_eq, equal_refl, eq_of_equal, length,
  take, drop, get_elem?, keep, find, any, All, length-append, length-take, take-append-drop,
  take-of_le, take-length-append, drop-length-append, length-keep-le, All-map, All-keep, contains,
  Distinct, All-append, All-keep_with, any-append_left, any-keep, bit_and, bit_or, bit_xor,
  is_positive, ne_of_unequal, negsuc, pos, take-take, to_ℕ, ℤ, equal_sym,
}
use constell.Prelude.Exec.{Result, ok, err, Exec, pure, ◌>>=◌, ◌>>◌, or_fail, attempt, reject_if}
use constell.Prelude.Text.{join, has_prefix}
use constell.Rpc.{
  Code, unauthenticated, invalid_argument, internal, not_found, failed_precondition,
  permission_denied,
}
use constell.Sql.{DbError, Store, statement, query, first_row, insert_if, update_where}

abbrev pub max_file_size : ℕ
max_file_size = 5 * 1024 * 1024

-- FileMeta
pub record FileMeta : Type 0 where
  pub id : String
  pub uploader_id : String
  pub filename : String
  pub content_type : String
  pub size : ℕ
  pub status : String
  pub bucket : String
  pub created_at : ℕ

-- The files, and what their foreign keys meet: the ids of users and the files that messages attach.
pub record FileTables : Type 0 where
  pub users : List String
  pub files : List FileMeta
  pub attached : List String

abbrev pub is_file : String → FileMeta → Bool
is_file id f = f.id == id

-- InsertFileMeta
unfoldable pub insert_file_meta_sql : FileMeta → FileTables → Result DbError (Unit {0} × FileTables)
insert_file_meta_sql f db =
    insert_if (not (any (is_file f.id) db.files) && contains f.uploader_id db.users) tt
      (record db { files = db.files ++ f ∷ [] })

unfoldable pub insert_file_meta : FileMeta → Exec (Store FileTables) DbError (Unit {0})
unfolding insert_file_meta_sql
insert_file_meta f = statement (λ now id. insert_file_meta_sql f)

-- GetFileMeta
unfoldable pub get_file_meta : String → Exec (Store FileTables) DbError FileMeta
get_file_meta id = query (λ (db : FileTables). first_row (find (is_file id) db.files))

-- UpdateFileStatus
unfoldable pub update_file_status_sql :
    String → String → FileTables → Result DbError (Unit {0} × FileTables)
update_file_status_sql id status db = ok (
  tt,
  record db { files = update_where (is_file id) (λ f. record f { status = status }) db.files },
)

unfoldable pub update_file_status : String → String → Exec (Store FileTables) DbError (Unit {0})
unfolding update_file_status_sql
update_file_status id status = statement (λ now new. update_file_status_sql id status)

-- DeleteFileMeta; a file that a message attaches is not deleted.
unfoldable pub delete_file_meta_sql : String → FileTables → Result DbError (Unit {0} × FileTables)
delete_file_meta_sql id db =
    insert_if (not (any (is_file id) db.files && contains id db.attached)) tt
      (record db { files = keep (λ f. not (is_file id f)) db.files })

unfoldable pub delete_file_meta : String → Exec (Store FileTables) DbError (Unit {0})
unfolding delete_file_meta_sql
delete_file_meta id = statement (λ now new. delete_file_meta_sql id)

-- The calls of MinIO's client, on one bucket: whether they succeed, or what they return.
pub record Minio (W : Type 0) : Type 0 where
  pub put_object : String → String → List ℕ → W → Bool × W
  pub remove_object : String → W → Bool × W
  pub presigned_get_object : String → ℕ → W → Option String × W
  pub new_multipart_upload : String → String → W → Option String × W
  pub put_object_part : String → String → ℕ → List ℕ → W → Option String × W
  pub complete_multipart_upload : String → String → List (ℕ × String) → W → Option ℕ × W

-- FileService, with the object storage and what the n-th reading of the clock gives, in seconds.
pub record FileService (W : Type 0) : Type 0 where
  pub store : Store FileTables
  pub storage : W
  pub bucket : String
  pub base_url : String
  pub clock : ℕ → ℕ
  pub readings : ℕ

-- isImage
unfoldable pub is_image : String → Bool
unfolding has_prefix
is_image content_type =
    has_prefix content_type "image/jpeg"
    || has_prefix content_type "image/png"
    || has_prefix content_type "image/gif"

abbrev pub original_key : String → String
original_key file_id = join "originals/" file_id

abbrev pub thumbnail_key : String → String
thumbnail_key file_id = join "thumbnails/" file_id

pub record UploadFileRequest : Type 0 where
  pub file_id : String
  pub filename : String
  pub content_type : String
  pub content : List ℕ

pub record FileInfo : Type 0 where
  pub id : String
  pub filename : String
  pub content_type : String
  pub size : ℕ
  pub url : String
  pub thumbnail_url : String
  pub created_at : ℕ

abbrev pub lacks_field : UploadFileRequest → Bool
lacks_field msg =
    msg.file_id == "" || msg.filename == "" || msg.content_type == "" || eqb (length msg.content) 0

-- A call of MinIO that may fail.
abbrev pub or_storage_error : {A : Type 0} → Option A → Result Code A
or_storage_error none = err internal
or_storage_error (some a) = ok a

module _ {W : Type 0} where
  abbrev pub on_files : {E A : Type 0} → Exec (Store FileTables) E A → Exec (FileService W) E A
  on_files m s = let (r, store) = m s.store in (r, record s { store = store })

  abbrev pub on_storage : {A : Type 0} → (W → Option A × W) → Exec (FileService W) Code A
  on_storage f s =
      let (r, storage) = f s.storage in (or_storage_error r, record s { storage = storage })

  abbrev pub succeeded : Bool × W → Option (Unit {0}) × W
  succeeded (true, w) = (some tt, w)
  succeeded (false, w) = (none, w)

  -- time.Now
  abbrev pub read_clock : {E : Type 0} → Exec (FileService W) E ℕ
  read_clock s = (ok (s.clock s.readings), record s { readings = suc s.readings })

  unfoldable pub object_url : String → FileService W → String
  unfolding join
  object_url key s = join s.base_url (join "/" (join s.bucket (join "/" key)))

  abbrev pub ready_meta : String → UploadFileRequest → ℕ → FileService W → FileMeta
  ready_meta caller_id msg now s = record {
    id = msg.file_id;
    uploader_id = caller_id;
    filename = msg.filename;
    content_type = msg.content_type;
    size = length msg.content;
    status = "ready";
    bucket = s.bucket;
    created_at = now;
  }

  abbrev pub uploaded_info : UploadFileRequest → ℕ → String → FileService W → FileInfo
  unfolding object_url join
  uploaded_info msg now thumbnail_url s = record {
    id = msg.file_id;
    filename = msg.filename;
    content_type = msg.content_type;
    size = length msg.content;
    url = object_url (original_key msg.file_id) s;
    thumbnail_url = thumbnail_url;
    created_at = now;
  }

  module _ (minio : Minio W) (generate_thumbnail : List ℕ → String → Option (List ℕ)) where
    abbrev pub put : String → String → List ℕ → Exec (FileService W) Code (Unit {0})
    put key content_type bytes =
        on_storage (λ w. succeeded (minio.put_object key content_type bytes w))

    abbrev pub remove : String → Exec (FileService W) Code (Unit {0})
    remove key = on_storage (λ w. succeeded (minio.remove_object key w))

    -- The thumbnail of an image and its address; a failed put is not looked at.
    abbrev pub put_thumbnail :
        UploadFileRequest → Option (List ℕ) → Exec (FileService W) Code String
    unfolding object_url join
    put_thumbnail msg none s = (ok "", s)
    put_thumbnail msg (some bytes) s = (
      ok (object_url (thumbnail_key msg.file_id) s),
      (put (thumbnail_key msg.file_id) msg.content_type bytes s).1,
    )

    unfoldable pub add_thumbnail : UploadFileRequest → Exec (FileService W) Code String
    unfolding is_image put_thumbnail
    add_thumbnail msg =
        if is_image msg.content_type
        then put_thumbnail msg (generate_thumbnail msg.content msg.content_type)
        else pure ""

    -- UploadFile
    unfoldable pub upload_file_handler :
        String → UploadFileRequest → Exec (FileService W) Code FileInfo
    unfolding insert_file_meta add_thumbnail uploaded_info join
    upload_file_handler caller_id msg = do
      reject_if (caller_id == "") unauthenticated
      reject_if (lacks_field msg) invalid_argument
      reject_if (ltb max_file_size (length msg.content)) invalid_argument
      now ← read_clock
      or_fail internal (λ s. on_files (insert_file_meta (ready_meta caller_id msg now s)) s)
      put (original_key msg.file_id) msg.content_type msg.content
      thumbnail_url ← add_thumbnail msg
      (λ s. (ok (uploaded_info msg now thumbnail_url s), s))

    -- GetFilePresignedURL: the URL and when it expires.
    unfoldable pub get_file_presigned_url_handler :
        String → String → Exec (FileService W) Code (String × ℕ)
    unfolding get_file_meta join
    get_file_presigned_url_handler caller_id file_id = do
      reject_if (caller_id == "") unauthenticated
      reject_if (file_id == "") invalid_argument
      meta ← or_fail not_found (on_files (get_file_meta file_id))
      reject_if (not (meta.status == "ready")) failed_precondition
      url ← on_storage (minio.presigned_get_object (original_key file_id) (15 * 60))
      now ← read_clock
      pure (url, now + 15 * 60)

    -- DeleteFile
    unfoldable pub delete_file_handler : String → String → Exec (FileService W) Code (Unit {0})
    unfolding get_file_meta delete_file_meta join
    delete_file_handler caller_id file_id = do
      reject_if (caller_id == "") unauthenticated
      reject_if (file_id == "") invalid_argument
      meta ← or_fail not_found (on_files (get_file_meta file_id))
      reject_if (not (meta.uploader_id == caller_id)) permission_denied
      _ ← attempt (remove (original_key file_id))
      _ ← attempt (remove (thumbnail_key file_id))
      or_fail internal (on_files (delete_file_meta file_id))
