-- ===== src/File/Multipart.antt =====
-- multipart.go of backend/services/file-service: files that come in parts.
use constell.Prelude.{ℕ, String, ◌||◌, List, eqb, ◌==◌, nat_eq, string_eq, length}
use constell.Prelude.Exec.{ok, Exec, pure, ◌>>=◌, ◌>>◌, or_fail, reject_if}
use constell.Prelude.Text.{join}
use constell.Rpc.{Code, unauthenticated, invalid_argument, internal}
use constell.File.{
  FileInfo, FileMeta, FileService, Minio, get_file_meta, insert_file_meta, object_url, on_files,
  on_storage, original_key, read_clock, update_file_status,
}

module _ {W : Type 0} (minio : Minio W) where
  abbrev pub uploading_meta : String → String → String → String → ℕ → FileService W → FileMeta
  uploading_meta caller_id file_id filename content_type now s = record {
    id = file_id;
    uploader_id = caller_id;
    filename = filename;
    content_type = content_type;
    size = 0;
    status = "uploading";
    bucket = s.bucket;
    created_at = now;
  }

  -- InitMultipartUpload
  unfoldable pub init_multipart_upload_handler :
      String → String → String → String → Exec (FileService W) Code String
  unfolding insert_file_meta join
  init_multipart_upload_handler caller_id file_id filename content_type = do
    reject_if (caller_id == "") unauthenticated
    reject_if (file_id == "" || filename == "" || content_type == "") invalid_argument
    upload_id ← on_storage (minio.new_multipart_upload (original_key file_id) content_type)
    now ← read_clock
    or_fail internal (λ s.
        on_files (insert_file_meta (uploading_meta caller_id file_id filename content_type now s))
          s)
    pure upload_id

  -- UploadPart: the tag of the part.
  unfoldable pub upload_part_handler :
      String → String → String → ℕ → List ℕ → Exec (FileService W) Code String
  unfolding join
  upload_part_handler caller_id file_id upload_id part_number bytes = do
    reject_if (caller_id == "") unauthenticated
    reject_if (file_id == "" || upload_id == "" || eqb (length bytes) 0) invalid_argument
    on_storage (minio.put_object_part (original_key file_id) upload_id part_number bytes)

  abbrev pub completed_info : FileMeta → String → ℕ → FileService W → FileInfo
  unfolding object_url join
  completed_info meta file_id size s = record {
    id = meta.id;
    filename = meta.filename;
    content_type = meta.content_type;
    size = size;
    url = object_url (original_key file_id) s;
    thumbnail_url = "";
    created_at = meta.created_at;
  }

  -- CompleteMultipartUpload, of parts by their numbers and tags
  unfoldable pub complete_multipart_upload_handler :
      String → String → String → List (ℕ × String) → Exec (FileService W) Code FileInfo
  unfolding update_file_status get_file_meta completed_info join
  complete_multipart_upload_handler caller_id file_id upload_id parts = do
    reject_if (caller_id == "") unauthenticated
    reject_if (file_id == "" || upload_id == "" || eqb (length parts) 0) invalid_argument
    size ← on_storage (minio.complete_multipart_upload (original_key file_id) upload_id parts)
    or_fail internal (on_files (update_file_status file_id "ready"))
    meta ← or_fail internal (on_files (get_file_meta file_id))
    (λ s. (ok (completed_info meta file_id size s), s))
