-- ===== src/Examples/File.antt =====
-- A storage of objects by their keys, and an uploader.
use constell.Prelude.{
  ℕ, ◌≡◌, refl, String, true, false, not, Option, none, some, List, [], ◌∷◌, ◌==◌, nat_eq,
  string_eq, length, keep,
}
use constell.Prelude.Exec.{ok, err}
use constell.Rpc.{internal, permission_denied}
use constell.Sql.{query, statement}
use constell.File.{
  FileMeta, FileService, Minio, UploadFileRequest, delete_file_handler, upload_file_handler,
}
use constell.File.Owning.{Deletes, delete_file_handler-Deletes}

abbrev Objects : Type 0
Objects = List (String × List ℕ)

abbrev without_object : String → Objects → Objects
without_object key = keep (λ (o : String × List ℕ). not (o.0 == key))

abbrev in_memory : Minio Objects
in_memory = record {
  put_object = λ key type bytes w. (true, (key, bytes) ∷ without_object key w);
  remove_object = λ key w. (true, without_object key w);
  presigned_get_object = λ key seconds w. (some key, w);
  new_multipart_upload = λ key type w. (some "upload", w);
  put_object_part = λ key upload_id n bytes w. (some "tag", w);
  complete_multipart_upload = λ key upload_id parts w. (some (length parts), w);
}

abbrev no_thumbnail : List ℕ → String → Option (List ℕ)
no_thumbnail bytes type = none

abbrev file : FileMeta
file = record {
  id = "f";
  uploader_id = "u";
  filename = "a.txt";
  content_type = "text/plain";
  size = 2;
  status = "ready";
  bucket = "constell";
  created_at = 5;
}

abbrev service : FileService Objects
service = record {
  store = record {
    server = record { fails = λ n. false; uuid = λ n. "x"; now = λ n. 0 };
    statements = 0;
    db = record { users = "u" ∷ "v" ∷ []; files = file ∷ []; attached = [] };
  };
  storage = ("originals/f", 1 ∷ 2 ∷ []) ∷ [];
  bucket = "constell";
  base_url = "http://files";
  clock = λ n. 100;
  readings = 0;
}

abbrev upload : UploadFileRequest
upload = record { file_id = "g"; filename = "b.txt"; content_type = "text/plain"; content = 3 ∷ [] }

delete_file_handler-Deletes_example :
    Deletes "u" "f" service (delete_file_handler in_memory no_thumbnail "u" "f" service)
delete_file_handler-Deletes_example =
    delete_file_handler-Deletes in_memory no_thumbnail "u" "f" service

deletes_own : (delete_file_handler in_memory no_thumbnail "u" "f" service).0 ≡ ok tt
unfolding delete_file_handler query statement
deletes_own = refl

refuses_others :
    (delete_file_handler in_memory no_thumbnail "v" "f" service).0 ≡ err permission_denied
unfolding delete_file_handler query statement
refuses_others = refl

-- Where the put fails, the row of the file stays, ready.
abbrev out_of_space : Minio Objects
out_of_space = record in_memory { put_object = λ key type bytes w. (false, w) }

row_without_file :
    let out = upload_file_handler out_of_space no_thumbnail "v" upload service in
    (out.0 ≡ err internal) × (length out.1.store.db.files ≡ 2)
unfolding upload_file_handler statement
row_without_file = (refl, refl)
