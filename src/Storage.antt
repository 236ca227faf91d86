-- ===== src/Storage.antt =====
-- libs/gcp/storage.py: the storage of uploaded files. The buckets of Cloud Storage and the local
-- disk, directories included, are parameters: what they hold is of the type `S`. A file is the list
-- of its bytes; the UUID in the key of an object is an argument.
pub mod Pointer
use autonomous_iq.Prelude.{
  ℕ, suc, ◌≡◌, Bool, true, List, [], ◌∷◌, ◌++◌, Option, some, ◌==◌, if◌then◌else◌,
}
use autonomous_iq.Prelude.Text.{Text, codes, is_prefix}

abbrev pub Bytes : Type 0
Bytes = List ℕ

pub record Blobs (S : Type 0) : Type 0 where
  pub put_object : Text → Text → Bytes → S → S
  pub get_object : Text → Text → S → Option Bytes
  pub write_file : Text → Bytes → S → S
  pub read_file : Text → S → Option Bytes

-- What was written last is read.
pub record BlobLaws (S : Type 0) (blobs : Blobs S) : Type 0 where
  pub get-put :
      (bucket key : Text) (content : Bytes) (s : S)
      → blobs.get_object bucket key (blobs.put_object bucket key content s) ≡ some content
  pub read-write :
      (path : Text) (content : Bytes) (s : S)
      → blobs.read_file path (blobs.write_file path content s) ≡ some content

abbrev pub local_fallback_dir : Text
local_fallback_dir = codes "/tmp/autonomousiq-documents"

-- f"{tenant_id}/{uuid.uuid4()}-{filename}"
abbrev pub object_key : Text → Text → Text → Text
object_key tenant_id new_uuid filename =
    tenant_id ++ (codes "/" ++ (new_uuid ++ (codes "-" ++ filename)))

-- os.path.join of a directory and a path, which stands alone if it is absolute.
abbrev pub join_path : Text → Text → Text
join_path dir path = if is_prefix (codes "/") path then path else dir ++ (codes "/" ++ path)

abbrev pub scheme : Text
scheme = codes "gs://"

-- text.partition("/"), without the separator.
unfoldable pub partition_slash : Text → Text × Text
partition_slash [] = ([], [])
partition_slash (c ∷ s) =
    let (before, after) = partition_slash s in if c == b'/' then ([], s) else (c ∷ before, after)

-- What follows the five characters of the scheme.
abbrev pub after_scheme : Text → Text
after_scheme (a ∷ b ∷ c ∷ d ∷ e ∷ rest) = rest
after_scheme _ = []

module _ {S : Type 0} (blobs : Blobs S) where
  -- With the variable GCS_BUCKET, which may be empty.
  unfoldable pub upload_bytes : Text → Text → Bytes → Text → Text → S → Text × S
  upload_bytes [] new_uuid content filename tenant_id s =
      let path = join_path local_fallback_dir (object_key tenant_id new_uuid filename) in
      (path, blobs.write_file path content s)
  upload_bytes (b ∷ bucket) new_uuid content filename tenant_id s =
      let key = object_key tenant_id new_uuid filename in
      (scheme ++ ((b ∷ bucket) ++ (codes "/" ++ key)), blobs.put_object (b ∷ bucket) key content s)

  unfoldable pub download_bytes : Text → S → Option Bytes
  unfolding partition_slash
  download_bytes storage_pointer s =
      if is_prefix scheme storage_pointer
      then (let (bucket, key) = partition_slash (after_scheme storage_pointer) in
          blobs.get_object bucket key s)
      else blobs.read_file storage_pointer s
