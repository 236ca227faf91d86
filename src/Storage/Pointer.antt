-- ===== src/Storage/Pointer.antt =====
-- The pointers of libs/gcp/storage.py lead back to what was stored.
use autonomous_iq.Prelude.{
  ◌≡◌, refl, Bool, true, false, not, ◌&&◌, [], ◌∷◌, ◌++◌, some, ◌==◌, Bool-cases, inl, inr, arith,
}
use autonomous_iq.Prelude.Text.{Text, codes, is_prefix}
use autonomous_iq.Storage.{
  Bytes, Blobs, BlobLaws, object_key, join_path, local_fallback_dir, scheme, partition_slash,
  upload_bytes, download_bytes,
}

-- No name of a bucket has a slash.
abbrev pub no_slash : Text → Bool
no_slash [] = true
no_slash (c ∷ s) = not (c == b'/') && no_slash s

partition_slash-append :
    (before after : Text)
    → no_slash before ≡ true
    → partition_slash (before ++ (b'/' ∷ after)) ≡ (before, after)
unfolding partition_slash
partition_slash-append [] after h = refl
partition_slash-append (c ∷ before) after h =
    let again = partition_slash-append before after (ground arith) in
    let other : (c == b'/') ≡ false = ground arith in rw (again, other) refl

absolute : (path : Text) → is_prefix (codes "/") path ≡ true → is_prefix scheme path ≡ false
absolute [] h = refl
absolute (c ∷ path) h = ground arith

local_path : (key : Text) → is_prefix scheme (join_path local_fallback_dir key) ≡ false
local_path key = elim (Bool-cases (is_prefix (codes "/") key)) [
  | inl e ↦ rw e (absolute key e)
  | inr e ↦ rw e refl
]

-- A file that is uploaded, to a bucket or to the local disk, is what its pointer downloads.
pub download_bytes-upload_bytes :
    {S : Type 0} (blobs : Blobs S) (laws : BlobLaws S blobs) (bucket new_uuid : Text)
    (content : Bytes) (filename tenant_id : Text) (s : S)
    → no_slash bucket ≡ true
    → download_bytes blobs
        (upload_bytes blobs bucket new_uuid content filename tenant_id s).0
        (upload_bytes blobs bucket new_uuid content filename tenant_id s).1
      ≡ some content
unfolding upload_bytes download_bytes
download_bytes-upload_bytes blobs laws [] new_uuid content filename tenant_id s h =
    let path = join_path local_fallback_dir (object_key tenant_id new_uuid filename) in
    rw (local_path (object_key tenant_id new_uuid filename)) (laws.read-write path content s)
download_bytes-upload_bytes blobs laws (b ∷ bucket) new_uuid content filename tenant_id s h =
    let key = object_key tenant_id new_uuid filename in
    rw (partition_slash-append (b ∷ bucket) key h) (laws.get-put (b ∷ bucket) key content s)
