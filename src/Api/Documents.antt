-- ===== src/Api/Documents.antt =====
-- apps/api/documents.py. The decoding of UTF-8 and the text of an id are arguments, and so is the
-- storage of the file; a file that is stored stays there when the request fails. The name of a file
-- is lowered as ASCII.
pub mod Search
pub mod Upload
use autonomous_iq.Prelude.{
  ℕ, Bool, true, false, ◌||◌, List, [], ◌∷◌, map, Option, none, some, ◌==◌, if◌then◌else◌, filter,
}
use autonomous_iq.Prelude.Text.{Text, codes, text_eq, to_lower}
use autonomous_iq.Errors.{Response, ok, ◌>>=◌}
use autonomous_iq.Models.Content.{Document}
use autonomous_iq.Models.Database.{Database}
use autonomous_iq.Models.Schema.{insert_document, not_null}
use autonomous_iq.Storage.{Bytes, Blobs, upload_bytes}
use autonomous_iq.Api.Deps.{CurrentUser, same_tenant}

pub record DocumentResponse : Type 0 where
  pub id : ℕ
  pub name : Text
  pub format : Text
  pub has_extracted_text : Bool

-- UploadFile, whose name may be absent.
pub record UploadFile : Type 0 where
  pub filename : Option Text
  pub content : Bytes

-- `file.filename or default`
abbrev pub name_or : Text → Option Text → Text
name_or default none = default
name_or default (some []) = default
name_or default (some (c ∷ s)) = c ∷ s

-- What follows the last dot, if there is one: rsplit(".", 1)[-1].
abbrev pub after_dot : Text → Option Text
after_dot [] = none
after_dot (c ∷ s) = elim (after_dot s) [
  | some rest ↦ some rest
  | none ↦ if c == b'.' then some s else none
]

abbrev pub format_of : Text → Text
format_of filename = elim (after_dot filename) [
  | none ↦ codes "unknown"
  | some extension ↦ map to_lower extension
]

abbrev pub is_plain : Text → Bool
is_plain format =
    text_eq format (codes "txt")
    || text_eq format (codes "md")
    || text_eq format (codes "csv")
    || text_eq format (codes "json")

abbrev pub is_present : Option Text → Bool
is_present none = false
is_present (some t) = true

abbrev pub document_response : Document → DocumentResponse
document_response d = record {
  id = d.id;
  name = d.name;
  format = d.format;
  has_extracted_text = is_present d.content_text;
}

-- str(current_user.tenant_id)
abbrev pub tenant_text : (ℕ → Text) → Option ℕ → Text
tenant_text text_of none = codes "None"
tenant_text text_of (some tenant) = text_of tenant

module _ {S : Type 0} (blobs : Blobs S) (decode : Bytes → Option Text) (text_of : ℕ → Text) where
  abbrev pub content_text : Text → Bytes → Option Text
  content_text format content = if is_plain format then decode content else none

  abbrev pub new_document : ℕ → ℕ → ℕ → Text → UploadFile → Document
  new_document new_id tenant_id user_id storage_pointer file =
      let format = format_of (name_or [] file.filename) in
      record {
        id = new_id;
        tenant_id = tenant_id;
        uploaded_by = some user_id;
        storage_pointer = storage_pointer;
        format = format;
        name = name_or (codes "untitled") file.filename;
        content_text = content_text format file.content;
      }

  abbrev pub stored : Text → Text → UploadFile → CurrentUser → S → Text × S
  stored bucket new_uuid file user s =
      upload_bytes blobs bucket new_uuid file.content (name_or (codes "upload") file.filename)
        (tenant_text text_of user.tenant_id) s

  unfoldable pub upload_document :
      Text
      → Text
      → ℕ
      → UploadFile
      → CurrentUser
      → S
      → Database
      → S × Response (DocumentResponse × Database)
  unfolding insert_document upload_bytes
  upload_document bucket new_uuid new_id file user s db =
      let (storage_pointer, s') = stored bucket new_uuid file user s in
      (
        s',
        not_null user.tenant_id >>= λ tenant_id.
            let doc = new_document new_id tenant_id user.user_id storage_pointer file in
            insert_document doc db >>= λ db'. ok (document_response doc, db'),
      )

unfoldable pub list_documents : CurrentUser → Database → List DocumentResponse
list_documents user db =
    map document_response
      (filter (λ (d : Document). same_tenant d.tenant_id user.tenant_id) db.documents)
