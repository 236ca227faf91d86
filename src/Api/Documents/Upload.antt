-- ===== src/Api/Documents/Upload.antt =====
-- What an upload of apps/api/documents.py leaves: the row, the file, the searches and the list.
use mathlib.Core.List.{Perm}
use mathlib.Core.List.Perm
use autonomous_iq.Prelude.{
  ℕ, ◌≡◌, refl, ap, subst, true, ◌&&◌, List, [], ◌∷◌, ◌++◌, map, Option, none, some, ◌==◌, filter,
  if◌then◌else◌, arith, Bool-cases, inl, inr,
}
use autonomous_iq.Prelude.Text.{Text, codes}
use autonomous_iq.Errors.{◌>>=◌, Response, ok, >>=-ok}
use autonomous_iq.Models.Content.{Document}
use autonomous_iq.Models.Database.{Database}
use autonomous_iq.Models.Schema.{not_null, insert_document, tenant_exists, user_exists}
use autonomous_iq.Storage.{Bytes, Blobs, BlobLaws, download_bytes}
use autonomous_iq.Storage.Pointer.{no_slash, download_bytes-upload_bytes}
use autonomous_iq.Planner.Rag.{search}
use autonomous_iq.Planner.Rag.Top.{IsTop}
use autonomous_iq.Api.Deps.{CurrentUser, same_tenant}
use autonomous_iq.Api.Documents.Search.{
  shares_word, shares_word-is_present, matching_hits, new_hits, search-append,
}
use autonomous_iq.Api.Documents.{
  DocumentResponse, UploadFile, name_or, document_response, tenant_text, new_document, stored,
  upload_document, list_documents,
}

abbrev pub document_added : Document → Database → Database
document_added d db = record db { documents = db.documents ++ d ∷ [] }

-- What the success of an upload shows.
pub record Uploaded {S : Type 0} (blobs : Blobs S) (decode : Bytes → Option Text)
    (file : UploadFile) (user : CurrentUser) (s' : S) (db db' : Database)
    (response : DocumentResponse) : Type 0 where
  pub document : Document
  pub only : db' ≡ document_added document db
  pub in_tenant : same_tenant document.tenant_id user.tenant_id ≡ true
  pub kept : download_bytes blobs document.storage_pointer s' ≡ some file.content
  pub searched :
      (iterated : List Text → List Text) (tenant_id : ℕ) (query : Text)
      → IsTop 3
          (matching_hits iterated tenant_id query db.documents
            ++ new_hits iterated tenant_id query document)
          (search iterated db'.documents tenant_id query)
  pub flagged :
      (query_words : List Text)
      → shares_word query_words document ≡ true
      → response.has_extracted_text ≡ true
  pub listed :
      (reader : CurrentUser)
      → Perm (list_documents reader db') (
          list_documents reader db
          ++ (if same_tenant document.tenant_id reader.tenant_id then response ∷ [] else []))

abbrev answered : Document → Database → Response (DocumentResponse × Database)
answered d db = ok (document_response d, db)

insert_document-ok :
    (d : Document) (db : Database) {db' : Database}
    → insert_document d db ≡ ok db'
    → db' ≡ document_added d db
unfolding insert_document
insert_document-ok d db h =
    elim (Bool-cases (
      tenant_exists db d.tenant_id
      && elim d.uploaded_by [ none ↦ true | some uploader ↦ user_exists db uploader ])) [
        | inl e ↦ let added = (rw e at h) in cc
        | inr e ↦ absurd (let clash = (rw e at h) in cc)
      ]

not_null-ok : (o : Option ℕ) {id : ℕ} → not_null o ≡ ok id → o ≡ some id
not_null-ok none h = cc
not_null-ok (some id) h = cc

list_lem :
    (reader : CurrentUser) (docs : List Document) (d : Document)
    → map document_response
        (filter (λ (x : Document). same_tenant x.tenant_id reader.tenant_id) (docs ++ d ∷ []))
      ≡ map document_response
          (filter (λ (x : Document). same_tenant x.tenant_id reader.tenant_id) docs)
        ++ (if same_tenant d.tenant_id reader.tenant_id then document_response d ∷ [] else [])
list_lem reader [] d = elim (Bool-cases (same_tenant d.tenant_id reader.tenant_id)) [
  | inl e ↦ rw e refl
  | inr e ↦ rw e refl
]
list_lem reader (x ∷ docs) d = elim (Bool-cases (same_tenant x.tenant_id reader.tenant_id)) [
  | inl e ↦ rw e (ap (λ r. document_response x ∷ r) (list_lem reader docs d))
  | inr e ↦ rw e (list_lem reader docs d)
]

same_number : (n : ℕ) → (n == n) ≡ true
same_number n = ground arith

module _ {S : Type 0} (blobs : Blobs S) (laws : BlobLaws S blobs) (decode : Bytes → Option Text)
    (text_of : ℕ → Text) where
  abbrev row : Text → Text → ℕ → UploadFile → CurrentUser → S → ℕ → Document
  row bucket new_uuid new_id file user s tenant_id =
      new_document blobs decode text_of new_id tenant_id user.user_id
        (stored blobs decode text_of bucket new_uuid file user s).0 file

  uploaded :
      (bucket new_uuid : Text) (new_id : ℕ) (file : UploadFile) (user : CurrentUser) (s : S)
      (db : Database) (tenant_id : ℕ)
      → no_slash bucket ≡ true
      → user.tenant_id ≡ some tenant_id
      → Uploaded blobs decode file user
          (stored blobs decode text_of bucket new_uuid file user s).1
          db
          (document_added (row bucket new_uuid new_id file user s tenant_id) db)
          (document_response (row bucket new_uuid new_id file user s tenant_id))
  unfolding list_documents
  uploaded bucket new_uuid new_id file user s db tenant_id clean e =
      let doc = row bucket new_uuid new_id file user s tenant_id in
      record {
        document = doc;
        only = refl;
        in_tenant = rw e (same_number tenant_id);
        kept =
            download_bytes-upload_bytes blobs laws bucket new_uuid file.content
              (name_or (codes "upload") file.filename) (tenant_text text_of user.tenant_id) s clean;
        searched = λ iterated tenant query. search-append iterated tenant query db.documents doc;
        flagged = λ query_words h. shares_word-is_present query_words doc h;
        listed = λ reader. rw (list_lem reader db.documents doc) Perm.rfl;
      }

  -- An upload that succeeds adds one document, of the caller's tenant, whose file is what its
  -- pointer downloads. A search returns the three best of the hits that it had before and, if it is
  -- of the tenant and the text of the document has a word of the query, the document; and then the
  -- answer says that the document has a text. The list of a member of the tenant gains the document,
  -- in some place, and no other list does.
  pub upload_document_effect :
      (bucket new_uuid : Text) (new_id : ℕ) (file : UploadFile) (user : CurrentUser) (s : S)
      (db db' : Database) (response : DocumentResponse)
      → no_slash bucket ≡ true
      → (upload_document blobs decode text_of bucket new_uuid new_id file user s db).1
        ≡ ok (response, db')
      → Uploaded blobs decode file user
          (upload_document blobs decode text_of bucket new_uuid new_id file user s db).0
          db
          db'
          response
  unfolding upload_document list_documents
  upload_document_effect bucket new_uuid new_id file user s db db' response clean h =
      let row_of : ℕ → Document = row bucket new_uuid new_id file user s in
      let (tenant_id, known, inserted) =
        >>=-ok (not_null user.tenant_id)
          (λ tenant. insert_document (row_of tenant) db >>= answered (row_of tenant)) h in
      let doc = row_of tenant_id in
      let (d, got, rest) = >>=-ok (insert_document doc db) (answered doc) inserted in
      let added = insert_document-ok doc db got in
      let is_response : document_response doc ≡ response = cc in
      let is_db : document_added doc db ≡ db' = cc in
      let leaves = (stored blobs decode text_of bucket new_uuid file user s).1 in
      subst (λ r. Uploaded blobs decode file user leaves db db' r) is_response
        (subst (λ x. Uploaded blobs decode file user leaves db x (document_response doc)) is_db
          (uploaded bucket new_uuid new_id file user s db tenant_id clean
            (not_null-ok user.tenant_id known)))
