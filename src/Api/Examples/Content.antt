-- ===== src/Api/Examples/Content.antt =====
-- The theorems about documents and the chat on the small tenant, with a storage that is a function
-- of the bucket and the key; the local disk is the bucket without a name.
use mathlib.Core.List.{Perm}
use mathlib.Core.List.Perm
use autonomous_iq.Prelude.{
  String, ℕ, ◌≡◌, refl, str_eq, ◌+◌, true, false, ◌&&◌, [], ◌∷◌, ◌++◌, Option, none, some,
  if◌then◌else◌,
}
use autonomous_iq.Prelude.Text.{Text, codes, text_eq, text_eq_iff}
use autonomous_iq.Errors.{Failure, Response, ok, err}
use autonomous_iq.Models.Content.{user, assistant}
use autonomous_iq.Models.Database.{Database}
use autonomous_iq.Models.Session.{Outcome, done, left}
use autonomous_iq.Storage.{Bytes, Blobs, BlobLaws}
use autonomous_iq.Planner.Provider.Naive.{complete}
use autonomous_iq.Planner.Turn.{TurnResult, chat_message, some_names, names_of, run_chat_turn}
use autonomous_iq.Planner.Examples.{lib, ids, asks, value_of}
use autonomous_iq.Api.Auth.{login}
use autonomous_iq.Api.Startup.{on_startup, on_startup-login}
use autonomous_iq.Api.Deps.{platform_claims}
use autonomous_iq.Api.Documents.{DocumentResponse, UploadFile, upload_document}
use autonomous_iq.Api.Documents.Upload.{Uploaded, upload_document_effect}
use autonomous_iq.Api.Chat.{ChatRequest, send_message, get_history}
use autonomous_iq.Api.Chat.History.{member, turn_of, send_message-get_history}
use autonomous_iq.Api.Examples.{acme, caller}

abbrev Disk : Type 0
Disk = Text → Text → Option Bytes

abbrev put : Text → Text → Bytes → Disk → Disk
put bucket key content s b k = if text_eq bucket b && text_eq key k then some content else s b k

abbrev disk : Blobs Disk
disk = record {
  put_object = put;
  get_object = λ bucket key s. s bucket key;
  write_file = put [];
  read_file = λ path s. s [] path;
}

text_eq_self : (t : Text) → text_eq t t ≡ true
text_eq_self t = (text_eq_iff t t).1 refl

disk_laws : BlobLaws Disk disk
disk_laws = record {
  get-put = λ bucket key content s. rw (text_eq_self bucket, text_eq_self key) refl;
  read-write = λ path content s. rw (text_eq_self path) refl;
}

abbrev blank : Disk
blank bucket key = none

abbrev notes : Bytes
notes = codes "Leave policy"

abbrev upload : UploadFile
upload = record { filename = some (codes "leave.TXT"); content = notes }

abbrev digits : ℕ → Text
digits n = (48 + n) ∷ []

abbrev uploading : Disk × Response (DocumentResponse × Database)
uploading =
    upload_document disk (λ bytes. some bytes) digits (codes "files") (codes "u1") 5 upload
      (caller 2) blank acme

abbrev answer_of : Response (DocumentResponse × Database) → DocumentResponse × Database
answer_of (ok answer) = answer
answer_of (err e) = (record { id = 0; name = []; format = []; has_extracted_text = false }, acme)

uploading_is : uploading.1 ≡ ok (answer_of uploading.1)
unfolding upload_document
uploading_is = refl

-- The format is lowered, and the text is extracted.
extracted : (answer_of uploading.1).0.has_extracted_text ≡ true
unfolding upload_document
extracted = refl

upload_document_effect_example :
    Uploaded disk
      (λ bytes. some bytes)
      upload
      (caller 2)
      uploading.0
      acme
      (answer_of uploading.1).1
      (answer_of uploading.1).0
upload_document_effect_example =
    upload_document_effect disk disk_laws (λ bytes. some bytes) digits (codes "files") (codes "u1")
      5 upload (caller 2) blank acme (answer_of uploading.1).1 (answer_of uploading.1).0 refl
      uploading_is

abbrev question : ChatRequest
question = record { session_id = some 7; message = asks; dataset_id = some 1; tracker_id = none }

abbrev sending : Outcome Failure TurnResult
sending = send_message lib complete digits ids 8 question (member 2 1 false) acme

sending_is : sending ≡ done (value_of sending) (left sending)
unfolding send_message run_chat_turn complete
sending_is = refl

send_message-get_history_example :
    Perm (get_history lib 7 (member 1 1 false) (left sending).committed) (
      get_history lib 7 (member 1 1 false) acme
      ++ (chat_message 100 (turn_of 2 1 8 question) user asks none
          ∷ chat_message 101
              (turn_of 2 1 8 question)
              assistant
              (value_of sending).text
              (some_names (names_of (value_of sending).tool_results))
          ∷ []))
send_message-get_history_example =
    send_message-get_history lib complete digits ids 8 question 1 2 1 false false acme
      (value_of sending) (left sending) (λ ms. Perm.rfl) sending_is

-- The validation accepts one address here.
abbrev accepts : String → Option String
accepts email = if str_eq email "root@acme.com" then some email else none

-- A hash is the password itself here.
on_startup-login_example :
    login accepts str_eq 5 "root@acme.com" "secret"
      (on_startup (λ email. email) (λ password. password) 40 "root@acme.com" "secret" acme)
    ≡ ok (platform_claims 5 40)
on_startup-login_example =
    on_startup-login (λ email. email) (λ password. password) accepts str_eq 40 5 "root@acme.com"
      "secret" acme refl refl refl refl refl
