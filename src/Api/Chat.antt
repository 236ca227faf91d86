-- ===== src/Api/Chat.antt =====
-- apps/api/chat.py. A chat session that the request does not name gets a fresh UUID, an argument.
pub mod History
use autonomous_iq.Prelude.{ℕ, Bool, ◌&&◌, List, [], ◌∷◌, ◌++◌, Option, none, some, ◌==◌, filter}
use autonomous_iq.Prelude.Text.{Text, codes}
use autonomous_iq.Errors.{Failure, integrity_error}
use autonomous_iq.Models.Content.{ChatMessage}
use autonomous_iq.Models.Database.{Database}
use autonomous_iq.Models.Session.{Session, Outcome, raised, opened}
use autonomous_iq.Planner.Provider.{Dict, LlmProvider}
use autonomous_iq.Planner.Tools.{Library}
use autonomous_iq.Planner.Turn.{Caller, TurnResult, run_chat_turn}
use autonomous_iq.Api.Deps.{CurrentUser, same_tenant}

pub record ChatRequest : Type 0 where
  pub session_id : Option ℕ
  pub message : Text
  pub dataset_id : Option ℕ
  pub tracker_id : Option ℕ

abbrev pub entry : (ℕ → Text) → Text → Option ℕ → Dict
entry text_of key none = []
entry text_of key (some id) = (key, text_of id) ∷ []

abbrev pub context_of : (ℕ → Text) → ChatRequest → Dict
context_of text_of body =
    entry text_of (codes "dataset_id") body.dataset_id
    ++ entry text_of (codes "tracker_id") body.tracker_id

abbrev pub session_of : ℕ → ChatRequest → ℕ
session_of fresh body = elim body.session_id [ none ↦ fresh | some id ↦ id ]

-- A caller without a tenant breaks the constraint of the first message.
unfoldable pub send_message :
    Library
    → LlmProvider
    → (ℕ → Text)
    → (ℕ → ℕ)
    → ℕ
    → ChatRequest
    → CurrentUser
    → Database
    → Outcome Failure TurnResult
unfolding run_chat_turn
send_message lib provider text_of new_id fresh body user db = elim user.tenant_id [
  | none ↦ raised integrity_error (opened db)
  | some tenant_id ↦
      run_chat_turn lib provider new_id
        (record {
          tenant_id = tenant_id;
          user_id = user.user_id;
          chat_session_id = session_of fresh body;
        })
        body.message (context_of text_of body) (opened db)
]

-- The messages of the session, those of the caller's tenant.
abbrev pub in_session : ℕ → Option ℕ → ChatMessage → Bool
in_session session_id tenant m = m.session_id == session_id && same_tenant m.tenant_id tenant

-- The times of the messages are left out: their order is the library's, which the program does not
-- fix for the messages of one transaction.
unfoldable pub get_history : Library → ℕ → CurrentUser → Database → List ChatMessage
get_history lib session_id user db =
    lib.by_created_at (filter (in_session session_id user.tenant_id) db.messages)
