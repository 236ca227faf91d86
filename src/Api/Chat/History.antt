-- ===== src/Api/Chat/History.antt =====
-- The history of apps/api/chat.py after a message.
use mathlib.Core.List.{Perm}
use mathlib.Core.List.Perm
use autonomous_iq.Prelude.{
  ℕ, ◌≡◌, refl, ap, Bool, true, ◌&&◌, List, [], ◌∷◌, ◌++◌, none, some, ◌==◌, filter, arith,
  Bool-cases, inl, inr, subst, sym,
}
use autonomous_iq.Prelude.Text.{Text}
use autonomous_iq.Models.Content.{ChatMessage, user, assistant}
use autonomous_iq.Models.Database.{Database}
use autonomous_iq.Models.Session.{Session, done}
use autonomous_iq.Planner.Provider.{LlmProvider}
use autonomous_iq.Planner.Tools.{Library}
use autonomous_iq.Planner.Turn.{Caller, TurnResult, chat_message, some_names, names_of}
use autonomous_iq.Planner.Turn.Transcript.{run_chat_turn-transcript}
use autonomous_iq.Api.Deps.{CurrentUser}
use autonomous_iq.Api.Chat.{
  ChatRequest, context_of, session_of, send_message, in_session, get_history,
}

filter-append :
    (p : ChatMessage → Bool) (xs : List ChatMessage) (a b : ChatMessage)
    → p a ≡ true
    → p b ≡ true
    → filter p (xs ++ (a ∷ b ∷ [])) ≡ filter p xs ++ (a ∷ b ∷ [])
filter-append p [] a b h k = rw (h, k) refl
filter-append p (x ∷ xs) a b h k = elim (Bool-cases (p x)) [
  | inl e ↦ rw e (ap (λ r. x ∷ r) (filter-append p xs a b h k))
  | inr e ↦ rw e (filter-append p xs a b h k)
]

abbrev pub member : ℕ → ℕ → Bool → CurrentUser
member user_id tenant_id is_platform_admin = record {
  user_id = user_id;
  tenant_id = some tenant_id;
  is_platform_admin = is_platform_admin;
}

abbrev pub turn_of : ℕ → ℕ → ℕ → ChatRequest → Caller
turn_of user_id tenant_id fresh body = record {
  tenant_id = tenant_id;
  user_id = user_id;
  chat_session_id = session_of fresh body;
}

same_number : (n : ℕ) → (n == n) ≡ true
same_number n = ground arith

-- If the order by time only rearranges the messages, then after a message that is answered the
-- history of its chat session that any member of the tenant gets is, up to that order, what it held
-- before together with the message and its answer.
pub send_message-get_history :
    (lib : Library) (provider : LlmProvider) (text_of : ℕ → Text) (new_id : ℕ → ℕ) (fresh : ℕ)
    (body : ChatRequest) (tenant_id user_id reader_id : ℕ) (by_admin for_admin : Bool)
    (db : Database) (result : TurnResult) (t : Session)
    → ((ms : List ChatMessage) → Perm (lib.by_created_at ms) ms)
    → send_message lib provider text_of new_id fresh body (member user_id tenant_id by_admin) db
      ≡ done result t
    → Perm
        (get_history lib (session_of fresh body) (member reader_id tenant_id for_admin) t.committed)
        (get_history lib (session_of fresh body) (member reader_id tenant_id for_admin) db
          ++ (chat_message (new_id 0) (turn_of user_id tenant_id fresh body) user body.message none
              ∷ chat_message
                  (new_id 1)
                  (turn_of user_id tenant_id fresh body)
                  assistant
                  result.text
                  (some_names (names_of result.tool_results))
              ∷ []))
unfolding send_message get_history
send_message-get_history lib provider text_of new_id fresh body tenant_id user_id reader_id by_admin
      for_admin db result t ordered h =
    let caller = turn_of user_id tenant_id fresh body in
    let sent = chat_message (new_id 0) caller user body.message none in
    let reply =
      chat_message (new_id 1) caller assistant result.text
        (some_names (names_of result.tool_results)) in
    let shown = in_session (session_of fresh body) (some tenant_id) in
    let transcript =
      run_chat_turn-transcript lib caller db provider new_id body.message (context_of text_of body)
        result t h in
    let mine : (session_of fresh body == session_of fresh body) && (tenant_id == tenant_id) ≡ true =
      rw (same_number (session_of fresh body), same_number tenant_id) refl in
    let grown : filter shown t.committed.messages
        ≡ filter shown db.messages ++ (sent ∷ reply ∷ []) =
      rw (transcript.0) (filter-append shown db.messages sent reply mine mine) in
    Perm.trans (ordered (filter shown t.committed.messages)) (
      subst (λ ms. Perm ms (lib.by_created_at (filter shown db.messages) ++ (sent ∷ reply ∷ [])))
        (sym grown)
        (Perm.append_right (sent ∷ reply ∷ []) (Perm.symm (ordered (filter shown db.messages)))))
