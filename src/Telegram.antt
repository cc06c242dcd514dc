-- ===== src/Telegram.antt =====
-- Approvals by chat: crates/runlane-core/src/telegram.rs.
pub mod Commands
pub mod Authority
mod Tests
use runlane.Prelude.{
  ℕ, String, Bool, true, false, not, ◌&&◌, Option, none, some, List, [], ◌∷◌, map, find, length,
  nat_eq, ◌==◌, Result, ok, err, ok_or, if◌then◌else◌,
}
use runlane.Prelude.Action.{Action, ◌>>=◌, ◌>>◌, pure, lift, gets, rethrow}
use runlane.Text.{split_whitespace}
use runlane.Domain.{ActionKind, VerificationPlan}
use runlane.Approval.{
  ApprovalRecord, ApprovalError, ApprovalStore, list_pending, show, approve, reject,
  record_adapter_rejection,
}

-- the `i64` of the chat ids, which are only compared; `negsuc n` is `-(n + 1)`
pub data ℤ : Type 0 where
  pos negsuc : ℕ → ℤ

abbrev pub int_eq : ℤ → ℤ → Bool
int_eq (pos a) (pos b) = nat_eq a b
int_eq (negsuc a) (negsuc b) = nat_eq a b
int_eq _ _ = false

pub record TelegramIdentity : Type 0 where
  pub chat_id : ℤ
  pub user_id : ℤ
  pub username : Option String

pub record TelegramAuthorizedActor : Type 0 where
  pub chat_id : ℤ
  pub user_id : ℤ
  pub actor : String

pub record TelegramIdentityMap : Type 0 where
  pub actors : List TelegramAuthorizedActor

pub data TelegramApprovalError : Type 0 where
  unauthorized_identity : ℤ → ℤ → TelegramApprovalError
  unsupported_command : String → TelegramApprovalError
  unknown_approval : String → TelegramApprovalError
  approval : ApprovalError → TelegramApprovalError

abbrev pub is_actor_for : TelegramIdentity → TelegramAuthorizedActor → Bool
is_actor_for identity a = int_eq a.chat_id identity.chat_id && int_eq a.user_id identity.user_id

abbrev actor_of :
    TelegramIdentity → Option TelegramAuthorizedActor → Result TelegramApprovalError String
actor_of identity none = err (unauthorized_identity identity.chat_id identity.user_id)
actor_of identity (some a) = ok a.actor

unfoldable pub actor_for :
    TelegramIdentityMap → TelegramIdentity → Result TelegramApprovalError String
actor_for identity_map identity =
    actor_of identity (find (is_actor_for identity) identity_map.actors)

pub data TelegramApprovalCommand : Type 0 where
  list_command : TelegramApprovalCommand
  -- approval id
  show_command approve_command reject_command : String → TelegramApprovalCommand

-- the patterns of `parse`, by the number of words
unfoldable pub parse_parts : List String → Result TelegramApprovalError TelegramApprovalCommand
parse_parts [] = err (unsupported_command "")
parse_parts (a ∷ []) = if a == "/approvals" then ok list_command else err (unsupported_command a)
parse_parts (a ∷ b ∷ []) =
    if a == "/approval" && b == "list"
    then ok list_command
    else if a == "/show"
    then ok (show_command b)
    else if a == "/approve"
    then ok (approve_command b)
    else if a == "/reject"
    then ok (reject_command b)
    else err (unsupported_command a)
parse_parts (a ∷ b ∷ c ∷ []) =
    if a == "/approval" && b == "show"
    then ok (show_command c)
    else if a == "/approval" && b == "approve"
    then ok (approve_command c)
    else if a == "/approval" && b == "reject"
    then ok (reject_command c)
    else err (unsupported_command a)
parse_parts (a ∷ _ ∷ _ ∷ _ ∷ _) = err (unsupported_command a)

unfoldable pub parse : String → Result TelegramApprovalError TelegramApprovalCommand
parse message = parse_parts (split_whitespace message)

pub record TelegramApprovalContext : Type 0 where
  pub now_unix_seconds : ℕ
  pub allowlist_entry_id : String
  pub lease_nonce : String

pub record TelegramApprovalSummary : Type 0 where
  pub id : String
  pub action_id : String
  pub target_resource_id : String
  pub expires_at_unix_seconds : ℕ

-- `TelegramApprovalSummary::from_record`
abbrev pub summary_of : ApprovalRecord → TelegramApprovalSummary
summary_of r = record {
  id = r.id;
  action_id = r.action_id;
  target_resource_id = r.target.resource_id;
  expires_at_unix_seconds = r.expires_at_unix_seconds;
}

pub record TelegramApprovalDetail : Type 0 where
  pub summary : TelegramApprovalSummary
  pub required_checks : ℕ
  pub skipped_checks : ℕ
  pub verification : VerificationPlan

-- `TelegramApprovalDetail::from_record`
abbrev pub detail_of : ApprovalRecord → TelegramApprovalDetail
detail_of r = record {
  summary = summary_of r;
  required_checks = length r.verification.required;
  skipped_checks = length r.verification.skipped;
  verification = r.verification;
}

pub data TelegramApprovalResponse : Type 0 where
  pending_approvals : List TelegramApprovalSummary → TelegramApprovalResponse
  approval_detail : TelegramApprovalDetail → TelegramApprovalResponse
  -- approval id, lease id, action, actor
  approved : String → String → ActionKind → String → TelegramApprovalResponse
  -- approval id, actor
  rejected : String → String → TelegramApprovalResponse

-- the arms of `handle_command`, for an actor that is known
unfoldable pub perform :
    String
    → TelegramApprovalCommand
    → TelegramApprovalContext
    → Action ApprovalStore TelegramApprovalError TelegramApprovalResponse
perform actor list_command context =
    gets (λ store. pending_approvals (map summary_of (list_pending store)))
perform actor (show_command id) context = do
  found ← gets (λ store. show store id)
  r ← lift (ok_or found (unknown_approval id))
  pure (approval_detail (detail_of r))
perform actor (approve_command id) context = do
  found ← gets (λ store. show store id)
  r ← lift (ok_or found (unknown_approval id))
  claims ← rethrow approval (
      approve id r.action_id actor context.now_unix_seconds context.allowlist_entry_id
        context.lease_nonce)
  pure (approved id claims.lease_id claims.action actor)
perform actor (reject_command id) context = do
  rethrow approval (reject id actor context.now_unix_seconds)
  pure (rejected id actor)

-- a request from an identity that is not in the map, audited
unfoldable pub deny :
    TelegramApprovalError → Action ApprovalStore TelegramApprovalError TelegramApprovalResponse
deny e = do
  rethrow approval (record_adapter_rejection "telegram" "unauthorized_identity")
  lift (err e)

abbrev pub handle_actor :
    Result TelegramApprovalError String
    → TelegramApprovalCommand
    → TelegramApprovalContext
    → Action ApprovalStore TelegramApprovalError TelegramApprovalResponse
handle_actor (ok actor) command context = perform actor command context
handle_actor (err e) command context = deny e

-- `TelegramApprovalAdapter::handle_command`; the adapter is its identity map
unfoldable pub handle_command :
    TelegramIdentityMap
    → TelegramIdentity
    → TelegramApprovalCommand
    → TelegramApprovalContext
    → Action ApprovalStore TelegramApprovalError TelegramApprovalResponse
handle_command identity_map identity = handle_actor (actor_for identity_map identity)
