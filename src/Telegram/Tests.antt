-- ===== src/Telegram/Tests.antt =====
-- The chat adapter at the demo's approval.
use Prim.Native.Char.{Char}
use Prim.Native.String.{char_at}
use runlane.Prelude.{◌≡◌, refl, none, [], ◌∷◌}
use runlane.Text.{format}
use runlane.Domain.{service_restart}
use runlane.Approval.{ApprovalStore, approve, ensure_pending_not_stale, append_event, show}
use runlane.Audit.{append, next_sequence}
use runlane.Approval.Lifecycle.{after_all}
use runlane.Approval.Samples.{restart_store}
use runlane.Telegram.{
  pos, negsuc, TelegramIdentity, TelegramIdentityMap, approve_command, reject_command,
  TelegramApprovalContext, actor_for, perform, handle_command,
}
use runlane.Telegram.Authority.{
  IsAuthorized, Approves, calls_of, handle_command-Calls, handle_command-approved,
}

abbrev identity_map : TelegramIdentityMap
identity_map = record {
  actors = record { chat_id = negsuc 99; user_id = pos 7; actor = "alice" } ∷ [];
}

abbrev identity : TelegramIdentity
identity = record { chat_id = negsuc 99; user_id = pos 7; username = none }

abbrev context : TelegramApprovalContext
context = record {
  now_unix_seconds = 150;
  allowlist_entry_id = "sshd-restart";
  lease_nonce = "nonce-1";
}

abbrev space : Char
space = char_at " " 0

abbrev tab : Char
tab = char_at "\t" 0

handle_command-Calls_example :
    (handle_command identity_map identity
      (reject_command "approval-demo-1")
      context
      restart_store).1
    ≡ after_all
        (calls_of restart_store context
          (actor_for identity_map identity)
          (reject_command "approval-demo-1"))
        restart_store
handle_command-Calls_example =
    handle_command-Calls restart_store context identity_map identity
      (reject_command "approval-demo-1")

abbrev approved_store : ApprovalStore
approved_store =
    (handle_command identity_map identity (approve_command "approval-demo-1") context
      restart_store).1

handle_command-approved_example :
    IsAuthorized identity_map identity "alice"
    × Approves restart_store context "approval-demo-1" "lease-approval-demo-1" "alice"
        service_restart approved_store
unfolding handle_command actor_for perform show approve ensure_pending_not_stale append_event append
    next_sequence format
handle_command-approved_example =
    handle_command-approved restart_store context identity_map identity
      (approve_command "approval-demo-1") "approval-demo-1" "lease-approval-demo-1" "alice"
      service_restart approved_store refl
