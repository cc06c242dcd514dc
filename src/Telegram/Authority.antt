-- ===== src/Telegram/Authority.antt =====
-- What a chat command can do to the approvals, and for whom.
use mathlib.Core.List.{Mem}
use runlane.Prelude.{
  String, ◌≡◌, refl, inl, inr, none, some, List, [], ◌∷◌, find, Result, ok, err, arith,
  Option-cases, Result-cases, subst,
}
use runlane.Prelude.Search.{find-some}
use runlane.Domain.{ActionKind, CapabilityLeaseClaims}
use runlane.Audit.{approval_adapter_rejected}
use runlane.Approval.{ApprovalStore, ApprovalRecord, has_id, show, approve}
use runlane.Approval.Store.{claims_of, append_event_lem, approve_cases, reject_cases}
use runlane.Approval.Lifecycle.{Call, approve_call, reject_call, adapter_call, after, after_all}
use runlane.Telegram.{
  TelegramIdentity, TelegramAuthorizedActor, TelegramIdentityMap, TelegramApprovalError,
  is_actor_for, actor_for, TelegramApprovalCommand, list_command, show_command, approve_command,
  reject_command, TelegramApprovalContext, approved, perform, deny, handle_command,
}

-- an entry of the map with the chat and the user of the identity, for the actor
pub record IsAuthorized (identity_map : TelegramIdentityMap) (identity : TelegramIdentity)
    (actor : String) : Type 0 where
  pub entry : TelegramAuthorizedActor
  pub listed : Mem entry identity_map.actors
  pub same_chat : entry.chat_id ≡ identity.chat_id
  pub same_user : entry.user_id ≡ identity.user_id
  pub named : entry.actor ≡ actor

actor_for-IsAuthorized :
    (identity_map : TelegramIdentityMap) (identity : TelegramIdentity) (actor : String)
    → actor_for identity_map identity ≡ ok actor
    → IsAuthorized identity_map identity actor
unfolding actor_for
actor_for-IsAuthorized identity_map identity actor h =
    elim (Option-cases (find (is_actor_for identity) identity_map.actors)) [
      | inl e ↦ absurd (ground arith)
      | inr (a, e) ↦
          let (m, t) = find-some (is_actor_for identity) identity_map.actors a e in
          record {
            entry = a;
            listed = m;
            same_chat = ground arith;
            same_user = ground arith;
            named = ground arith;
          }
    ]

module _ (store : ApprovalStore) (context : TelegramApprovalContext) where
  -- the call that a command makes for an actor; an approval names the action of the record
  pub calls_for : String → TelegramApprovalCommand → List Call
  calls_for actor list_command = []
  calls_for actor (show_command id) = []
  calls_for actor (approve_command id) = elim (find (has_id id) store.records) [
    | none ↦ []
    | some r ↦
        approve_call id r.action_id actor context.now_unix_seconds context.allowlist_entry_id
          context.lease_nonce
        ∷ []
  ]
  calls_for actor (reject_command id) = reject_call id actor context.now_unix_seconds ∷ []

  abbrev pub calls_of : Result TelegramApprovalError String → TelegramApprovalCommand → List Call
  calls_of (ok actor) command = calls_for actor command
  calls_of (err e) command = adapter_call "telegram" "unauthorized_identity" ∷ []

  -- the store's own approval of a record that the id names, in the name of the actor
  pub record Approves (id lease_id actor : String) (action : ActionKind) (next : ApprovalStore)
      : Type 0 where
    pub approval_record : ApprovalRecord
    pub claims : CapabilityLeaseClaims
    pub found : find (has_id id) store.records ≡ some approval_record
    pub done :
        approve id approval_record.action_id actor context.now_unix_seconds
          context.allowlist_entry_id context.lease_nonce store
        ≡ (ok claims, next)
    pub same_lease : claims.lease_id ≡ lease_id
    pub same_action : claims.action ≡ action

  perform-approved :
      (known : String) (command : TelegramApprovalCommand) (id lease_id actor : String)
      (action : ActionKind) (next : ApprovalStore)
      → perform known command context store ≡ (ok (approved id lease_id action actor), next)
      → (known ≡ actor) × Approves id lease_id actor action next
  unfolding perform show
  perform-approved known list_command id lease_id actor action next h = cc
  perform-approved known (show_command other) id lease_id actor action next h =
      elim (Option-cases (find (has_id other) store.records)) [
        | inl e ↦ absurd (ground arith)
        | inr (r, e) ↦ absurd (ground arith)
      ]
  perform-approved known (approve_command other) id lease_id actor action next h =
      elim (Option-cases (find (has_id other) store.records)) [
        | inl e ↦ absurd (ground arith)
        | inr (r, e) ↦
            elim (approve_cases other store r.action_id known context.now_unix_seconds
              context.allowlist_entry_id context.lease_nonce) [
                | inl (x, failed) ↦ absurd (ground arith)
                | inr (q, a, found, fresh, bound, helped, done) ↦
                    let same_id : other ≡ id = ground arith in
                    let same_actor : known ≡ actor = ground arith in
                    (
                      same_actor,
                      record {
                        approval_record = r;
                        claims = claims_of other q a context.allowlist_entry_id context.lease_nonce;
                        found = rw (← same_id) e;
                        done = rw (← same_id, ← same_actor) (ground arith);
                        same_lease = ground arith;
                        same_action = ground arith;
                      },
                    )
              ]
      ]
  perform-approved known (reject_command other) id lease_id actor action next h =
      elim (reject_cases other store known context.now_unix_seconds) [
        | inl (x, failed) ↦ absurd (ground arith)
        | inr (q, found, fresh, done) ↦ absurd (ground arith)
      ]

  perform-Calls :
      (actor : String) (command : TelegramApprovalCommand)
      → (perform actor command context store).1 ≡ after_all (calls_for actor command) store
  unfolding perform calls_for after_all after show
  perform-Calls actor list_command = refl
  perform-Calls actor (show_command id) = elim (Option-cases (find (has_id id) store.records)) [
    | inl e ↦ ground arith
    | inr (r, e) ↦ ground arith
  ]
  perform-Calls actor (approve_command id) = elim (Option-cases (find (has_id id) store.records)) [
    | inl e ↦ ground arith
    | inr (r, e) ↦
        elim (approve_cases id store r.action_id actor context.now_unix_seconds
          context.allowlist_entry_id context.lease_nonce) [
            | inl (x, failed) ↦ ground arith
            | inr (q, action, found, fresh, bound, helped, done) ↦ ground arith
          ]
  ]
  perform-Calls actor (reject_command id) =
      elim (reject_cases id store actor context.now_unix_seconds) [
        | inl (x, failed) ↦ ground arith
        | inr (q, found, fresh, done) ↦ ground arith
      ]

  -- The adapter owns no logic of its own: the store that a command leaves is the one that at most
  -- one call of the store leaves, an approval or a rejection in the name of the actor that the map
  -- has for the identity, or the note of a refusal where the map has none.
  pub handle_command-Calls :
      (identity_map : TelegramIdentityMap) (identity : TelegramIdentity)
      (command : TelegramApprovalCommand)
      → (handle_command identity_map identity command context store).1
        ≡ after_all (calls_of (actor_for identity_map identity) command) store
  unfolding handle_command after_all after deny
  handle_command-Calls identity_map identity command =
      elim (Result-cases (actor_for identity_map identity)) [
        | inl (actor, e) ↦ rw e (perform-Calls actor command)
        | inr (x, e) ↦ rw e (
            ground (
              arith,
              append_event_lem (approval_adapter_rejected "telegram" "unauthorized_identity") store,
            ))
      ]

  -- An `Approved` answer means that the map has an entry with the chat and the user of the identity
  -- for the actor that it names, and that the approval of the record under that actor's name
  -- returned claims with the lease id and the action of the answer.
  pub handle_command-approved :
      (identity_map : TelegramIdentityMap) (identity : TelegramIdentity)
      (command : TelegramApprovalCommand) (id lease_id actor : String) (action : ActionKind)
      (next : ApprovalStore)
      → handle_command identity_map identity command context store
        ≡ (ok (approved id lease_id action actor), next)
      → IsAuthorized identity_map identity actor × Approves id lease_id actor action next
  unfolding handle_command deny
  handle_command-approved identity_map identity command id lease_id actor action next h =
      elim (Result-cases (actor_for identity_map identity)) [
        | inr (x, e) ↦ absurd (
            ground (
              arith,
              append_event_lem (approval_adapter_rejected "telegram" "unauthorized_identity") store,
            ))
        | inl (known, e) ↦
            let (same, rest) =
              perform-approved known command id lease_id actor action next (ground arith) in
            (
              subst (IsAuthorized identity_map identity) same
                  (actor_for-IsAuthorized identity_map identity known e),
              rest,
            )
      ]
