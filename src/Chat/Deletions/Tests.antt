-- ===== src/Chat/Deletions/Tests.antt =====
-- Deletions at concrete inputs.
use wire_app.Common.{
  ℕ, ◌≡◌, refl, Bool, true, false, ◌&&◌, ◌||◌, List, [], ◌∷◌, Option, none, some, arith, Text, text,
  text_eq, take, All, not,
}
use wire_app.Common.Int.{pos}
use wire_app.Common.Map.{Map, get, insert, contains_key, map_option}
use wire_app.Common.Set
use wire_app.Chat.Message.{ChatMessage, everyone, is_message_id}
use wire_app.Chat.Records.{ReplicatedDeletion, deletion_is_valid}
use wire_app.Chat.Service.{ChatService, is_conversation_member}
use wire_app.Chat.Tests.{service, hello, m1}
use wire_app.Chat.Deletions.{
  delete_message_locally, restore_message_locally, apply_direct_deletions, stage_each,
  stage_deletion, merge_staged_deletions, merge_each, merge_into, merge_deletion, without_id,
}
use wire_app.Chat.Deletions.OnThisDevice.{
  is_deleted, went_well, delete_message_locally-is_deleted, restore_message_locally-is_deleted,
}
use wire_app.Chat.Deletions.Authors.{
  Requests, run_requests, SentIn, Resets, merge_staged_deletions-authors,
}
use wire_app.Chat.Deletions.Effect.{find}
use wire_app.Chat.Deletions.Everyone.{
  apply_direct_deletions-everyone, apply_direct_deletions_outbid,
}

abbrev from_bob : ChatMessage
from_bob = record hello { author_id = text "bob" }

abbrev delete_m1 : ReplicatedDeletion
delete_m1 = record { version = 1; message_id = m1; deleted_at = pos 2_000 }

abbrev mine : ReplicatedDeletion
mine = record { version = 1; message_id = m1; deleted_at = pos 2_500 }

abbrev bob_deletes : ChatService
bob_deletes = (apply_direct_deletions service (text "c") (text "bob") (delete_m1 ∷ [])).1

delete_message_locally-is_deleted_example :
    let result = delete_message_locally service true (text "c") m1 in
    (went_well result.0
      ≡ (contains_key (text "c") service.conversations && is_message_id m1 && true))
    × (is_deleted (text "c") m1 result.1.local_deletions ≡ (
        is_deleted (text "c") m1 service.local_deletions
        || went_well result.0 && (text_eq (text "c") (text "c") && text_eq m1 m1)))
delete_message_locally-is_deleted_example =
    delete_message_locally-is_deleted service true (text "c") m1 (text "c") m1

abbrev deleted_here : ChatService
deleted_here = (delete_message_locally service true (text "c") m1).1

-- The file cannot be saved, so that the message stays deleted.
not_restored :
    is_deleted
      (text "c")
      m1
      (restore_message_locally deleted_here false (text "c") m1).1.local_deletions
    ≡ true
unfolding delete_message_locally restore_message_locally is_deleted without_id get insert
    is_message_id text_eq Set.contains Set.insert Set.remove wire_app.Common.Map.alter
    wire_app.Common.Map.remove
not_restored = refl

restore_message_locally-is_deleted_example :
    let result = restore_message_locally deleted_here false (text "c") m1 in
    (went_well result.0 ≡ (
      contains_key (text "c") deleted_here.conversations
      && is_message_id m1
      && is_deleted (text "c") m1 deleted_here.local_deletions
      && false))
    × (is_deleted (text "c") m1 result.1.local_deletions ≡ (
        is_deleted (text "c") m1 deleted_here.local_deletions
        && not (went_well result.0 && (text_eq (text "c") (text "c") && text_eq m1 m1))))
restore_message_locally-is_deleted_example =
    restore_message_locally-is_deleted deleted_here false (text "c") m1 (text "c") m1

abbrev requests : Requests
requests = (text "bob", delete_m1 ∷ []) ∷ (text "eve", mine ∷ []) ∷ []

merge_staged_deletions-authors_example :
    Resets
      (λ a m. SentIn service (text "c") a m requests)
      (from_bob ∷ [])
      (merge_staged_deletions
        (run_requests service (text "c") requests)
        (text "c")
        (from_bob ∷ [])).1
merge_staged_deletions-authors_example =
    merge_staged_deletions-authors service (text "c") requests (from_bob ∷ []) (unfold get in refl)

shown_deleted :
    (merge_staged_deletions bob_deletes (text "c") (from_bob ∷ [])).1
    ≡ record from_bob { deletion = some everyone } ∷ []
unfolding merge_staged_deletions merge_each merge_into merge_deletion apply_direct_deletions
    stage_each stage_deletion is_conversation_member deletion_is_valid is_message_id get insert
    text_eq
shown_deleted = refl

apply_direct_deletions-everyone_example :
    find m1 (merge_staged_deletions bob_deletes (text "c") (from_bob ∷ [])).1
    ≡ some (record from_bob { deletion = some everyone })
apply_direct_deletions-everyone_example =
    apply_direct_deletions-everyone service (text "c") delete_m1 (from_bob ∷ []) from_bob
      (unfold get in tt) (unfold find text_eq in refl)
      (unfold is_conversation_member get text_eq in refl)
      (unfold deletion_is_valid is_message_id in refl) refl (unfold get in refl) refl

apply_direct_deletions_outbid_example :
    let first = apply_direct_deletions service (text "c") (text "bob") (delete_m1 ∷ []) in
    (first.0 ≡ m1 ∷ [])
    × (find m1
          (merge_staged_deletions
            (apply_direct_deletions first.1 (text "c") (text "me") (mine ∷ [])).1
            (text "c")
            (from_bob ∷ [])).1
        ≡ some from_bob)
apply_direct_deletions_outbid_example =
    apply_direct_deletions_outbid service (text "c") (text "me") delete_m1 mine (from_bob ∷ [])
      from_bob (unfold get in tt) (unfold find text_eq in refl)
      (unfold is_conversation_member get text_eq in refl)
      (unfold is_conversation_member get text_eq in refl) (unfold text_eq in refl)
      (unfold deletion_is_valid is_message_id in refl)
      (unfold deletion_is_valid is_message_id in refl) refl (unfold get in refl) refl
