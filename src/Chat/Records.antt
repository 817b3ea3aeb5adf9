-- ===== src/Chat/Records.antt =====
-- The records that conversations, deliveries and the chat protocol consist of.
use wire_app.Common.{ℕ, Bool, List, Option, Text, not, ◌==◌, ◌||◌, if◌then◌else◌}
use wire_app.Common.Int.{ℤ}
use wire_app.Common.Map.{Map}
use wire_app.Common.Set.{Set}
use wire_app.Chat.Message.{ChatMessage, AttachmentKind, is_message_id}

-- `ReplicatedDeletion`: version 1 deletes, version 2 restores.
pub record ReplicatedDeletion : Type 0 where
  pub version : ℕ  -- u8
  pub message_id : Text
  pub deleted_at : ℤ  -- i64

abbrev pub is_restoration : ReplicatedDeletion → Bool
is_restoration d = d.version == 2

-- Whether `validate` returns `Ok(())`.
unfoldable pub deletion_is_valid : ReplicatedDeletion → Bool
deletion_is_valid d =
    if not (d.version == 1 || d.version == 2) then Bool.false else is_message_id d.message_id

pub record ReplicatedReceipt : Type 0 where
  pub version : ℕ  -- u8
  pub message_id : Text
  pub delivered_at : ℤ  -- i64

unfoldable pub receipt_is_valid : ReplicatedReceipt → Bool
receipt_is_valid r = if not (r.version == 1) then Bool.false else is_message_id r.message_id

pub data ConversationKind : Type 0 where
  direct : Text → ConversationKind
  group : ConversationKind

pub record ChatConversation : Type 0 where
  pub id : Text
  pub title : Text
  pub kind : ConversationKind
  pub members : List Text
  pub document_id : Text
  pub history_epoch : ℕ  -- u64

-- `StoredConversation`: the public part and the document's ticket.
pub record StoredConversation : Type 0 where
  pub conversation : ChatConversation
  pub ticket : Text

pub data DeliveryState : Type 0 where
  pending retrying queued delivered failed : DeliveryState

-- The notifications that the modelled operations send.
pub data ChatNotification : Type 0 where
  delivery : Text → DeliveryState → Option Text → ChatNotification
  peer_identity : Text → Option Text → Option Text → Option Text → ChatNotification
  conversation_shown : ChatConversation → List ChatMessage → Bool → ChatNotification

pub record PendingAttachmentDelivery : Type 0 where
  pub message_id : Text
  pub hash : Text
  pub byte_len : ℕ  -- u64
  pub attachment_kind : AttachmentKind
  pub sent_at : ℤ  -- i64
  pub pending_peers : Set

pub record PendingDeletionDelivery : Type 0 where
  pub deletion : ReplicatedDeletion
  pub pending_peers : Set

pub record PendingInviteDelivery : Type 0 where
  pub history_epoch : ℕ  -- u64
  pub pending_peers : Set

pub record ReliableControlIndex : Type 0 where
  pub attachments : Map (Map PendingAttachmentDelivery)
  pub deletions : Map (Map PendingDeletionDelivery)
  pub invites : Map PendingInviteDelivery

pub record SyncRequest : Type 0 where
  pub kind : Text
  pub version : ℕ  -- u8
  pub conversation_id : Text
  pub ticket : Option Text
  pub client_version : Option Text
  pub messages : List ChatMessage
  pub receipts : List ReplicatedReceipt
  pub deletions : List ReplicatedDeletion
  pub attachment_acks : List Text
  pub deletion_acks : List Text
  pub accepted_history_epoch : Option ℕ

pub record WakePayload : Type 0 where
  pub messages : List ChatMessage
  pub receipts : List ReplicatedReceipt
  pub deletions : List ReplicatedDeletion
  pub attachment_acks : List Text
  pub deletion_acks : List Text
  pub accepted_history_epoch : Option ℕ
  pub attachments : List PendingAttachmentDelivery

-- Instants are milliseconds of the monotone clock.
pub record ConversationRetry : Type 0 where
  pub attempts : ℕ  -- u8
  pub next_attempt : ℕ
  pub messages : Set

pub record ControlRetry : Type 0 where
  pub attempts : ℕ  -- u8
  pub next_attempt : ℕ

pub record AttachmentRetry : Type 0 where
  pub conversation_id : Text
  pub attempts : ℕ  -- u8
  pub next_attempt : ℕ

pub record ChatInvite : Type 0 where
  pub version : ℕ  -- u8
  pub conversation : ChatConversation
  pub ticket : Text
  pub client_version : Option Text
  pub inviter_display_name : Option Text
  pub inviter_avatar_hash : Option Text
  pub inviter_accent_color : Option Text
