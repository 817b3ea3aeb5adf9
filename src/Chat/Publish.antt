-- ===== src/Chat/Publish.antt =====
-- `open_and_publish` of chat.rs and `publish_timeline`. The sizes of offered files and the client versions of peers are
-- kept elsewhere and left out.
pub mod Kept
use wire_app.Common.{
  ℕ, ◌+◌, ◌*◌, ◌-◌, min, Bool, true, false, not, ◌&&◌, ◌||◌, List, [], ◌∷◌, ◌++◌, Option, none,
  some, Text, text, text_eq, ltb, leb, ◌==◌, if◌then◌else◌, any, map, keep_if, is_empty,
  strip_prefix,
}
use wire_app.Common.Int.{ℤ}
use wire_app.Common.Map.{Map, get, insert, contains_key, is_some}
use wire_app.Common.Map
use wire_app.Common.Set.{Set}
use wire_app.Common.Set
use wire_app.Chat.Backoff.{attachment_retry_delay}
use wire_app.Chat.Retention.{includes}
use wire_app.Chat.Message.{
  ChatMessage, ChatAttachment, AttachmentKind, image, is_klipy_gif, is_message_id,
}
use wire_app.Chat.Records.{
  StoredConversation, ReplicatedReceipt, receipt_is_valid, AttachmentRetry, DeliveryState,
  delivered, delivery, conversation_shown, WakePayload,
}
use wire_app.Chat.Service.{
  ChatService, Task, spawn, notify, set_bytes, subscribed, attachment_download, spawn_doc_sync,
  spawn_wake_with, wake_payload_for, other_members, to_set,
}
use wire_app.Chat.Delivery.{prune}
use wire_app.Chat.Timeline.{timeline}
use wire_app.Chat.Document.{
  DocumentEntry, FileReceipt, file_receipt_key, Library, read_entry, set_or_default, is_file_offer,
  load_recent_messages,
}
use wire_app.Chat.Attachments.{Answers, request_missing_attachments, receive_files}
use wire_app.Chat.Receipts.{
  acknowledge_received_messages, load_delivered_message_ids, deliver_each, spawn_receipt_wake,
}

-- What follows the receipts in `publish_timeline`.
unfoldable pub publish :
    ChatService → Set → StoredConversation → List ChatMessage → Bool → ChatService
publish s ids stored messages has_more =
    let settled = deliver_each s ids messages in
    notify (conversation_shown stored.conversation messages has_more)
      (record settled { retry_state = prune settled.pending_deliveries settled.retry_state })

abbrev chat_timeline_page : ℕ
chat_timeline_page = 250

abbrev pub limit_or_page : Option ℕ → ℕ
limit_or_page none = chat_timeline_page
limit_or_page (some limit) = limit

-- The part of `publish_timeline` behind the timeline that was made.
unfoldable pub publish_messages :
    ChatService → Answers → StoredConversation → Text → List ChatMessage → Bool → Bool × ChatService
publish_messages s a stored c shown has_more =
    let received = receive_files (request_missing_attachments s a c shown) a c shown false in
    elim received.0 [
      | none ↦ (false, received.1)
      | some p ↦
          let nudged = if p.1 then spawn_doc_sync received.1 c else received.1 in
          let acked = acknowledge_received_messages nudged a c p.0 in
          elim acked.0 [
            | none ↦ (false, acked.1)
            | some receipts ↦
                let woken =
                  if is_empty receipts
                  then acked.1
                  else spawn_receipt_wake (spawn_doc_sync acked.1 c) a c receipts in
                elim (load_delivered_message_ids a) [
                  | none ↦ (false, woken)
                  | some ids ↦ (true, publish woken ids stored p.0 has_more)
                ]
          ]
    ]

unfoldable pub publish_timeline : ChatService → Answers → Text → Bool × ChatService
publish_timeline s a c = elim (get c s.conversations) [
  | none ↦ (false, s)
  | some stored ↦
      elim (load_recent_messages a.library s stored (limit_or_page (get c s.timeline_limits))) [
        | none ↦ (false, s)
        | some page ↦
            let merged = timeline s a.wall c page.0 in
            publish_messages merged.0 a stored c merged.1 page.1
      ]
]

abbrev is_subscribed : Text → Option Text → Bool
is_subscribed document none = false
is_subscribed document (some d) = text_eq d document

unfoldable pub open_and_publish : ChatService → Answers → Text → Bool × ChatService
open_and_publish s a c = elim (get c s.conversations) [
  | none ↦ (false, s)
  | some stored ↦
      let document = stored.conversation.document_id in
      let listening =
        spawn (subscribed c document)
          (record s { subscriptions = insert c document s.subscriptions }) in
      if not (is_some (a.library.open_doc stored.ticket document)) || not a.starts_sync
      then (false, s)
      else if is_subscribed document (get c s.subscriptions)
      then publish_timeline s a c
      else if a.subscribes
      then publish_timeline listening a c
      else (false, s)
]
