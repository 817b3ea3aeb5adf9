-- ===== src/Chat/Publish/Kept.antt =====
-- What opening and publishing a conversation leaves as it is: the index and the node's own id.
use wire_app.Common.{
  ◌≡◌, refl, ◌∙◌, Bool, true, false, ◌||◌, not, List, [], ◌∷◌, ◌++◌, text, Option, none, some,
  arith, Text, text_eq, if◌then◌else◌, is_empty, Option-cases, inl, inr,
}
use wire_app.Common.Int.{ℤ}
use wire_app.Common.Map.{Map, get, insert}
use wire_app.Common.Set.{Set}
use wire_app.Common.Set
use wire_app.Chat.Retention.{includes}
use wire_app.Chat.Message.{ChatMessage, ChatAttachment}
use wire_app.Chat.Records.{StoredConversation, ReplicatedReceipt, WakePayload}
use wire_app.Chat.Service.{
  ChatService, spawn, set_bytes, wake_payload_for, spawn_wake_with, spawn_doc_sync, subscribed,
}
use wire_app.Chat.Document.{load_recent_messages}
use wire_app.Chat.Deletions.{merge_staged_deletions}
use wire_app.Chat.Timeline.{timeline, merge_staged_inbound}
use wire_app.Chat.Attachments.{
  attachment_providers, receive_file, Answers, schedule_attachment_retry, request_attachment,
  request_each, request_missing_attachments, record_file_receipt, receive_each, receive_files,
}
use wire_app.Chat.Receipts.{
  receipt_ids, acknowledge_each, acknowledge_received_messages, deliver_each, deliver_one,
  spawn_receipt_wake, load_delivered_message_ids,
}
use wire_app.Chat.Publish.{
  publish, publish_messages, publish_timeline, open_and_publish, limit_or_page,
}

-- What is kept.
abbrev pub core : ChatService → Map StoredConversation × Text
core s = (s.conversations, s.our_node_id)

request_attachment-core :
    (s : ChatService) (a : Answers) (c : Text) (providers : List Text) (sent_at : ℤ)
    (attachment : ChatAttachment)
    → core (request_attachment s a c providers sent_at attachment) ≡ core s
unfolding request_attachment schedule_attachment_retry
request_attachment-core s a c providers sent_at attachment = ground arith

request_each-core :
    (s : ChatService) (a : Answers) (c : Text) (providers : List Text) (sent_at : ℤ)
    (attachments : List ChatAttachment)
    → core (request_each s a c providers sent_at attachments) ≡ core s
unfolding request_each
request_each-core s a c providers sent_at [] = refl
request_each-core s a c providers sent_at (attachment ∷ attachments) =
    request_each-core (request_attachment s a c providers sent_at attachment) a c providers sent_at
      attachments
    ∙ request_attachment-core s a c providers sent_at attachment

request_missing_attachments-core :
    (s : ChatService) (a : Answers) (c : Text) (messages : List ChatMessage)
    → core (request_missing_attachments s a c messages) ≡ core s
unfolding request_missing_attachments
request_missing_attachments-core s a c [] = refl
request_missing_attachments-core s a c (m ∷ messages) =
    request_missing_attachments-core
      (if text_eq m.author_id s.our_node_id
        then s
        else request_each s a c (attachment_providers s a c (s.externals.parse_node m.author_id))
            m.sent_at m.attachments)
      a c messages
    ∙ ground (
      arith,
      request_each-core s a c (attachment_providers s a c (s.externals.parse_node m.author_id))
          m.sent_at m.attachments,
    )

record_file_receipt-core :
    (s : ChatService) (a : Answers) (c message_id hash : Text)
    → core (record_file_receipt s a c message_id hash).1 ≡ core s
unfolding record_file_receipt
record_file_receipt-core s a c message_id hash = ground arith

receive_each-core :
    (s : ChatService) (a : Answers) (c : Text) (attachments : List ChatAttachment) (m : ChatMessage)
    (wrote : Bool)
    → core (receive_each s a c attachments m wrote).1 ≡ core s
unfolding receive_each
receive_each-core s a c [] m wrote = refl
receive_each-core s a c (attachment ∷ attachments) m wrote =
    let recorded = record_file_receipt s a c m.message_id attachment.hash in
    ground (
      arith,
      receive_each-core s a c attachments m wrote,
      receive_each-core recorded.1 a c attachments (receive_file attachment.hash s.our_node_id m)
          true,
      record_file_receipt-core s a c m.message_id attachment.hash,
    )

-- The state before a later message, or where an error ended the call.
continued :
    {A B : Type 0} (s : ChatService) (r : Option A × ChatService)
    (f : A → ChatService → Option B × ChatService)
    → core r.1 ≡ core s
    → ((x : A) → core (f x r.1).1 ≡ core r.1)
    → let next : Option B × ChatService = elim r.0 [ none ↦ (none, r.1) | some x ↦ f x r.1 ] in
      core next.1 ≡ core s
continued s (none, t) f h g = h
continued s (some x, t) f h g = g x ∙ h

finished :
    {A B : Type 0} (s : ChatService) (r : Option A × ChatService) (f : A → B)
    → core r.1 ≡ core s
    → let mapped : Option B × ChatService = elim r.0 [
      | none ↦ (none, r.1)
      | some x ↦ (some (f x), r.1)
    ] in
      core mapped.1 ≡ core s
finished s (none, t) f h = h
finished s (some x, t) f h = h

receive_files-core :
    (s : ChatService) (a : Answers) (c : Text) (messages : List ChatMessage) (wrote : Bool)
    → core (receive_files s a c messages wrote).1 ≡ core s
unfolding receive_files
receive_files-core s a c [] wrote = refl
receive_files-core s a c (m ∷ messages) wrote =
    let own = text_eq m.author_id s.our_node_id || not (includes s.retention m.sent_at a.wall) in
    let first : Option (ChatMessage × Bool) × ChatService =
      if own then (some (m, wrote), s) else receive_each s a c m.attachments m wrote in
    continued s first
      (λ p t.
        let rest = receive_files t a c messages p.1 in
        elim rest.0 [ none ↦ (none, rest.1) | some q ↦ (some (p.0 ∷ q.0, q.1), rest.1) ])
      (ground (arith, receive_each-core s a c m.attachments m wrote))
      (λ p.
        finished first.1 (receive_files first.1 a c messages p.1) (λ q. (p.0 ∷ q.0, q.1))
          (receive_files-core first.1 a c messages p.1))

acknowledge_each-core :
    (s : ChatService) (a : Answers) (c : Text) (existing : Set) (messages : List ChatMessage)
    → core (acknowledge_each s a c existing messages).1 ≡ core s
unfolding acknowledge_each
acknowledge_each-core s a c existing [] = refl
acknowledge_each-core s a c existing (m ∷ messages) =
    let key = text "receipt/" ++ m.message_id in
    ground (
      arith,
      acknowledge_each-core s a c existing messages,
      acknowledge_each-core (spawn (set_bytes c key) s) a c (Set.insert m.message_id existing)
          messages,
    )

acknowledge_received_messages-core :
    (s : ChatService) (a : Answers) (c : Text) (messages : List ChatMessage)
    → core (acknowledge_received_messages s a c messages).1 ≡ core s
unfolding acknowledge_received_messages
acknowledge_received_messages-core s a c messages =
    elim (Option-cases (a.receipts (some a.author))) [
      | inl e ↦ rw (e, acknowledge_received_messages) refl
      | inr (entries, e) ↦ elim (Option-cases (receipt_ids entries [])) [
        | inl f ↦ rw (e, acknowledge_received_messages) (rw f refl)
        | inr (existing, f) ↦
            rw (e, acknowledge_received_messages)
              (rw f (acknowledge_each-core s a c existing messages))
      ]
    ]

deliver_each-core :
    (s : ChatService) (ids : Set) (messages : List ChatMessage)
    → core (deliver_each s ids messages) ≡ core s
unfolding deliver_each
deliver_each-core s ids [] = refl
deliver_each-core s ids (m ∷ messages) =
    deliver_each-core (deliver_one s ids m) ids messages ∙ (ground arith)

spawn_wake_with-core :
    (s : ChatService) (c : Text) (payload : WakePayload)
    → core (spawn_wake_with s c payload) ≡ core s
unfolding spawn_wake_with
spawn_wake_with-core s c payload = ground arith

spawn_doc_sync-core : (s : ChatService) (c : Text) → core (spawn_doc_sync s c) ≡ core s
unfolding spawn_doc_sync
spawn_doc_sync-core s c = ground arith

spawn_receipt_wake-core :
    (s : ChatService) (a : Answers) (c : Text) (receipts : List ReplicatedReceipt)
    → core (spawn_receipt_wake s a c receipts) ≡ core s
unfolding spawn_receipt_wake
spawn_receipt_wake-core s a c receipts =
    let woken = record s { last_receipt_wake = insert c a.now s.last_receipt_wake } in
    ground (
      arith,
      spawn_wake_with-core woken c
          (record (wake_payload_for woken a.wall c) { receipts = receipts }),
    )

inbound-core :
    (s : ChatService) (c : Text) (messages : List ChatMessage)
    → core (merge_staged_inbound s c messages).0 ≡ core s
unfolding merge_staged_inbound
inbound-core s c messages = ground arith

deletions-core :
    (s : ChatService) (c : Text) (messages : List ChatMessage)
    → core (merge_staged_deletions s c messages).0 ≡ core s
unfolding merge_staged_deletions
deletions-core s c messages = ground arith

timeline-core :
    (s : ChatService) (now : ℤ) (c : Text) (messages : List ChatMessage)
    → core (timeline s now c messages).0 ≡ core s
unfolding timeline
timeline-core s now c messages =
    deletions-core (merge_staged_inbound s c messages).0 c (merge_staged_inbound s c messages).1
    ∙ inbound-core s c messages

publish-core :
    (s : ChatService) (ids : Set) (stored : StoredConversation) (messages : List ChatMessage)
    (has_more : Bool)
    → core (publish s ids stored messages has_more) ≡ core s
unfolding publish
publish-core s ids stored messages has_more = ground (arith, deliver_each-core s ids messages)

publish_messages-core :
    (s : ChatService) (a : Answers) (stored : StoredConversation) (c : Text)
    (shown : List ChatMessage) (has_more : Bool)
    → core (publish_messages s a stored c shown has_more).1 ≡ core s
unfolding publish_messages
publish_messages-core s a stored c shown has_more =
    let start = request_missing_attachments s a c shown in
    let received = receive_files start a c shown false in
    let kept : core received.1 ≡ core s =
      receive_files-core start a c shown false ∙ request_missing_attachments-core s a c shown in
    elim (Option-cases received.0) [
      | inl e ↦ rw (e, publish_messages) kept
      | inr (p, e) ↦
          let nudged = if p.1 then spawn_doc_sync received.1 c else received.1 in
          let acked = acknowledge_received_messages nudged a c p.0 in
          let kept_acked : core acked.1 ≡ core s =
            acknowledge_received_messages-core nudged a c p.0
            ∙ (ground (arith, spawn_doc_sync-core received.1 c) ∙ kept) in
          elim (Option-cases acked.0) [
            | inl f ↦ rw (e, publish_messages) (rw f kept_acked)
            | inr (receipts, f) ↦
                let woken =
                  if is_empty receipts
                  then acked.1
                  else spawn_receipt_wake (spawn_doc_sync acked.1 c) a c receipts in
                let kept_woken : core woken ≡ core s =
                  ground (
                    arith,
                    spawn_receipt_wake-core (spawn_doc_sync acked.1 c) a c receipts,
                    spawn_doc_sync-core acked.1 c,
                  )
                  ∙ kept_acked in
                elim (Option-cases (load_delivered_message_ids a)) [
                  | inl g ↦ rw (e, publish_messages) (rw f (rw g kept_woken))
                  | inr (ids, g) ↦
                      rw (e, publish_messages)
                        (rw f (rw g (publish-core woken ids stored p.0 has_more ∙ kept_woken)))
                ]
          ]
    ]

publish_timeline-core :
    (s : ChatService) (a : Answers) (c : Text) → core (publish_timeline s a c).1 ≡ core s
unfolding publish_timeline
publish_timeline-core s a c = elim (Option-cases (get c s.conversations)) [
  | inl e ↦ rw (e, publish_timeline) refl
  | inr (stored, e) ↦
      elim (Option-cases
        (load_recent_messages a.library s stored (limit_or_page (get c s.timeline_limits)))) [
          | inl f ↦ rw (e, publish_timeline) (rw f refl)
          | inr (page, f) ↦
              rw (e, publish_timeline)
                (rw f (
                  publish_messages-core (timeline s a.wall c page.0).0 a stored c
                    (timeline s a.wall c page.0).1 page.1
                  ∙ timeline-core s a.wall c page.0))
        ]
]

listening-core :
    (s : ChatService) (c document : Text)
    → core (
        spawn
          (subscribed c document)
          (record s { subscriptions = insert c document s.subscriptions }))
      ≡ core s
listening-core s c document = refl

-- Opening a conversation changes neither the index nor the own id.
pub open_and_publish-core :
    (s : ChatService) (a : Answers) (c : Text) → core (open_and_publish s a c).1 ≡ core s
unfolding open_and_publish
open_and_publish-core s a c = elim (Option-cases (get c s.conversations)) [
  | inl e ↦ rw (e, open_and_publish) refl
  | inr (stored, e) ↦
      let document = stored.conversation.document_id in
      let listening =
        spawn (subscribed c document)
          (record s { subscriptions = insert c document s.subscriptions }) in
      rw (e, open_and_publish)
        (ground (
          arith,
          publish_timeline-core s a c,
          publish_timeline-core listening a c,
          listening-core s c document,
        ))
]
