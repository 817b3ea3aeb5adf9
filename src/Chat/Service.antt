-- ===== src/Chat/Service.antt =====
-- The state of `ChatService` that delivery depends on. A spawned task is recorded with what it was
-- given, in the order of spawning; its end comes back as a later call of `apply_wake_finished` or
-- of an acknowledgement. Saving the control queue is recorded as a task too. `now` is the reading
-- of the monotone clock during a call, `wall` that of `now_millis()`.
use wire_app.Common.{
  ℕ, ◌+◌, ◌*◌, Bool, true, false, not, ◌&&◌, List, [], ◌∷◌, ◌++◌, Option, none, some, Text, text_eq,
  ltb, if◌then◌else◌, any, keep_if, length, is_empty, map,
}
use wire_app.Common.Int.{ℤ}
use wire_app.Common.Map.{Map, get, insert, contains_key, values}
use wire_app.Common.Set.{Set}
use wire_app.Common.Set
use wire_app.Chat.Retention.{RetentionPolicy, includes}
use wire_app.Chat.Message.{ChatMessage, Externals}
use wire_app.Chat.Records.{
  StoredConversation, ReliableControlIndex, ReplicatedDeletion, ChatNotification, ConversationRetry,
  ControlRetry, AttachmentRetry, WakePayload, PendingAttachmentDelivery, PendingDeletionDelivery,
}

pub data Task : Type 0 where
  wake : Text → List Text → WakePayload → Task
  doc_sync : Text → Task
  control_ack : Text → Text → WakePayload → Task
  pending_invites : Text → Task
  save_control save_index save_local_deletions : Task
  drop_document : Text → Task
  subscribed set_bytes : Text → Text → Task
  attachment_download : Text → Text → List Text → Task
  insert_message : Text → ChatMessage → Task
  insert_replicated_deletion : Text → Text → Task

pub record ChatService : Type 0 where
  pub externals : Externals
  pub our_node_id : Text
  pub conversations : Map StoredConversation
  pub retention : RetentionPolicy
  pub reliable_control : ReliableControlIndex
  pub queued : List ChatNotification
  pub retry_state : Map ConversationRetry
  pub pending_deliveries : Map Text
  pub pending_outbound : Map ChatMessage
  pub staged_inbound : Map (Map ChatMessage)
  pub staged_deletions : Map (Map (Text × ReplicatedDeletion))
  pub wake_inflight : Map ℕ  -- u32
  pub last_receipt_wake : Map ℕ
  pub wake_failures : Map ℕ  -- u8
  pub control_retries : Map ControlRetry
  pub local_deletions : Map Set
  pub stopped_files : Set
  pub attachment_retries : Map AttachmentRetry
  pub subscriptions : Map Text
  pub attachment_downloads : Set
  pub recorded_file_receipts : Set
  pub timeline_limits : Map ℕ  -- usize
  pub max_image_bytes : Option ℕ  -- u64
  pub tasks : List Task

abbrev pub spawn : Task → ChatService → ChatService
spawn t s = record s { tasks = s.tasks ++ t ∷ [] }

abbrev pub notify : ChatNotification → ChatService → ChatService
notify n s = record s { queued = s.queued ++ n ∷ [] }

abbrev pub or_zero : Option ℕ → ℕ
or_zero none = 0
or_zero (some n) = n

abbrev pub inflight : Text → ChatService → ℕ
inflight c s = or_zero (get c s.wake_inflight)

unfoldable pub is_conversation_member : ChatService → Text → Text → Bool
is_conversation_member s conversation_id node = elim (get conversation_id s.conversations) [
  | none ↦ false
  | some stored ↦ any (λ member. text_eq member node) stored.conversation.members
]

-- The members that parse as node ids, but for this node.
unfoldable pub other_nodes : Externals → Text → List Text → List Text
other_nodes ext own [] = []
other_nodes ext own (m ∷ ms) =
    let rest = other_nodes ext own ms in
    elim (ext.parse_node m) [
      | none ↦ rest
      | some node ↦ if text_eq node own then rest else node ∷ rest
    ]

unfoldable pub other_members : ChatService → StoredConversation → List Text
other_members s stored = other_nodes s.externals s.our_node_id stored.conversation.members

abbrev pub to_set : List Text → Set
to_set [] = []
to_set (x ∷ xs) = Set.insert x (to_set xs)

unfoldable pub conversation_peer_strings : ChatService → Text → Set
conversation_peer_strings s conversation_id = elim (get conversation_id s.conversations) [
  | none ↦ []
  | some stored ↦ to_set (other_members s stored)
]

abbrev pub chat_wake_payload_budget : ℕ
chat_wake_payload_budget = 200 * 1024

-- The loop over `pending_deliveries` in `wake_payload_for`: `used` bytes so far, and whether some
-- message has been taken.
unfoldable pub pick_messages : Map ChatMessage → Text → ℕ → Bool → Map Text → List ChatMessage
pick_messages outbound c used taken [] = []
pick_messages outbound c used taken ((message_id, pending_conversation) ∷ m) =
    elim (if text_eq pending_conversation c then get message_id outbound else none) [
      | none ↦ pick_messages outbound c used taken m
      | some message ↦
          let size = length message.body + 256 in
          if taken && ltb chat_wake_payload_budget (used + size)
          then []
          else elim (ltb chat_wake_payload_budget size) [
            | true ↦ pick_messages outbound c used taken m
            | false ↦ message ∷ pick_messages outbound c (used + size) true m
          ]
    ]

abbrev or_empty {ℓ} : {A : Type ℓ} → Option (Map A) → Map A
or_empty none = []
or_empty (some m) = m

unfoldable pub wake_payload_for : ChatService → ℤ → Text → WakePayload
wake_payload_for s wall c = record {
  messages = pick_messages s.pending_outbound c 0 false s.pending_deliveries;
  receipts = [];
  deletions =
      map (λ (p : PendingDeletionDelivery). p.deletion)
        (keep_if (λ (p : PendingDeletionDelivery). not (is_empty p.pending_peers))
          (values (or_empty (get c s.reliable_control.deletions))));
  attachment_acks = [];
  deletion_acks = [];
  accepted_history_epoch = none;
  attachments =
      keep_if
        (λ (p : PendingAttachmentDelivery).
          not (is_empty p.pending_peers) && includes s.retention p.sent_at wall)
        (values (or_empty (get c s.reliable_control.attachments)));
}

unfoldable pub spawn_wake_with : ChatService → Text → WakePayload → ChatService
spawn_wake_with s c payload = elim (get c s.conversations) [
  | none ↦ s
  | some stored ↦
      if is_empty (other_members s stored)
      then s
      else spawn (wake c (other_members s stored) payload)
          (record s { wake_inflight = insert c (inflight c s + 1) s.wake_inflight })
]

unfoldable pub spawn_wake : ChatService → ℤ → Text → ChatService
spawn_wake s wall c = spawn_wake_with s c (wake_payload_for s wall c)

unfoldable pub spawn_doc_sync : ChatService → Text → ChatService
spawn_doc_sync s c = if contains_key c s.conversations then spawn (doc_sync c) s else s
