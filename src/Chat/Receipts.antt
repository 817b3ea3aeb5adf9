-- ===== src/Chat/Receipts.antt =====
-- The receipts of a timeline in chat.rs: those that this node writes, `acknowledge_received_messages`, and those of the
-- other side, `load_delivered_message_ids`.
use wire_app.Common.{
  ℕ, ◌*◌, ◌-◌, Bool, true, false, not, ◌&&◌, ◌||◌, List, [], ◌∷◌, ◌++◌, Option, none, some, Text,
  text, text_eq, ltb, if◌then◌else◌, strip_prefix,
}
use wire_app.Common.Map.{Map, get, insert, contains_key, is_some}
use wire_app.Common.Map
use wire_app.Common.Set.{Set}
use wire_app.Common.Set
use wire_app.Chat.Message.{ChatMessage, is_message_id}
use wire_app.Chat.Records.{ReplicatedReceipt, receipt_is_valid, delivered, delivery}
use wire_app.Chat.Service.{ChatService, spawn, notify, set_bytes, spawn_wake_with, wake_payload_for}
use wire_app.Chat.Document.{DocumentEntry, read_entry}
use wire_app.Chat.Attachments.{Answers}

unfoldable pub receipt_message_id_from_key : Text → Option Text
receipt_message_id_from_key key = elim (strip_prefix (text "receipt/") key) [
  | none ↦ none
  | some id ↦ if is_message_id id then some id else none
]

-- The ids in the keys of the entries.
unfoldable pub receipt_ids : List (Option DocumentEntry) → Set → Option Set
receipt_ids [] ids = some ids
receipt_ids (none ∷ entries) ids = none
receipt_ids (some e ∷ entries) ids =
    receipt_ids entries
      (elim (receipt_message_id_from_key e.key) [ none ↦ ids | some id ↦ Set.insert id ids ])

-- The loop of `acknowledge_received_messages`: the receipts that were written.
unfoldable pub acknowledge_each :
    ChatService
    → Answers
    → Text
    → Set
    → List ChatMessage
    → Option (List ReplicatedReceipt) × ChatService
acknowledge_each s a c existing [] = (some [], s)
acknowledge_each s a c existing (m ∷ messages) =
    let skipped = acknowledge_each s a c existing messages in
    let key = text "receipt/" ++ m.message_id in
    let receipt : ReplicatedReceipt = record {
      version = 1;
      message_id = m.message_id;
      delivered_at = a.wall;
    } in
    let rest =
      acknowledge_each (spawn (set_bytes c key) s) a c (Set.insert m.message_id existing)
        messages in
    if text_eq m.author_id s.our_node_id || Set.contains m.message_id existing
    then skipped
    else if not (a.wrote key)
    then (none, s)
    else (elim rest.0 [ none ↦ none | some receipts ↦ some (receipt ∷ receipts) ], rest.1)

unfoldable pub acknowledge_received_messages :
    ChatService → Answers → Text → List ChatMessage → Option (List ReplicatedReceipt) × ChatService
acknowledge_received_messages s a c messages = elim (a.receipts (some a.author)) [
  | none ↦ (none, s)
  | some entries ↦ elim (receipt_ids entries []) [
    | none ↦ (none, s)
    | some existing ↦ acknowledge_each s a c existing messages
  ]
]

abbrev taken : Option ReplicatedReceipt → Set → Set
taken none ids = ids
taken (some r) ids = if receipt_is_valid r then Set.insert r.message_id ids else ids

-- `load_delivered_message_ids`, from the entries.
unfoldable pub delivered_ids : Answers → List (Option DocumentEntry) → Set → Option Set
delivered_ids a [] ids = some ids
delivered_ids a (none ∷ entries) ids = none
delivered_ids a (some e ∷ entries) ids = elim (text_eq e.author a.author) [
  | true ↦ delivered_ids a entries ids
  | false ↦ elim (receipt_message_id_from_key e.key) [
    | some id ↦ delivered_ids a entries (Set.insert id ids)
    | none ↦ elim (read_entry (16 * 1024) a.receipt_of e) [
      | none ↦ none
      | some o ↦ delivered_ids a entries (taken o ids)
    ]
  ]
]

unfoldable pub load_delivered_message_ids : Answers → Option Set
load_delivered_message_ids a = elim (a.receipts none) [
  | none ↦ none
  | some entries ↦ delivered_ids a entries []
]

-- An own message that the other side has is not pending any more.
abbrev pub deliver_one : ChatService → Set → ChatMessage → ChatService
deliver_one s ids m =
    if text_eq m.author_id s.our_node_id
      && Set.contains m.message_id ids
      && contains_key m.message_id s.pending_deliveries
    then notify (delivery m.message_id delivered none) (record s {
      pending_deliveries = Map.remove m.message_id s.pending_deliveries;
      pending_outbound = Map.remove m.message_id s.pending_outbound;
    })
    else s

unfoldable pub deliver_each : ChatService → Set → List ChatMessage → ChatService
deliver_each s ids [] = s
deliver_each s ids (m ∷ messages) = deliver_each (deliver_one s ids m) ids messages

abbrev chat_receipt_wake_cooldown : ℕ
chat_receipt_wake_cooldown = 2_000

abbrev cools : Option ℕ → ℕ → Bool
cools none now = false
cools (some at) now = ltb (now - at) chat_receipt_wake_cooldown

unfoldable pub spawn_receipt_wake :
    ChatService → Answers → Text → List ReplicatedReceipt → ChatService
spawn_receipt_wake s a c receipts =
    let woken = record s { last_receipt_wake = insert c a.now s.last_receipt_wake } in
    if cools (get c s.last_receipt_wake) a.now
    then s
    else spawn_wake_with woken c (record (wake_payload_for woken a.wall c) { receipts = receipts })
