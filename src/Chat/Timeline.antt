-- ===== src/Chat/Timeline.antt =====
-- Messages that come over the chat protocol, before the document brings them, and the timeline that is shown.
pub mod Merged
pub mod Staged
pub mod Senders
pub mod Tests
use wire_app.Common.{
  ℕ, ◌+◌, Bool, true, false, not, ◌&&◌, ◌||◌, List, [], ◌∷◌, ◌++◌, Option, none, some, Text, text,
  text_eq, ◌==◌, if◌then◌else◌, is_empty, any, keep_if,
}
use wire_app.Common.Int.{ℤ}
use wire_app.Common.Map.{Map, get, insert, contains_key, values, is_some}
use wire_app.Common.Map
use wire_app.Chat.Message.{ChatMessage, validate, visible_under, sort}
use wire_app.Chat.Records.{SyncRequest}
use wire_app.Chat.Service.{ChatService, is_conversation_member}
use wire_app.Chat.Control.{apply_control_acks, spawn_control_ack}
use wire_app.Chat.Delivery.{apply_direct_receipts}
use wire_app.Chat.Deletions.{apply_direct_deletions, merge_staged_deletions}

abbrev pub messages_or_default : Option (Map ChatMessage) → Map ChatMessage
messages_or_default none = []
messages_or_default (some staged) = staged

-- What `apply_sync_request` takes of a message: it is its sender's own, and valid.
unfoldable pub is_acceptable : ChatService → Text → ChatMessage → Bool
is_acceptable s remote m = text_eq m.author_id remote && not (is_some (validate s.externals m))

-- One round of the loop over `request.messages`: 1 for a message that was not staged, and the service.
unfoldable pub stage_message : ChatService → Text → Text → ChatMessage → ℕ × ChatService
stage_message s c remote m =
    let staged = messages_or_default (get c s.staged_inbound) in
    if is_acceptable s remote m
    then (
      if contains_key m.message_id staged then 0 else 1,
      record s { staged_inbound = insert c (insert m.message_id m staged) s.staged_inbound },
    )
    else (0, s)

unfoldable pub stage_messages : ChatService → Text → Text → List ChatMessage → ℕ × ChatService
stage_messages s c remote [] = (0, s)
stage_messages s c remote (m ∷ messages) =
    let first = stage_message s c remote m in
    let rest = stage_messages first.1 c remote messages in (first.0 + rest.0, rest.1)

-- `apply_sync_request` up to where it publishes the timeline: the number of messages that are new, the ids of the
-- accepted deletions, and the service.
unfoldable pub sync_received : ChatService → Text → SyncRequest → ℕ × List Text × ChatService
sync_received s remote request =
    let c = request.conversation_id in
    let staged = stage_messages (apply_control_acks s c remote request) c remote request.messages in
    let receipts =
      if is_empty request.receipts
      then staged.1
      else apply_direct_receipts staged.1 c remote request.receipts in
    let deletions = apply_direct_deletions receipts c remote request.deletions in
    (
      staged.0,
      deletions.0,
      if is_empty deletions.0
          then deletions.1
          else spawn_control_ack deletions.1 c remote [] deletions.0 none,
    )

abbrev pub is_present : Text → List ChatMessage → Bool
is_present k messages = any (λ (m : ChatMessage). text_eq m.message_id k) messages

abbrev pub still_staged : List ChatMessage → Map ChatMessage → Map ChatMessage
still_staged messages staged = Map.retain (λ k _. not (is_present k messages)) staged

abbrev pub inbound_again : Text → Map ChatMessage → Map (Map ChatMessage) → Map (Map ChatMessage)
inbound_again c staged all = if is_empty staged then Map.remove c all else insert c staged all

unfoldable pub merge_staged_inbound :
    ChatService → Text → List ChatMessage → ChatService × List ChatMessage
merge_staged_inbound s c messages = elim (get c s.staged_inbound) [
  | none ↦ (s, messages)
  | some staged ↦
      let still = still_staged messages staged in
      (
        record s { staged_inbound = inbound_again c still s.staged_inbound },
        sort (messages ++ values still),
      )
]

-- The messages that `publish_timeline` makes of those that the document has.
unfoldable pub timeline : ChatService → ℤ → Text → List ChatMessage → ChatService × List ChatMessage
timeline s now c messages =
    let inbound = merge_staged_inbound s c messages in
    let merged = merge_staged_deletions inbound.0 c inbound.1 in
    (merged.0, keep_if (λ m. visible_under m s.retention now) merged.1)

-- `process_input` of a sync request, up to where it publishes the timeline: only a member of the conversation is
-- heard.
unfoldable pub process_sync_request : ChatService → Text → SyncRequest → ChatService
process_sync_request s remote request =
    if text_eq request.kind (text "sync-request")
      && request.version == 1
      && is_conversation_member s request.conversation_id remote
    then (sync_received s remote request).2
    else s
