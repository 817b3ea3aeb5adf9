-- ===== src/Chat/Invites.antt =====
-- Invitations: which are accepted, which replica of a conversation a node keeps, and what the node forgets when
-- the history of a conversation begins anew.
pub mod Replica
pub mod Convergence
pub mod History
pub mod Resumed
mod Tests
use wire_app.Common.{
  ℕ, Bool, true, false, not, ◌&&◌, ◌||◌, List, [], ◌∷◌, ◌++◌, Option, none, some, Text, text,
  text_eq, text_lt, ltb, ◌==◌, if◌then◌else◌, any, length, is_empty,
}
use wire_app.Common.Int.{ℤ}
use wire_app.Common.Map.{Map, get, contains_key, is_some, values}
use wire_app.Common.Map
use wire_app.Common.Set.{Set}
use wire_app.Chat.Message.{ChatMessage, MessageDeletion, everyone, validate}
use wire_app.Chat.Records.{
  ChatConversation, ConversationKind, direct, group, StoredConversation, ChatInvite,
  PendingInviteDelivery, peer_identity, AttachmentRetry, WakePayload, ConversationRetry,
}
use wire_app.Chat.Service.{
  ChatService, Task, spawn, notify, save_index, save_local_deletions, drop_document, insert_message,
  insert_replicated_deletion, control_ack,
}
use wire_app.Chat.Control.{
  save_reliable_control, spawn_control_ack, conversation_has_pending_control,
  schedule_control_retry,
}
use wire_app.Chat.Delivery.{resume_queued_deliveries}
use wire_app.Chat.Document.{load_messages_query}
use wire_app.Chat.Attachments.{Answers}
use wire_app.Chat.Publish.{open_and_publish}

-- What the document library and the disk answer while an invitation is dealt with: whether a text is a ticket, which
-- calls end well, and in `answers` what a conversation's document holds and what opening it meets.
pub record Documents : Type 0 where
  pub is_ticket : Text → Bool
  pub answers : Answers
  pub index_saved : Bool
  pub inserted : ChatMessage → Bool
  pub deletion_inserted : Text → Bool

pub data InviteError : Type 0 where
  unsupported_version exceeds_limits wrong_membership inconsistent_members invalid_ticket :
      InviteError
  index_not_saved not_opened : InviteError

unfoldable pub direct_conversation_id : Text → Text → Text
direct_conversation_id a b =
    if text_lt b a
    then text "dm/" ++ (b ++ (text "/" ++ a))
    else text "dm/" ++ (a ++ (text "/" ++ b))

abbrev is_direct : ConversationKind → Bool
is_direct (direct peer) = true
is_direct group = false

-- The checks of `accept_invite`.
unfoldable pub refused : ChatService → Documents → Text → ChatInvite → Option InviteError
refused s docs remote invite =
    let conversation = invite.conversation in
    if not (invite.version == 1)
    then some unsupported_version
    else if ltb 512 (length conversation.title) || ltb 128 (length conversation.members)
    then some exceeds_limits
    else if not (any (λ id. text_eq id s.our_node_id) conversation.members)
        || not (any (λ id. text_eq id remote) conversation.members)
    then some wrong_membership
    else if is_direct conversation.kind
        && (not (text_eq conversation.id (direct_conversation_id s.our_node_id remote))
            || not (length conversation.members == 2))
    then some inconsistent_members
    else if not (docs.is_ticket invite.ticket)
    then some invalid_ticket
    else none

-- A direct conversation is stored with the sender as its peer.
unfoldable pub addressed : Text → ChatConversation → ChatConversation
addressed remote conversation =
    if is_direct conversation.kind
    then record conversation { kind = direct remote }
    else conversation

-- `(replace, history_reset)`.
unfoldable pub decide : Option StoredConversation → ChatConversation → Bool × Bool
decide none invited = (true, false)
decide (some current) invited =
    if ltb current.conversation.history_epoch invited.history_epoch
    then (true, true)
    else if ltb invited.history_epoch current.conversation.history_epoch
        || text_eq invited.document_id current.conversation.document_id
    then (false, false)
    else (text_lt invited.document_id current.conversation.document_id, false)

abbrev pub remove_each : Set → Map ChatMessage → Map ChatMessage
remove_each [] m = m
remove_each (k ∷ ks) m = remove_each ks (Map.remove k m)

abbrev pub ids_of : Text → Map Text → Set
ids_of c [] = []
ids_of c ((m, pending_conversation) ∷ pending) =
    let rest = ids_of c pending in if text_eq pending_conversation c then m ∷ rest else rest

unfoldable pub forget_conversation_local_state : ChatService → Text → ChatService
forget_conversation_local_state s c =
    let control = s.reliable_control in
    let controls_removed =
      contains_key c control.attachments
      || contains_key c control.deletions
      || contains_key c control.invites in
    let forgotten = record s {
      pending_deliveries =
          Map.retain (λ m pending_conversation. not (text_eq pending_conversation c))
            s.pending_deliveries;
      pending_outbound = remove_each (ids_of c s.pending_deliveries) s.pending_outbound;
      staged_inbound = Map.remove c s.staged_inbound;
      staged_deletions = Map.remove c s.staged_deletions;
      reliable_control = record control {
        attachments = Map.remove c control.attachments;
        deletions = Map.remove c control.deletions;
        invites = Map.remove c control.invites;
      };
      control_retries = Map.remove c s.control_retries;
      retry_state = Map.remove c s.retry_state;
      attachment_retries =
          Map.retain (λ hash (retry : AttachmentRetry). not (text_eq retry.conversation_id c))
            s.attachment_retries;
      local_deletions = Map.remove c s.local_deletions;
    } in
    let saved = if controls_removed then save_reliable_control forgotten else forgotten in
    if contains_key c s.local_deletions then spawn save_local_deletions saved else saved

abbrev is_everyone : Option MessageDeletion → Bool
is_everyone (some everyone) = true
is_everyone o = false

-- `insert_message` refuses an invalid message and one of another author; a deletion goes with its message.
unfoldable pub migrate : Documents → Text → List ChatMessage → ChatService → ChatService
migrate docs c [] s = s
migrate docs c (m ∷ messages) s =
    let inserted = spawn (insert_message c m) s in
    let deleted =
      if is_everyone m.deletion && docs.deletion_inserted m.message_id
      then spawn (insert_replicated_deletion c m.message_id) inserted
      else inserted in
    migrate docs c messages (
      if not (is_some (validate s.externals m))
        && text_eq m.author_id s.our_node_id
        && docs.inserted m
      then deleted
      else s)

abbrev or_none : Option (List ChatMessage) → List ChatMessage
or_none none = []
or_none (some messages) = messages

abbrev pub migrated : ChatService → Documents → Bool → Option StoredConversation → List ChatMessage
migrated s docs true current = []
migrated s docs false none = []
migrated s docs false (some stored) =
    or_none (load_messages_query docs.answers.library s stored none)

-- The document that was replaced is dropped.
unfoldable pub drop_replaced : Option StoredConversation → Text → ChatService → ChatService
drop_replaced none document s = s
drop_replaced (some old) document s =
    if text_eq old.conversation.document_id document
    then s
    else spawn (drop_document old.conversation.document_id) s

abbrev has_identity : ChatInvite → Bool
has_identity invite =
    is_some invite.inviter_display_name
    || is_some invite.inviter_avatar_hash
    || is_some invite.inviter_accent_color

-- The state is forgotten where the history begins anew, and the invited replica stands in the index.
unfoldable pub index_invite : ChatService → ChatConversation → Text → Bool → ChatService
index_invite s conversation ticket history_reset =
    let start = if history_reset then forget_conversation_local_state s conversation.id else s in
    spawn save_index (record start {
      conversations =
          Map.insert conversation.id (record { conversation = conversation; ticket = ticket })
            start.conversations;
      subscriptions = Map.remove conversation.id start.subscriptions;
    })

unfoldable pub tell_identity : Text → ChatInvite → ChatService → ChatService
tell_identity remote invite s =
    if has_identity invite
    then notify
        (peer_identity remote invite.inviter_display_name invite.inviter_avatar_hash
          invite.inviter_accent_color)
        s
    else s

-- The part of `accept_invite` behind the decision to replace.
unfoldable pub import_invite :
    ChatService → Documents → Text → ChatInvite → Bool → Option InviteError × ChatService
import_invite s docs remote invite history_reset =
    let conversation = addressed remote invite.conversation in
    let current = get conversation.id s.conversations in
    let indexed = index_invite s conversation invite.ticket history_reset in
    let opened =
      open_and_publish (drop_replaced current conversation.document_id indexed) docs.answers
        conversation.id in
    if not docs.index_saved
    then (some index_not_saved, indexed)
    else if not opened.0
    then (some not_opened, opened.1)
    else (
      none,
      migrate docs conversation.id (migrated s docs history_reset current)
          (tell_identity remote invite opened.1),
    )

unfoldable pub accept_invite :
    ChatService → Documents → Text → ChatInvite → Option InviteError × ChatService
accept_invite s docs remote invite =
    let decision =
      decide (get invite.conversation.id s.conversations) (addressed remote invite.conversation) in
    elim (refused s docs remote invite) [
      | some e ↦ (some e, s)
      | none ↦ if decision.0 then import_invite s docs remote invite decision.1 else (none, s)
    ]

-- The part of `process_invite` that notes and acknowledges an accepted invitation.
unfoldable pub invite_accepted : ChatService → Text → Text → ℕ → ChatService
invite_accepted s remote c epoch =
    let control = s.reliable_control in
    let saved = save_reliable_control (record s {
      reliable_control = record control {
        invites =
            Map.insert c (record { history_epoch = epoch; pending_peers = [] }) control.invites;
      };
    }) in
    spawn_control_ack saved c remote [] [] (some epoch)

abbrev has_member : Text → StoredConversation → Bool
has_member peer stored = any (λ member. text_eq member peer) stored.conversation.members

abbrev ids_with : (Text → StoredConversation → Bool) → Map StoredConversation → List Text
ids_with p [] = []
ids_with p ((id, stored) ∷ m) = let rest = ids_with p m in if p id stored then id ∷ rest else rest

unfoldable pub resume_conversations : ChatService → ℕ → ℤ → List Text → ChatService
resume_conversations s now wall [] = s
resume_conversations s now wall (c ∷ cs) =
    resume_conversations (resume_queued_deliveries s now wall c) now wall cs

unfoldable pub schedule_controls : ChatService → ℕ → List Text → ChatService
schedule_controls s now [] = s
schedule_controls s now (c ∷ cs) = schedule_controls (schedule_control_retry s now c true) now cs

unfoldable pub resume_deliveries_for_peer : ChatService → ℕ → ℤ → Text → ChatService
resume_deliveries_for_peer s now wall peer =
    let waits = λ (id : Text). any (λ c. text_eq c id) (values s.pending_deliveries) in
    let resumed =
      resume_conversations s now wall
        (ids_with (λ id stored. has_member peer stored && waits id) s.conversations) in
    schedule_controls resumed now (
      ids_with (λ id stored. has_member peer stored && conversation_has_pending_control resumed id)
        resumed.conversations)

-- `process_input` of an invitation.
unfoldable pub process_invite :
    ChatService → Documents → ℕ → ℤ → Text → ChatInvite → Option InviteError × ChatService
process_invite s docs now wall remote invite =
    let result = accept_invite s docs remote invite in
    elim result.0 [
      | some e ↦ (some e, result.1)
      | none ↦ (
        none,
        resume_deliveries_for_peer
            (invite_accepted result.1 remote invite.conversation.id
              invite.conversation.history_epoch)
            now wall remote,
      )
    ]
