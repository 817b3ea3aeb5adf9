-- ===== src/Chat/Control.antt =====
-- The reliable control queue of chat.rs: attachments, deletions and invitations wait for each member
-- of a conversation until that member has acknowledged them.
pub mod Acks
pub mod Retry
mod Tests
use wire_app.Common.{
  ℕ, ◌+◌, Bool, true, false, not, ◌&&◌, ◌||◌, List, [], ◌∷◌, Option, none, some, Text, text_eq, ltb,
  leb, ◌==◌, if◌then◌else◌, is_empty, any, sat_add, u8_max,
}
use wire_app.Common.Int.{ℤ}
use wire_app.Common.Map.{Map, get, insert, alter, contains_key, values}
use wire_app.Common.Map
use wire_app.Common.Set.{Set}
use wire_app.Common.Set
use wire_app.Chat.Message.{ChatMessage, ChatAttachment, AttachmentKind, is_klipy_gif}
use wire_app.Chat.Backoff.{chat_first_retry, delivery_retry_delay}
use wire_app.Chat.Records.{
  ReliableControlIndex, ReplicatedDeletion, ControlRetry, PendingAttachmentDelivery,
  PendingDeletionDelivery, PendingInviteDelivery, SyncRequest, WakePayload,
}
use wire_app.Chat.Service.{
  ChatService, save_control, control_ack, spawn, inflight, spawn_wake, conversation_peer_strings,
}

abbrev pub save_reliable_control : ChatService → ChatService
save_reliable_control s = spawn save_control s

abbrev control_or_new : ℕ → Option ControlRetry → ControlRetry
control_or_new now none = record { attempts = 0; next_attempt = now + chat_first_retry }
control_or_new now (some retry) = retry

unfoldable pub schedule_control_retry : ChatService → ℕ → Text → Bool → ChatService
schedule_control_retry s now c immediate =
    let retry = control_or_new now (get c s.control_retries) in
    let retry' = if immediate then record retry { next_attempt = now } else retry in
    record s { control_retries = insert c retry' s.control_retries }

abbrev pub waits_for : {V : Type 0} → (V → Set) → Option (Map V) → Bool
waits_for peers none = false
waits_for peers (some entries) = any (λ e. not (is_empty (peers e))) (values entries)

abbrev invite_waits : Option PendingInviteDelivery → Bool
invite_waits none = false
invite_waits (some invite) = not (is_empty invite.pending_peers)

unfoldable pub conversation_has_pending_control : ChatService → Text → Bool
conversation_has_pending_control s c =
    waits_for (λ (e : PendingAttachmentDelivery). e.pending_peers)
      (get c s.reliable_control.attachments)
    || waits_for (λ (e : PendingDeletionDelivery). e.pending_peers)
        (get c s.reliable_control.deletions)
    || invite_waits (get c s.reliable_control.invites)

abbrev pub or_default : {V : Type 0} → Option (Map V) → Map V
or_default none = []
or_default (some m) = m

abbrev is_file_offer : AttachmentKind → Bool
is_file_offer AttachmentKind.file_offer = true
is_file_offer k = false

-- The loop over the attachments of a message.
unfoldable pub insert_attachments :
    ChatMessage
    → Set
    → List ChatAttachment
    → Map PendingAttachmentDelivery
    → Map PendingAttachmentDelivery
insert_attachments message peers [] entries = entries
insert_attachments message peers (a ∷ attachments) entries =
    let skipped = insert_attachments message peers attachments entries in
    let added = insert_attachments message peers attachments (
      insert a.hash
        (record {
          message_id = message.message_id;
          hash = a.hash;
          byte_len = a.byte_len;
          attachment_kind = a.kind;
          sent_at = message.sent_at;
          pending_peers = peers;
        })
        entries) in
    if is_file_offer a.kind || is_klipy_gif a then skipped else added

unfoldable pub register_attachment_deliveries : ChatService → ℕ → Text → ChatMessage → ChatService
register_attachment_deliveries s now c message =
    let peers = conversation_peer_strings s c in
    let control = s.reliable_control in
    let entries =
      insert_attachments message peers message.attachments
        (or_default (get c control.attachments)) in
    let registered = record s {
      reliable_control = record control { attachments = insert c entries control.attachments };
    } in
    if is_empty peers || is_empty message.attachments
    then s
    else schedule_control_retry (save_reliable_control registered) now c false

unfoldable pub register_deletion_delivery :
    ChatService → ℕ → Text → ReplicatedDeletion → ChatService
register_deletion_delivery s now c deletion =
    let peers = conversation_peer_strings s c in
    let control = s.reliable_control in
    let entries =
      insert deletion.message_id (record { deletion = deletion; pending_peers = peers })
        (or_default (get c control.deletions)) in
    let registered = record s {
      reliable_control = record control { deletions = insert c entries control.deletions };
    } in
    if is_empty peers
    then s
    else schedule_control_retry (save_reliable_control registered) now c false

unfoldable pub register_invite_delivery : ChatService → ℕ → Text → ChatService
register_invite_delivery s now c = elim (get c s.conversations) [
  | none ↦ s
  | some stored ↦
      let control = s.reliable_control in
      let invite : PendingInviteDelivery = record {
        history_epoch = stored.conversation.history_epoch;
        pending_peers = conversation_peer_strings s c;
      } in
      schedule_control_retry
        (save_reliable_control (record s {
          reliable_control = record control { invites = insert c invite control.invites };
        }))
        now c true
]

-- `get_mut` and the removal of a peer from the entry, for each acknowledged key.
unfoldable pub acknowledge :
    {V : Type 0} → (V → Set) → (Set → V → V) → Text → List Text → Map V → Map V
acknowledge peers set remote [] entries = entries
acknowledge peers set remote (k ∷ ks) entries =
    acknowledge peers set remote ks (alter k (λ e. set (Set.remove remote (peers e)) e) entries)

-- Whether one of these removals removes the peer: the first that meets an entry decides for it.
abbrev had : {V : Type 0} → (V → Set) → Text → Option V → Bool
had peers remote none = false
had peers remote (some e) = Set.contains remote (peers e)

unfoldable pub acknowledged : {V : Type 0} → (V → Set) → Text → List Text → Map V → Bool
acknowledged peers remote ks entries = any (λ k. had peers remote (get k entries)) ks

unfoldable pub kept : {V : Type 0} → (V → Set) → Map V → Map V
kept peers entries = Map.retain (λ _ e. not (is_empty (peers e))) entries

abbrev pub attachment_peers : PendingAttachmentDelivery → Set
attachment_peers e = e.pending_peers

abbrev pub set_attachment_peers : Set → PendingAttachmentDelivery → PendingAttachmentDelivery
set_attachment_peers peers e = record e { pending_peers = peers }

abbrev pub deletion_peers : PendingDeletionDelivery → Set
deletion_peers e = e.pending_peers

abbrev pub set_deletion_peers : Set → PendingDeletionDelivery → PendingDeletionDelivery
set_deletion_peers peers e = record e { pending_peers = peers }

unfoldable pub ack_attachments :
    Text → List Text → Map PendingAttachmentDelivery → Map PendingAttachmentDelivery
ack_attachments remote ks entries =
    kept attachment_peers (acknowledge attachment_peers set_attachment_peers remote ks entries)

unfoldable pub ack_deletions :
    Text → List Text → Map PendingDeletionDelivery → Map PendingDeletionDelivery
ack_deletions remote ks entries =
    kept deletion_peers (acknowledge deletion_peers set_deletion_peers remote ks entries)

abbrev is_epoch : Option ℕ → ℕ → Bool
is_epoch none epoch = false
is_epoch (some e) epoch = epoch == e

unfoldable pub ack_invite : Option ℕ → Text → PendingInviteDelivery → PendingInviteDelivery
ack_invite accepted remote invite =
    if is_epoch accepted invite.history_epoch
    then record invite { pending_peers = Set.remove remote invite.pending_peers }
    else invite

abbrev invite_acknowledged : Option ℕ → Text → Option PendingInviteDelivery → Bool
invite_acknowledged accepted remote none = false
invite_acknowledged accepted remote (some invite) =
    is_epoch accepted invite.history_epoch && Set.contains remote invite.pending_peers

unfoldable pub apply_control_acks : ChatService → Text → Text → SyncRequest → ChatService
apply_control_acks s c remote request =
    let control = s.reliable_control in
    let changed =
      acknowledged attachment_peers remote request.attachment_acks
        (or_default (get c control.attachments))
      || acknowledged deletion_peers remote request.deletion_acks
          (or_default (get c control.deletions))
      || invite_acknowledged request.accepted_history_epoch remote (get c control.invites) in
    let acked = record s {
      reliable_control = record control {
        attachments = alter c (ack_attachments remote request.attachment_acks) control.attachments;
        deletions = alter c (ack_deletions remote request.deletion_acks) control.deletions;
        invites = alter c (ack_invite request.accepted_history_epoch remote) control.invites;
      };
    } in
    let saved = save_reliable_control acked in
    if not changed
    then acked
    else if conversation_has_pending_control saved c
    then saved
    else record saved { control_retries = Map.remove c saved.control_retries }

-- The acknowledgement goes out on a task of its own.
unfoldable pub spawn_control_ack :
    ChatService → Text → Text → List Text → List Text → Option ℕ → ChatService
spawn_control_ack s c peer attachment_acks deletion_acks accepted_history_epoch =
    let payload : WakePayload = record {
      messages = [];
      receipts = [];
      deletions = [];
      attachment_acks = attachment_acks;
      deletion_acks = deletion_acks;
      accepted_history_epoch = accepted_history_epoch;
      attachments = [];
    } in
    if contains_key c s.conversations then spawn (control_ack c peer payload) s else s
