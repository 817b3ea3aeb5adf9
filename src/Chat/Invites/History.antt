-- ===== src/Chat/Invites/History.antt =====
-- A history that begins anew, and what an old invitation does.
use wire_app.Common.{
  ℕ, ◌<◌, ◌≡◌, refl, ap, ◌∙◌, Bool, true, false, not, List, [], ◌∷◌, ◌++◌, Option, none, some,
  arith, Text, text_eq, if◌then◌else◌, append_assoc,
}
use wire_app.Common.Int.{ℤ}
use wire_app.Common.Map.{Map, get, insert, get-insert, contains_key, is_some}
use wire_app.Common.Map.Ascending.{kept_by}
use wire_app.Common.Map
use wire_app.Common.Set.{Set}
use wire_app.Common.Set
use wire_app.Chat.Message.{ChatMessage}
use wire_app.Chat.Records.{
  ChatConversation, ChatInvite, StoredConversation, ReplicatedDeletion, PendingAttachmentDelivery,
  PendingDeletionDelivery, PendingInviteDelivery, ConversationRetry, ControlRetry, AttachmentRetry,
  ReliableControlIndex, WakePayload,
}
use wire_app.Chat.Service.{ChatService, Task, save_control, control_ack}
use wire_app.Chat.Control.{spawn_control_ack}
use wire_app.Chat.Invites.{
  Documents, InviteError, refused, addressed, decide, accept_invite, invite_accepted,
  process_invite, resume_deliveries_for_peer,
}
use wire_app.Chat.Invites.Resumed.{resume_deliveries_for_peer-Extends}

-- What a node keeps of conversations beside the index.
pub record LocalState : Type 0 where
  pub pending_deliveries : Map Text
  pub pending_outbound : Map ChatMessage
  pub staged_inbound : Map (Map ChatMessage)
  pub staged_deletions : Map (Map (Text × ReplicatedDeletion))
  pub attachments : Map (Map PendingAttachmentDelivery)
  pub deletions : Map (Map PendingDeletionDelivery)
  pub invites : Map PendingInviteDelivery
  pub control_retries : Map ControlRetry
  pub retry_state : Map ConversationRetry
  pub attachment_retries : Map AttachmentRetry
  pub local_deletions : Map Set

abbrev pub local_state : ChatService → LocalState
local_state s = record {
  pending_deliveries = s.pending_deliveries;
  pending_outbound = s.pending_outbound;
  staged_inbound = s.staged_inbound;
  staged_deletions = s.staged_deletions;
  attachments = s.reliable_control.attachments;
  deletions = s.reliable_control.deletions;
  invites = s.reliable_control.invites;
  control_retries = s.control_retries;
  retry_state = s.retry_state;
  attachment_retries = s.attachment_retries;
  local_deletions = s.local_deletions;
}

-- The entry of one conversation is gone, and those of the others are as they were.
abbrev pub Without : {V : Type 0} → Text → Map V → Map V → Type 0
Without c before after = (d : Text) → get d after ≡ (if text_eq c d then none else get d before)

abbrev pub belongs_to : Text → Option Text → Bool
belongs_to c none = false
belongs_to c (some d) = text_eq d c

abbrev pub not_of : Text → AttachmentRetry → Bool
not_of c retry = not (text_eq retry.conversation_id c)

-- What is left of each map, for every key: the message ids and the hashes of other conversations keep their entries.
pub record IsForgotten (c : Text) (before after : LocalState) : Type 0 where
  pub no_delivery :
      (m : Text)
      → get m after.pending_deliveries
        ≡ kept_by (λ d. not (text_eq d c)) (get m before.pending_deliveries)
  pub no_outbound :
      (m : Text)
      → get m after.pending_outbound ≡ (
          if belongs_to c (get m before.pending_deliveries)
          then none
          else get m before.pending_outbound)
  pub no_inbound : Without c before.staged_inbound after.staged_inbound
  pub no_deletion : Without c before.staged_deletions after.staged_deletions
  pub no_attachment_control : Without c before.attachments after.attachments
  pub no_deletion_control : Without c before.deletions after.deletions
  pub no_invite : Without c before.invites after.invites
  pub no_control_retry : Without c before.control_retries after.control_retries
  pub no_retry : Without c before.retry_state after.retry_state
  pub no_attachment_retry :
      (hash : Text)
      → get hash after.attachment_retries ≡ kept_by (not_of c) (get hash before.attachment_retries)
  pub no_local_deletion : Without c before.local_deletions after.local_deletions

decide_stale :
    (current : StoredConversation) (c : ChatConversation)
    → c.history_epoch < current.conversation.history_epoch
    → decide (some current) c ≡ (false, false)
unfolding decide
decide_stale current c h = ground arith

addressed-epoch :
    (remote : Text) (c : ChatConversation) → (addressed remote c).history_epoch ≡ c.history_epoch
unfolding addressed
addressed-epoch remote c = ground arith

-- What is sent for an accepted invitation.
abbrev pub acceptance : ℕ → WakePayload
acceptance epoch = record {
  messages = [];
  receipts = [];
  deletions = [];
  attachment_acks = [];
  deletion_acks = [];
  accepted_history_epoch = some epoch;
  attachments = [];
}

invite_accepted_tasks :
    (s : ChatService) (remote c : Text) (epoch : ℕ)
    → contains_key c s.conversations ≡ true
    → (invite_accepted s remote c epoch).tasks
      ≡ (s.tasks ++ save_control ∷ []) ++ control_ack c remote (acceptance epoch) ∷ []
unfolding invite_accepted spawn_control_ack
invite_accepted_tasks s remote c epoch h = rw h refl

invite_accepted_invites :
    (s : ChatService) (remote c : Text) (epoch : ℕ)
    → (invite_accepted s remote c epoch).reliable_control.invites
      ≡ insert c (record { history_epoch = epoch; pending_peers = [] }) s.reliable_control.invites
unfolding invite_accepted spawn_control_ack
invite_accepted_invites s remote c epoch = ground arith

invite_accepted_index :
    (s : ChatService) (remote c : Text) (epoch : ℕ)
    → (invite_accepted s remote c epoch).conversations ≡ s.conversations
unfolding invite_accepted spawn_control_ack
invite_accepted_index s remote c epoch = ground arith

accept_invite_stale :
    (s : ChatService) (docs : Documents) (remote : Text) (invite : ChatInvite)
    (current : StoredConversation)
    → refused s docs remote invite ≡ none
    → get invite.conversation.id s.conversations ≡ some current
    → invite.conversation.history_epoch < current.conversation.history_epoch
    → accept_invite s docs remote invite ≡ (none, s)
unfolding accept_invite
accept_invite_stale s docs remote invite current e f h =
    let stale : decide (get invite.conversation.id s.conversations)
          (addressed remote invite.conversation)
        ≡ (false, false) =
      rw f (
        decide_stale current (addressed remote invite.conversation)
          (omega (arith, addressed-epoch remote invite.conversation, h))) in
    rw (e, accept_invite) (rw stale refl)

process_invite_done :
    (s t : ChatService) (docs : Documents) (now : ℕ) (wall : ℤ) (remote : Text)
    (invite : ChatInvite)
    → accept_invite s docs remote invite ≡ (none, t)
    → process_invite s docs now wall remote invite ≡ (
      none,
      resume_deliveries_for_peer
          (invite_accepted t remote invite.conversation.id invite.conversation.history_epoch)
          now
          wall
          remote,
    )
unfolding process_invite
process_invite_done s t docs now wall remote invite h =
    rw (h, process_invite)
      (ap
        (λ (r : Option InviteError × ChatService). (
          none,
          resume_deliveries_for_peer
              (invite_accepted r.1 remote invite.conversation.id invite.conversation.history_epoch)
              now wall remote,
        ))
        h)

-- An invitation to an epoch that is over, from a member: it is processed without an error and changes no entry of the
-- index. The first tasks are to write the control state and to acknowledge that epoch to the
-- sender. But it also takes the place of the node's own invitation to the conversation, of a later epoch, that still
-- waits for members: afterwards no member is waited for. The invitations to other conversations wait as before.
pub process_invite_cancels :
    (s : ChatService) (docs : Documents) (now : ℕ) (wall : ℤ) (remote : Text) (invite : ChatInvite)
    (current : StoredConversation)
    → refused s docs remote invite ≡ none
    → get invite.conversation.id s.conversations ≡ some current
    → invite.conversation.history_epoch < current.conversation.history_epoch
    → let c = invite.conversation.id in
      let epoch = invite.conversation.history_epoch in
      let done = process_invite s docs now wall remote invite in
      (done.0 ≡ none)
      × (done.1.conversations ≡ s.conversations)
      × ((d : Text)
          → get d done.1.reliable_control.invites ≡ (
              if text_eq c d
              then some (record { history_epoch = epoch; pending_peers = [] })
              else get d s.reliable_control.invites))
      × (more : List Task) × (done.1.tasks
          ≡ s.tasks ++ save_control ∷ control_ack c remote (acceptance epoch) ∷ more)
process_invite_cancels s docs now wall remote invite current e f h =
    let c = invite.conversation.id in
    let epoch = invite.conversation.history_epoch in
    let accepted = invite_accepted s remote c epoch in
    let known : contains_key c s.conversations ≡ true = rw f refl in
    let (kept, more, tasks) = resume_deliveries_for_peer-Extends accepted now wall remote in
    rw
      (process_invite_done s s docs now wall remote invite
        (accept_invite_stale s docs remote invite current e f h))
      (
        refl,
        ap (λ (p : Map StoredConversation × ReliableControlIndex). p.0) kept
            ∙ invite_accepted_index s remote c epoch,
        λ d.
            ap (λ (p : Map StoredConversation × ReliableControlIndex). get d p.1.invites) kept
            ∙ (ap (get d) (invite_accepted_invites s remote c epoch)
                ∙ get-insert d c _ s.reliable_control.invites),
        more,
        tasks
            ∙ (ap (λ l. l ++ more) (invite_accepted_tasks s remote c epoch known)
                ∙ (append_assoc (s.tasks ++ save_control ∷ [])
                      (control_ack c remote (acceptance epoch) ∷ []) more
                    ∙ append_assoc s.tasks (save_control ∷ [])
                        (control_ack c remote (acceptance epoch) ∷ more))),
      )
