-- ===== src/Chat/Control/Retry.antt =====
-- The timer of the reliable control queue of chat.rs, and what a start does with the queue.
pub mod Quiet
pub mod Start
use wire_app.Common.{
  ℕ, ◌+◌, Bool, true, false, not, ◌&&◌, ◌||◌, List, [], ◌∷◌, Option, none, some, Text, ltb, leb,
  ◌==◌, if◌then◌else◌, is_empty, keep_if, sat_add, u8_max,
}
use wire_app.Common.Int.{ℤ}
use wire_app.Common.Map.{Map, get, insert, alter}
use wire_app.Common.Map
use wire_app.Common.Set
use wire_app.Chat.Backoff.{chat_first_retry, delivery_retry_delay}
use wire_app.Chat.Schedule.{due_by}
use wire_app.Chat.Records.{StoredConversation, ControlRetry, PendingInviteDelivery}
use wire_app.Chat.Service.{
  ChatService, pending_invites, spawn, inflight, spawn_wake, other_members,
  conversation_peer_strings,
}
use wire_app.Chat.Control.{
  or_default, save_reliable_control, schedule_control_retry, conversation_has_pending_control,
}

-- An invitation of the current epoch is sent to the members that have not acknowledged it.
unfoldable pub send_pending_invites : ChatService → Text → ChatService
send_pending_invites s c = elim (get c s.conversations) [
  | none ↦ s
  | some stored ↦ elim (get c s.reliable_control.invites) [
    | none ↦ s
    | some invite ↦
        let peers = keep_if (λ m. Set.contains m invite.pending_peers) (other_members s stored) in
        if (invite.history_epoch == stored.conversation.history_epoch) && not (is_empty peers)
        then spawn (pending_invites c) s
        else s
  ]
]

abbrev pub control_attempted : ℕ → Text → ControlRetry → ControlRetry
control_attempted now c retry =
    let attempts = sat_add u8_max retry.attempts 1 in
    record {
      attempts = attempts;
      next_attempt = now + delivery_retry_delay c attempts (leb 5 attempts);
    }

abbrev pub control_postponed : ℕ → ControlRetry → ControlRetry
control_postponed now retry = record retry { next_attempt = now + chat_first_retry }

-- Attachments and deletions go with a wake.
unfoldable pub wake_for_control : ChatService → ℤ → Text → ChatService
wake_for_control s wall c =
    let control = s.reliable_control in
    if not (is_empty (or_default (get c control.attachments)))
      || not (is_empty (or_default (get c control.deletions)))
    then spawn_wake s wall c
    else s

unfoldable pub control_again : ChatService → ℕ → ℤ → Text → ChatService
unfolding wake_for_control send_pending_invites
control_again s now wall c =
    let woken = wake_for_control (send_pending_invites s c) wall c in
    record woken { control_retries = alter c (control_attempted now c) woken.control_retries }

-- The round of a conversation.
unfoldable pub retry_control : ℕ → ℤ → ChatService → Text → ChatService
unfolding control_again
retry_control now wall s c =
    if not (conversation_has_pending_control s c)
    then record s { control_retries = Map.remove c s.control_retries }
    else if ltb 0 (inflight c s)
    then record s { control_retries = alter c (control_postponed now) s.control_retries }
    else control_again s now wall c

abbrev pub control_time : ControlRetry → ℕ
control_time retry = retry.next_attempt

unfoldable pub retry_controls : ℕ → ℤ → List Text → ChatService → ChatService
unfolding retry_control
retry_controls now wall [] s = s
retry_controls now wall (c ∷ cs) s = retry_controls now wall cs (retry_control now wall s c)

unfoldable pub retry_due_controls : ChatService → ℕ → ℤ → ChatService
unfolding retry_controls
retry_due_controls s now wall =
    retry_controls now wall (due_by control_time now s.control_retries) s

abbrev pub is_current : ℕ → Option PendingInviteDelivery → Bool
is_current epoch none = false
is_current epoch (some invite) = invite.history_epoch == epoch

abbrev pub with_invite : ChatService → Text → ℕ → ChatService
with_invite s c epoch =
    let control = s.reliable_control in
    let invite : PendingInviteDelivery = record {
      history_epoch = epoch;
      pending_peers = conversation_peer_strings s c;
    } in
    record s { reliable_control = record control { invites = insert c invite control.invites } }

-- The loop over the conversations; the Boolean is `changed`.
unfoldable pub initialize_invites : Map StoredConversation → ChatService × Bool → ChatService × Bool
initialize_invites [] r = r
initialize_invites ((c, stored) ∷ m) (s, changed) =
    let epoch = stored.conversation.history_epoch in
    if is_current epoch (get c s.reliable_control.invites)
    then initialize_invites m (s, changed)
    else initialize_invites m (with_invite s c epoch, true)

abbrev pub saved_if_changed : ChatService × Bool → ChatService
saved_if_changed (s, changed) = if changed then save_reliable_control s else s

unfoldable pub initialize_invite_deliveries : ChatService → ChatService
unfolding initialize_invites
initialize_invite_deliveries s = saved_if_changed (initialize_invites s.conversations (s, false))

unfoldable pub restore_each : ℕ → List Text → ChatService → ChatService
unfolding schedule_control_retry
restore_each now [] s = s
restore_each now (c ∷ cs) s = restore_each now cs (schedule_control_retry s now c true)

unfoldable pub restore_control_retries : ChatService → ℕ → ChatService
unfolding restore_each
restore_control_retries s now =
    restore_each now (keep_if (conversation_has_pending_control s) (Map.keys s.conversations)) s
