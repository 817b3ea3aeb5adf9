-- ===== src/Chat/Invites/Resumed.antt =====
-- The deliveries that resume for a peer add tasks and leave the index and the reliable control state.
use wire_app.Common.{
  ℕ, ◌≡◌, refl, sym, ap, ◌∙◌, true, List, [], ◌∷◌, ◌++◌, some, arith, Text, text, ltb, ◌||◌,
  is_empty, append_assoc, append-nil, Option-cases, Bool-cases, inl, inr,
}
use wire_app.Common.Int.{ℤ}
use wire_app.Common.Map.{Map, get, contains_key}
use wire_app.Common.Map
use wire_app.Chat.Records.{StoredConversation, delivery, pending, ReliableControlIndex, WakePayload}
use wire_app.Chat.Service.{
  ChatService, Task, spawn_wake_with, spawn_wake, spawn_doc_sync, wake_payload_for, other_members,
  inflight, notify,
}
use wire_app.Chat.Control.{schedule_control_retry}
use wire_app.Chat.Delivery.{
  resume_each, resume_queued_deliveries, schedule_delivery_retry, pending_of,
}
use wire_app.Chat.Invites.{resume_conversations, schedule_controls, resume_deliveries_for_peer}

abbrev pub saved : ChatService → Map StoredConversation × ReliableControlIndex
saved s = (s.conversations, s.reliable_control)

-- Tasks are added, and the index and the reliable control state stay.
abbrev pub Extends : ChatService → ChatService → Type 0
Extends s t = (saved t ≡ saved s) × (more : List Task) × (t.tasks ≡ s.tasks ++ more)

abbrev outward : ChatService → (Map StoredConversation × ReliableControlIndex) × List Task
outward s = (saved s, s.tasks)

same-Extends : (s t : ChatService) → outward t ≡ outward s → Extends s t
same-Extends s t h = (
  ap (λ (p : (Map StoredConversation × ReliableControlIndex) × List Task). p.0) h,
  [],
  ap (λ (p : (Map StoredConversation × ReliableControlIndex) × List Task). p.1) h
      ∙ sym (append-nil s.tasks),
)

trans-Extends : (s t u : ChatService) → Extends s t → Extends t u → Extends s u
trans-Extends s t u (e, xs, h) (f, ys, k) =
    (f ∙ e, xs ++ ys, k ∙ (ap (λ l. l ++ ys) h ∙ append_assoc s.tasks xs ys))

spawn_doc_sync-Extends : (s : ChatService) (c : Text) → Extends s (spawn_doc_sync s c)
unfolding spawn_doc_sync
spawn_doc_sync-Extends s c = elim (Bool-cases (contains_key c s.conversations)) [
  | inl e ↦ rw e (refl, _, refl)
  | inr e ↦ rw e (same-Extends s s refl)
]

spawn_wake_with-Extends :
    (s : ChatService) (c : Text) (payload : WakePayload) → Extends s (spawn_wake_with s c payload)
unfolding spawn_wake_with
spawn_wake_with-Extends s c payload = elim (Option-cases (get c s.conversations)) [
  | inl e ↦ rw (e, spawn_wake_with) (same-Extends s s refl)
  | inr (stored, e) ↦ elim (Bool-cases (is_empty (other_members s stored))) [
    | inl f ↦ rw (e, spawn_wake_with) (rw f (same-Extends s s refl))
    | inr f ↦ rw (e, spawn_wake_with) (rw f (refl, _, refl))
  ]
]

resume_each-outward :
    (s : ChatService) (now : ℕ) (c : Text) (ms : List Text)
    → outward (resume_each s now c ms) ≡ outward s
unfolding resume_each schedule_delivery_retry
resume_each-outward s now c [] = refl
resume_each-outward s now c (m ∷ ms) =
    resume_each-outward
      (notify (delivery m pending (some (text "peer online; delivering")))
        (schedule_delivery_retry s now c m true))
      now c ms
    ∙ (ground arith)

resume_queued_deliveries-Extends :
    (s : ChatService) (now : ℕ) (wall : ℤ) (c : Text)
    → Extends s (resume_queued_deliveries s now wall c)
unfolding resume_queued_deliveries spawn_wake
resume_queued_deliveries-Extends s now wall c =
    let waiting = pending_of c s.pending_deliveries in
    let cleared = record s { wake_failures = Map.remove c s.wake_failures } in
    let resumed = resume_each cleared now c waiting in
    let woken = spawn_wake resumed wall c in
    elim (Bool-cases (is_empty waiting || contains_key c s.retry_state || ltb 0 (inflight c s))) [
      | inl e ↦ rw e (same-Extends s s refl)
      | inr e ↦ rw e (
          trans-Extends s resumed (spawn_doc_sync woken c)
            (same-Extends s resumed (resume_each-outward cleared now c waiting))
            (trans-Extends resumed woken (spawn_doc_sync woken c)
              (spawn_wake_with-Extends resumed c (wake_payload_for resumed wall c))
              (spawn_doc_sync-Extends woken c)))
    ]

resume_conversations-Extends :
    (s : ChatService) (now : ℕ) (wall : ℤ) (cs : List Text)
    → Extends s (resume_conversations s now wall cs)
unfolding resume_conversations
resume_conversations-Extends s now wall [] = same-Extends s s refl
resume_conversations-Extends s now wall (c ∷ cs) =
    let t = resume_queued_deliveries s now wall c in
    trans-Extends s t (resume_conversations t now wall cs)
      (resume_queued_deliveries-Extends s now wall c)
      (resume_conversations-Extends (resume_queued_deliveries s now wall c) now wall cs)

schedule_controls-outward :
    (s : ChatService) (now : ℕ) (cs : List Text) → outward (schedule_controls s now cs) ≡ outward s
unfolding schedule_controls schedule_control_retry
schedule_controls-outward s now [] = refl
schedule_controls-outward s now (c ∷ cs) =
    schedule_controls-outward (schedule_control_retry s now c true) now cs

schedule_controls-Extends :
    (s t : ChatService) (now : ℕ) (cs : List Text)
    → Extends s t
    → Extends s (schedule_controls t now cs)
schedule_controls-Extends s t now cs h =
    let u = schedule_controls t now cs in
    trans-Extends s t u h (same-Extends t u (schedule_controls-outward t now cs))

pub resume_deliveries_for_peer-Extends :
    (s : ChatService) (now : ℕ) (wall : ℤ) (peer : Text)
    → Extends s (resume_deliveries_for_peer s now wall peer)
unfolding resume_deliveries_for_peer
resume_deliveries_for_peer-Extends s now wall peer =
    schedule_controls-Extends s (resume_conversations s now wall _) now _
      (resume_conversations-Extends s now wall _)
