-- ===== src/Chat/Delivery/Dialling.antt =====
-- The retry timer and the return of a peer dial only where no wake is under way, and the end of a
-- wake dials never.
use wire_app.Common.{
  ℕ, ◌-◌, ◌≡◌, refl, ap, ◌∙◌, Bool, true, false, ◌||◌, List, [], ◌∷◌, some, arith, sat_add, u8_max,
  Text, text, text_eq, text_eq_iff, ltb, leb, if◌then◌else◌, is_empty, Bool-cases, Option-cases,
  inl, inr,
}
use wire_app.Common.Int.{ℤ}
use wire_app.Common.Map.{get, insert, alter, get-insert, get-remove, contains_key}
use wire_app.Common.Map
use wire_app.Chat.Records.{ConversationRetry, queued}
use wire_app.Chat.Service.{
  ChatService, or_zero, inflight, spawn_wake, spawn_doc_sync, wake_payload_for,
}
use wire_app.Chat.Delivery.{
  due, attempted, later, chat_queue_after_failures, postponed, conversation_is_queued, notify_each,
  probe_again, retry_one, retry_each, retry_due_deliveries, schedule_each, wake_ended, wake_reached,
  wake_missed, after_wake, apply_wake_finished, pending_of, resume_each, resume_queued_deliveries,
}
use wire_app.Chat.Delivery.Stacking.{
  wakes, Same, Same-refl, Same-trans, Same-notify_each, Same-schedule_each, Same-spawn_doc_sync,
  Same-resume_each, Dial, kept, Same-Dial, Dial-trans, spawn_wake_with-Dial,
}

spawn_wake-Dial :
    (s : ChatService) (wall : ℤ) (c k : Text) → inflight c s ≡ 0 → Dial k s (spawn_wake s wall c)
unfolding spawn_wake
spawn_wake-Dial s wall c k h = spawn_wake_with-Dial s c k (wake_payload_for s wall c) h

probe_again-Dial :
    (s : ChatService) (now : ℕ) (wall : ℤ) (c k : Text) (r : ConversationRetry)
    → inflight c s ≡ 0
    → Dial k s (probe_again s now wall c r)
unfolding probe_again
probe_again-Dial s now wall c k r h = elim (Bool-cases (conversation_is_queued s c)) [
  | inl e ↦ rw e (Dial-trans (spawn_wake-Dial s wall c k h) (kept refl refl))
  | inr e ↦ rw e (
      Dial-trans (spawn_wake-Dial s wall c k h) (
        Same-Dial k (
          Same-trans (Same-spawn_doc_sync (spawn_wake s wall c) c) (
            Same-trans
              {t = record (spawn_doc_sync (spawn_wake s wall c) c) {
                retry_state =
                    alter c (attempted now c false)
                      (spawn_doc_sync (spawn_wake s wall c) c).retry_state;
              }}
              (record { flying = refl; spawned = λ j. refl }) (Same-notify_each _ _ _ _)))))
]

scheduled-Dial :
    (s : ChatService) (now : ℕ) (wall : ℤ) (c k : Text) (r : ConversationRetry)
    → Dial k s (
        if is_empty r.messages
        then record s { retry_state = Map.remove c s.retry_state }
        else if ltb 0 (inflight c s)
        then record s { retry_state = alter c (postponed now) s.retry_state }
        else probe_again s now wall c r)
scheduled-Dial s now wall c k r = elim (Bool-cases (is_empty r.messages)) [
  | inl e ↦ rw e (kept refl refl)
  | inr e ↦ rw e (elim (Bool-cases (ltb 0 (inflight c s))) [
    | inl f ↦ rw f (kept refl refl)
    | inr f ↦ rw f (probe_again-Dial s now wall c k r (ground arith))
  ])
]

retry_one-Dial :
    (s : ChatService) (now : ℕ) (wall : ℤ) (c k : Text) → Dial k s (retry_one s now wall c)
unfolding retry_one
retry_one-Dial s now wall c k = elim (Option-cases (get c s.retry_state)) [
  | inl e ↦ rw (e, retry_one) (kept refl refl)
  | inr (r, e) ↦ rw (e, retry_one) (scheduled-Dial s now wall c k r)
]

retry_each-Dial :
    (s : ChatService) (now : ℕ) (wall : ℤ) (cs : List Text) (k : Text)
    → Dial k s (retry_each s now wall cs)
unfolding retry_each
retry_each-Dial s now wall [] k = kept refl refl
retry_each-Dial s now wall (c ∷ cs) k =
    Dial-trans (retry_one-Dial s now wall c k)
      (retry_each-Dial (retry_one s now wall c) now wall cs k)

resumed-Dial :
    (s : ChatService) (now : ℕ) (wall : ℤ) (c k : Text) (ms : List Text)
    → inflight c s ≡ 0
    → Dial k s (spawn_doc_sync (spawn_wake (resume_each s now c ms) wall c) c)
resumed-Dial s now wall c k ms h =
    let told = resume_each s now c ms in
    let same = Same-resume_each s now c ms in
    Dial-trans
      (Dial-trans (Same-Dial k same)
        (spawn_wake-Dial told wall c k (ap (λ m. or_zero (get c m)) same.flying ∙ h)))
      (Same-Dial k (Same-spawn_doc_sync (spawn_wake told wall c) c))

pub resume_queued_deliveries-Dial :
    (s : ChatService) (now : ℕ) (wall : ℤ) (c k : Text)
    → Dial k s (resume_queued_deliveries s now wall c)
unfolding resume_queued_deliveries
resume_queued_deliveries-Dial s now wall c k =
    elim (Bool-cases (
      is_empty (pending_of c s.pending_deliveries)
      || contains_key c s.retry_state
      || ltb 0 (inflight c s))) [
        | inl e ↦ rw e (kept refl refl)
        | inr e ↦ rw e (
            Dial-trans {t = record s { wake_failures = Map.remove c s.wake_failures }}
              (kept refl refl)
              (resumed-Dial (record s { wake_failures = Map.remove c s.wake_failures }) now wall c k
                (pending_of c s.pending_deliveries) (ground arith)))
      ]

-- After the first lines nothing that `apply_wake_finished` does starts or ends a wake.
Same-reached :
    (s : ChatService) (now : ℕ) (c : Text) (ms : List Text) → Same s (wake_reached s now c ms)
unfolding wake_reached
Same-reached s now c ms =
    let forgotten = record s { wake_failures = Map.remove c s.wake_failures } in
    Same-trans {t = record s { wake_failures = Map.remove c s.wake_failures }}
      (record { flying = refl; spawned = λ k. refl })
      (Same-trans (Same-schedule_each forgotten now c ms)
        (Same-spawn_doc_sync (schedule_each forgotten now c ms) c))

Same-told :
    (s : ChatService) (ms : List Text) (offline : Bool)
    → Same s (if offline then notify_each queued (some (text "waiting for peer")) ms s else s)
Same-told s ms true = Same-notify_each queued (some (text "waiting for peer")) ms s
Same-told s ms false = Same-refl s

Same-armed :
    (s t : ChatService) (now : ℕ) (c : Text) (ms : List Text) (offline : Bool)
    → Same s t
    → Same s (
        let armed = schedule_each t now c ms in
        record armed { retry_state = alter c (later now c offline) armed.retry_state })
Same-armed s t now c ms offline h =
    Same-trans h
      (Same-trans (Same-schedule_each t now c ms) (record { flying = refl; spawned = λ k. refl }))

Same-missed :
    (s : ChatService) (now : ℕ) (c : Text) (ms : List Text) → Same s (wake_missed s now c ms)
unfolding wake_missed
Same-missed s now c ms =
    let failures = sat_add u8_max (or_zero (get c s.wake_failures)) 1 in
    let counted = record s { wake_failures = insert c failures s.wake_failures } in
    let offline = leb chat_queue_after_failures failures in
    let told : Same s (
        if offline
        then notify_each queued (some (text "waiting for peer")) ms counted
        else counted) =
      Same-trans {t = counted} (record { flying = refl; spawned = λ k. refl })
        (Same-told counted ms offline) in
    elim (Bool-cases (ltb 0 (inflight c s))) [
      | inl e ↦ rw e told
      | inr e ↦ rw e (Same-armed s _ now c ms offline told)
    ]

Same-after_wake :
    (s : ChatService) (now : ℕ) (c : Text) (reached : Bool) (ms : List Text)
    → Same s (after_wake s now c reached ms)
unfolding after_wake
Same-after_wake s now c reached [] = Same-refl s
Same-after_wake s now c true (m ∷ ms) = Same-reached s now c (m ∷ ms)
Same-after_wake s now c false (m ∷ ms) = Same-missed s now c (m ∷ ms)

-- One wake less for the conversation, if there was one.
inflight-wake_ended :
    (s : ChatService) (c k : Text)
    → inflight k (wake_ended s c) ≡ (if text_eq c k then inflight k s - 1 else inflight k s)
unfolding wake_ended
inflight-wake_ended s c k = elim (Option-cases (get c s.wake_inflight)) [
  | inl e ↦ rw (e, wake_ended) (ground (arith, text_eq_iff c k))
  | inr (n, e) ↦
      rw (e, wake_ended)
        (ground (
          arith,
          text_eq_iff c k,
          get-remove k c s.wake_inflight,
          get-insert k c (n - 1) s.wake_inflight,
        ))
]

tasks-wake_ended : (s : ChatService) (c : Text) → (wake_ended s c).tasks ≡ s.tasks
unfolding wake_ended
tasks-wake_ended s c = ground arith

pub apply_wake_finished-inflight :
    (s : ChatService) (now : ℕ) (c : Text) (reached : Bool) (k : Text)
    → inflight k (apply_wake_finished s now c reached)
      ≡ (if text_eq c k then inflight k s - 1 else inflight k s)
unfolding apply_wake_finished
apply_wake_finished-inflight s now c reached k =
    ap (λ m. or_zero (get k m))
      (Same-after_wake (wake_ended s c) now c reached
        (pending_of c (wake_ended s c).pending_deliveries)).flying
    ∙ inflight-wake_ended s c k

pub apply_wake_finished-wakes :
    (s : ChatService) (now : ℕ) (c : Text) (reached : Bool) (k : Text)
    → wakes k (apply_wake_finished s now c reached).tasks ≡ wakes k s.tasks
unfolding apply_wake_finished
apply_wake_finished-wakes s now c reached k =
    (Same-after_wake (wake_ended s c) now c reached
        (pending_of c (wake_ended s c).pending_deliveries)).spawned
      k
    ∙ ap (wakes k) (tasks-wake_ended s c)

pub retry_due_deliveries-Dial :
    (s : ChatService) (now : ℕ) (wall : ℤ) (k : Text) → Dial k s (retry_due_deliveries s now wall)
unfolding retry_due_deliveries
retry_due_deliveries-Dial s now wall k = retry_each-Dial s now wall (due now s.retry_state) k
