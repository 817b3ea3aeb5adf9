-- ===== src/Chat/Delivery/Misses.antt =====
-- Failed probes: how they are counted, and when a conversation counts as offline.
use wire_app.Common.{
  ℕ, ◌≤◌, ◌≡◌, refl, ap, ◌∙◌, Bool, true, false, not, ◌&&◌, List, [], ◌∷◌, Option, none, some,
  arith, Text, text, text_eq, text_eq_iff, text_eq_refl, leb, ltb, if◌then◌else◌, is_empty, length,
  sat_add, u8_max, Bool-cases, inl, inr,
}
use wire_app.Common.Map.{get, insert, alter, get-insert, get-remove}
use wire_app.Common.Map
use wire_app.Chat.Records.{DeliveryState, queued, delivery}
use wire_app.Chat.Service.{ChatService, or_zero, inflight, notify, spawn_doc_sync}
use wire_app.Chat.Delivery.{
  chat_queue_after_failures, later, conversation_is_queued, notify_each, schedule_delivery_retry,
  schedule_each, pending_of, wake_ended, wake_reached, wake_missed, after_wake, apply_wake_finished,
}

-- Neither the counts of failures nor the waiting messages change.
record Steady (s t : ChatService) : Type 0 where
  failures : t.wake_failures ≡ s.wake_failures
  waiting : t.pending_deliveries ≡ s.pending_deliveries

Steady-refl : (s : ChatService) → Steady s s
Steady-refl s = record { failures = refl; waiting = refl }

Steady-trans : {s t u : ChatService} → Steady s t → Steady t u → Steady s u
Steady-trans p q = record { failures = q.failures ∙ p.failures; waiting = q.waiting ∙ p.waiting }

Steady-notify_each :
    (st : DeliveryState) (d : Option Text) (ms : List Text) (s : ChatService)
    → Steady s (notify_each st d ms s)
unfolding notify_each
Steady-notify_each st d [] s = Steady-refl s
Steady-notify_each st d (m ∷ ms) s =
    Steady-trans {t = notify (delivery m st d) s} (record { failures = refl; waiting = refl })
      (Steady-notify_each st d ms (notify (delivery m st d) s))

Steady-schedule :
    (s : ChatService) (now : ℕ) (c m : Text) (b : Bool)
    → Steady s (schedule_delivery_retry s now c m b)
unfolding schedule_delivery_retry
Steady-schedule s now c m b = record { failures = refl; waiting = refl }

Steady-schedule_each :
    (s : ChatService) (now : ℕ) (c : Text) (ms : List Text) → Steady s (schedule_each s now c ms)
unfolding schedule_each
Steady-schedule_each s now c [] = Steady-refl s
Steady-schedule_each s now c (m ∷ ms) =
    Steady-trans (Steady-schedule s now c m false)
      (Steady-schedule_each (schedule_delivery_retry s now c m false) now c ms)

Steady-spawn_doc_sync : (s : ChatService) (c : Text) → Steady s (spawn_doc_sync s c)
unfolding spawn_doc_sync
Steady-spawn_doc_sync s c = record { failures = ground arith; waiting = ground arith }

Steady-wake_ended : (s : ChatService) (c : Text) → Steady s (wake_ended s c)
unfolding wake_ended
Steady-wake_ended s c = record { failures = ground arith; waiting = ground arith }

abbrev one_more : ChatService → Text → ℕ
one_more s c = sat_add u8_max (or_zero (get c s.wake_failures)) 1

Steady-reached :
    (s : ChatService) (now : ℕ) (c : Text) (ms : List Text)
    → Steady (record s { wake_failures = Map.remove c s.wake_failures }) (wake_reached s now c ms)
unfolding wake_reached
Steady-reached s now c ms =
    let forgotten = record s { wake_failures = Map.remove c s.wake_failures } in
    Steady-trans (Steady-schedule_each forgotten now c ms)
      (Steady-spawn_doc_sync (schedule_each forgotten now c ms) c)

Steady-told :
    (s : ChatService) (ms : List Text) (offline : Bool)
    → Steady s (if offline then notify_each queued (some (text "waiting for peer")) ms s else s)
Steady-told s ms true = Steady-notify_each queued (some (text "waiting for peer")) ms s
Steady-told s ms false = Steady-refl s

Steady-armed :
    (s t : ChatService) (now : ℕ) (c : Text) (ms : List Text) (offline : Bool)
    → Steady s t
    → Steady s (
        let armed = schedule_each t now c ms in
        record armed { retry_state = alter c (later now c offline) armed.retry_state })
Steady-armed s t now c ms offline h =
    Steady-trans h
      (Steady-trans (Steady-schedule_each t now c ms) (record { failures = refl; waiting = refl }))

Steady-missed :
    (s : ChatService) (now : ℕ) (c : Text) (ms : List Text)
    → Steady
        (record s { wake_failures = insert c (one_more s c) s.wake_failures })
        (wake_missed s now c ms)
unfolding wake_missed
Steady-missed s now c ms =
    let counted = record s { wake_failures = insert c (one_more s c) s.wake_failures } in
    let offline = leb chat_queue_after_failures (one_more s c) in
    let told = Steady-told counted ms offline in
    elim (Bool-cases (ltb 0 (inflight c s))) [
      | inl e ↦ rw e told
      | inr e ↦ rw e (Steady-armed counted _ now c ms offline told)
    ]

-- The count of failures after a wake of a conversation ended, by whether it reached a member.
abbrev pub failures_after : Bool → Option ℕ → Option ℕ
failures_after true n = none
failures_after false n = some (sat_add u8_max (or_zero n) 1)

after_wake-failures :
    (s : ChatService) (now : ℕ) (c : Text) (reached : Bool) (ms : List Text) (k : Text)
    → get k (after_wake s now c reached ms).wake_failures ≡ (
        if text_eq c k && not (is_empty ms)
        then failures_after reached (get k s.wake_failures)
        else get k s.wake_failures)
unfolding after_wake
after_wake-failures s now c reached [] k = ground arith
after_wake-failures s now c true (m ∷ ms) k =
    ap (get k) (Steady-reached s now c (m ∷ ms)).failures
    ∙ ground (arith, get-remove k c s.wake_failures)
after_wake-failures s now c false (m ∷ ms) k =
    ap (get k) (Steady-missed s now c (m ∷ ms)).failures
    ∙ ground (arith, text_eq_iff c k, get-insert k c (one_more s c) s.wake_failures)

after_wake-waiting :
    (s : ChatService) (now : ℕ) (c : Text) (reached : Bool) (ms : List Text)
    → (after_wake s now c reached ms).pending_deliveries ≡ s.pending_deliveries
unfolding after_wake
after_wake-waiting s now c reached [] = refl
after_wake-waiting s now c true (m ∷ ms) = (Steady-reached s now c (m ∷ ms)).waiting
after_wake-waiting s now c false (m ∷ ms) = (Steady-missed s now c (m ∷ ms)).waiting

-- The end of a wake leaves every message waiting that waited.
pub pending-apply_wake_finished :
    (s : ChatService) (now : ℕ) (c : Text) (reached : Bool)
    → (apply_wake_finished s now c reached).pending_deliveries ≡ s.pending_deliveries
unfolding apply_wake_finished
pending-apply_wake_finished s now c reached =
    after_wake-waiting (wake_ended s c) now c reached
      (pending_of c (wake_ended s c).pending_deliveries)
    ∙ (Steady-wake_ended s c).waiting

-- The end of a wake changes the count of failed probes of its conversation alone, and only while a
-- message waits there: a probe that reached a member clears it, a failed one adds 1 up to 255.
pub apply_wake_finished-failures :
    (s : ChatService) (now : ℕ) (c : Text) (reached : Bool) (k : Text)
    → get k (apply_wake_finished s now c reached).wake_failures ≡ (
        if text_eq c k && not (is_empty (pending_of c s.pending_deliveries))
        then failures_after reached (get k s.wake_failures)
        else get k s.wake_failures)
unfolding apply_wake_finished
apply_wake_finished-failures s now c reached k =
    let w = (Steady-wake_ended s c).waiting in
    let f = (Steady-wake_ended s c).failures in
    rw (w, f)
      (rw (w, f) at
        (after_wake-failures (wake_ended s c) now c reached
          (pending_of c (wake_ended s c).pending_deliveries) k))

-- Failed probes of a conversation one after the other, each ending at the given time.
abbrev pub missed : ChatService → Text → List ℕ → ChatService
missed s c [] = s
missed s c (now ∷ times) = missed (apply_wake_finished s now c false) c times

missed-failures :
    (s : ChatService) (c : Text) (times : List ℕ)
    → is_empty (pending_of c s.pending_deliveries) ≡ false
    → or_zero (get c s.wake_failures) ≤ 255
    → or_zero (get c (missed s c times).wake_failures)
      ≡ sat_add u8_max (or_zero (get c s.wake_failures)) (length times)
missed-failures s c [] h b = ground arith
missed-failures s c (now ∷ times) h b = ground (
  arith,
  apply_wake_finished-failures s now c false c,
  text_eq_refl c,
  missed-failures (apply_wake_finished s now c false) c times
      (rw (pending-apply_wake_finished s now c false) h),
)

-- A conversation with no failed probe yet and a message waiting counts as queued after a run of
-- failed probes exactly if there were five of them or more.
pub missed-conversation_is_queued :
    (s : ChatService) (c : Text) (times : List ℕ)
    → is_empty (pending_of c s.pending_deliveries) ≡ false
    → get c s.wake_failures ≡ none
    → conversation_is_queued (missed s c times) c ≡ leb 5 (length times)
unfolding conversation_is_queued
missed-conversation_is_queued s c times h e = ground (arith, missed-failures s c times h)
