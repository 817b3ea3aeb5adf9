-- ===== src/Chat/Delivery/Timers.antt =====
-- After a retry tick every schedule's timer lies in the future.
use wire_app.Common.{
  ℕ, ◌<◌, ◌≡◌, refl, ap, ◌∙◌, Bool, true, false, List, [], ◌∷◌, Option, some, arith, Text, sat_add,
  u8_max, ltb, if◌then◌else◌, is_empty, Bool-cases, Option-cases, inl, inr,
}
use wire_app.Common.Int.{ℤ}
use wire_app.Common.Map.{Map, get, alter, get-alter, get-remove, map_option}
use wire_app.Common.Map
use wire_app.Chat.Backoff.{delivery_retry_delay, delivery_retry_delay_bounds}
use wire_app.Chat.Records.{ConversationRetry, DeliveryState}
use wire_app.Chat.Service.{ChatService, spawn_wake, spawn_wake_with, spawn_doc_sync, inflight}
use wire_app.Chat.Schedule.{due_by, Round, absent, dropped, rearmed, each, each-IsQuiet}
use wire_app.Chat.Delivery.{
  due, attempted, postponed, conversation_is_queued, notify_each, probe_again, retry_one,
  retry_each, retry_due_deliveries,
}

abbrev pub next : ConversationRetry → ℕ
next r = r.next_attempt

-- No schedule of the conversation is due.
abbrev pub IsQuiet : ℕ → Text → Map ConversationRetry → Type 0
IsQuiet now c m = (r : ConversationRetry) → get c m ≡ some r → now < r.next_attempt

retry_state-notify_each :
    (st : DeliveryState) (d : Option Text) (ms : List Text) (s : ChatService)
    → (notify_each st d ms s).retry_state ≡ s.retry_state
unfolding notify_each
retry_state-notify_each st d [] s = refl
retry_state-notify_each st d (m ∷ ms) s = retry_state-notify_each st d ms _

retry_state-spawn_wake :
    (s : ChatService) (wall : ℤ) (c : Text) → (spawn_wake s wall c).retry_state ≡ s.retry_state
unfolding spawn_wake spawn_wake_with
retry_state-spawn_wake s wall c = ground arith

retry_state-spawn_doc_sync :
    (s : ChatService) (c : Text) → (spawn_doc_sync s c).retry_state ≡ s.retry_state
unfolding spawn_doc_sync
retry_state-spawn_doc_sync s c = ground arith

retry_state-probe_again :
    (s : ChatService) (now : ℕ) (wall : ℤ) (c : Text) (r : ConversationRetry)
    → (probe_again s now wall c r).retry_state
      ≡ alter c (attempted now c (conversation_is_queued s c)) s.retry_state
unfolding probe_again
retry_state-probe_again s now wall c r = elim (Bool-cases (conversation_is_queued s c)) [
  | inl e ↦ rw e (ap (alter c (attempted now c true)) (retry_state-spawn_wake s wall c))
  | inr e ↦ rw e (
      retry_state-notify_each _ _ _ _
      ∙ ap (alter c (attempted now c false))
          (retry_state-spawn_doc_sync (spawn_wake s wall c) c ∙ retry_state-spawn_wake s wall c))
]

pub delay_pos : (c : Text) (n : ℕ) (offline : Bool) → 0 < delivery_retry_delay c n offline
delay_pos c n true = omega (arith, delivery_retry_delay_bounds c n true)
delay_pos c n false = omega (arith, delivery_retry_delay_bounds c n false)

probe_again-Round :
    (s : ChatService) (now : ℕ) (wall : ℤ) (c : Text) (r : ConversationRetry)
    → Round next now c s.retry_state (probe_again s now wall c r).retry_state
probe_again-Round s now wall c r =
    rearmed (attempted now c (conversation_is_queued s c))
      (λ q. omega (arith, delay_pos c (sat_add u8_max q.attempts 1) (conversation_is_queued s c)))
      (retry_state-probe_again s now wall c r)

scheduled-Round :
    (s : ChatService) (now : ℕ) (wall : ℤ) (c : Text) (r : ConversationRetry)
    → Round next now c s.retry_state
        (if is_empty r.messages
          then record s { retry_state = Map.remove c s.retry_state }
          else if ltb 0 (inflight c s)
          then record s { retry_state = alter c (postponed now) s.retry_state }
          else probe_again s now wall c r).retry_state
scheduled-Round s now wall c r = elim (Bool-cases (is_empty r.messages)) [
  | inl e ↦ rw e (dropped refl)
  | inr e ↦ rw e (elim (Bool-cases (ltb 0 (inflight c s))) [
    | inl f ↦ rw f (rearmed (postponed now) (λ q. omega arith) refl)
    | inr f ↦ rw f (probe_again-Round s now wall c r)
  ])
]

retry_one-Round :
    (s : ChatService) (now : ℕ) (wall : ℤ) (c : Text)
    → Round next now c s.retry_state (retry_one s now wall c).retry_state
unfolding retry_one
retry_one-Round s now wall c = elim (Option-cases (get c s.retry_state)) [
  | inl e ↦ rw (e, retry_one) (absent e refl)
  | inr (r, e) ↦ rw (e, retry_one) (scheduled-Round s now wall c r)
]

-- The ticks in the terms of the schedules.
abbrev schedules : ChatService → Map ConversationRetry
schedules s = s.retry_state

abbrev one_round : ℕ → ℤ → ChatService → Text → ChatService
one_round now wall s c = retry_one s now wall c

rounds :
    (now : ℕ) (wall : ℤ) (s : ChatService) (c : Text)
    → Round next now c (schedules s) (schedules (one_round now wall s c))
rounds now wall s c = retry_one-Round s now wall c

retry_each-each :
    (s : ChatService) (now : ℕ) (wall : ℤ) (cs : List Text)
    → retry_each s now wall cs ≡ each next schedules now (one_round now wall) (rounds now wall) cs s
unfolding retry_each
retry_each-each s now wall [] = refl
retry_each-each s now wall (c ∷ cs) = retry_each-each (retry_one s now wall c) now wall cs

due-due_by : (now : ℕ) (m : Map ConversationRetry) → due now m ≡ due_by next now m
due-due_by now [] = refl
due-due_by now ((c, r) ∷ m) = rw (due-due_by now m) refl

-- When a retry tick is over, every schedule that is left has its next attempt after the tick: a
-- schedule that was due was dropped or armed anew, and the tick made none due.
pub retry_due_deliveries-IsQuiet :
    (s : ChatService) (now : ℕ) (wall : ℤ) (c : Text)
    → IsQuiet now c (retry_due_deliveries s now wall).retry_state
unfolding retry_due_deliveries
retry_due_deliveries-IsQuiet s now wall c = rw (due-due_by now s.retry_state) (
    rw (retry_each-each s now wall (due_by next now s.retry_state))
      (each-IsQuiet next schedules now (one_round now wall) (rounds now wall) s c))
