-- ===== src/Chat/Delivery.antt =====
-- The delivery of messages: the retry schedule of each conversation, the ends of wakes, and the
-- resumption when a peer comes back.
pub mod Timers
pub mod Stacking
pub mod Dialling
pub mod Runs
pub mod Receipts
pub mod Misses
pub mod Payload
use wire_app.Common.{
  ℕ, ◌+◌, ◌-◌, ◌/◌, ◌%◌, Bool, true, false, not, ◌&&◌, ◌||◌, List, [], ◌∷◌, ◌++◌, Option, none,
  some, Text, text, text_eq, ltb, leb, ◌==◌, if◌then◌else◌, keep_if, is_empty, sat_add, u8_max,
}
use wire_app.Common.Int.{ℤ}
use wire_app.Common.Map.{Map, get, insert, alter, contains_key}
use wire_app.Common.Map
use wire_app.Common.Set.{Set}
use wire_app.Common.Set
use wire_app.Chat.Backoff.{chat_first_retry, delivery_retry_delay}
use wire_app.Chat.Records.{
  DeliveryState, pending, retrying, queued, delivered, delivery, ConversationRetry,
  ReplicatedReceipt, receipt_is_valid,
}
use wire_app.Chat.Service.{
  ChatService, notify, or_zero, inflight, is_conversation_member, spawn_wake, spawn_doc_sync,
}

abbrev pub chat_queue_after_failures : ℕ
chat_queue_after_failures = 5

abbrev retry_or_new : ℕ → Option ConversationRetry → ConversationRetry
retry_or_new now none = record {
  attempts = 0;
  next_attempt = now + chat_first_retry;
  messages = [];
}
retry_or_new now (some r) = r

-- Only a new schedule is pulled forward to `now`.
unfoldable pub schedule_delivery_retry : ChatService → ℕ → Text → Text → Bool → ChatService
schedule_delivery_retry s now c message_id immediate =
    let existed = contains_key c s.retry_state in
    let retry = retry_or_new now (get c s.retry_state) in
    let added = record retry { messages = Set.insert message_id retry.messages } in
    let state = if immediate && not existed then record added { next_attempt = now } else added in
    record s { retry_state = insert c state s.retry_state }

-- The loop over the pending messages of a conversation.
unfoldable pub schedule_each : ChatService → ℕ → Text → List Text → ChatService
schedule_each s now c [] = s
schedule_each s now c (m ∷ ms) = schedule_each (schedule_delivery_retry s now c m false) now c ms

unfoldable pub notify_each : DeliveryState → Option Text → List Text → ChatService → ChatService
notify_each state detail [] s = s
notify_each state detail (m ∷ ms) s =
    notify_each state detail ms (notify (delivery m state detail) s)

unfoldable pub conversation_is_queued : ChatService → Text → Bool
conversation_is_queued s c = leb chat_queue_after_failures (or_zero (get c s.wake_failures))

-- The messages of a conversation that wait for a receipt.
unfoldable pub pending_of : Text → Map Text → List Text
pending_of c [] = []
pending_of c ((message_id, cid) ∷ m) =
    let rest = pending_of c m in if text_eq cid c then message_id ∷ rest else rest

-- The first lines of `apply_wake_finished`: a wake of the conversation is no longer under way.
unfoldable pub wake_ended : ChatService → Text → ChatService
wake_ended s c = elim (get c s.wake_inflight) [
  | none ↦ s
  | some count ↦
      if count - 1 == 0
      then record s { wake_inflight = Map.remove c s.wake_inflight }
      else record s { wake_inflight = insert c (count - 1) s.wake_inflight }
]

-- The wake reached some member: the failures are forgotten.
unfoldable pub wake_reached : ChatService → ℕ → Text → List Text → ChatService
wake_reached s now c waiting =
    spawn_doc_sync
      (schedule_each (record s { wake_failures = Map.remove c s.wake_failures }) now c waiting) c

abbrev pub later : ℕ → Text → Bool → ConversationRetry → ConversationRetry
later now c offline r = record r { next_attempt = now + delivery_retry_delay c r.attempts offline }

-- No member was reached: one more failure in a row, `Queued` from the fifth on, and the next probe
-- is armed unless another wake is under way.
unfoldable pub wake_missed : ChatService → ℕ → Text → List Text → ChatService
wake_missed s now c waiting =
    let failures = sat_add u8_max (or_zero (get c s.wake_failures)) 1 in
    let offline = leb chat_queue_after_failures failures in
    let counted = record s { wake_failures = insert c failures s.wake_failures } in
    let told =
      (if offline
        then notify_each queued (some (text "waiting for peer")) waiting counted
        else counted) in
    let armed = schedule_each told now c waiting in
    if ltb 0 (inflight c s)
    then told
    else record armed { retry_state = alter c (later now c offline) armed.retry_state }

unfoldable pub after_wake : ChatService → ℕ → Text → Bool → List Text → ChatService
after_wake s now c reached [] = s
after_wake s now c true (m ∷ ms) = wake_reached s now c (m ∷ ms)
after_wake s now c false (m ∷ ms) = wake_missed s now c (m ∷ ms)

unfoldable pub apply_wake_finished : ChatService → ℕ → Text → Bool → ChatService
apply_wake_finished s now c reached =
    let s' = wake_ended s c in after_wake s' now c reached (pending_of c s'.pending_deliveries)

-- `format!("delivery retry {attempts}")` for a `u8`.
abbrev decimal_u8 : ℕ → Text
decimal_u8 n =
    if ltb n 10
    then (48 + n) ∷ []
    else if ltb n 100
    then (48 + n / 10) ∷ (48 + n % 10) ∷ []
    else (48 + n / 100) ∷ (48 + n / 10 % 10) ∷ (48 + n % 10) ∷ []

abbrev pub retry_text : ℕ → Text
retry_text attempts = text "delivery retry " ++ decimal_u8 attempts

abbrev pub due : ℕ → Map ConversationRetry → List Text
due now [] = []
due now ((c, r) ∷ m) = let rest = due now m in if leb r.next_attempt now then c ∷ rest else rest

abbrev pub attempted : ℕ → Text → Bool → ConversationRetry → ConversationRetry
attempted now c offline r =
    let attempts = sat_add u8_max r.attempts 1 in
    record r { attempts = attempts; next_attempt = now + delivery_retry_delay c attempts offline }

abbrev pub attempts_of : Option ConversationRetry → ℕ
attempts_of none = 0
attempts_of (some r) = r.attempts

-- The round of `retry_due_deliveries` for a conversation whose schedule is `r`, once no message is
-- missing and no wake is under way: a wake and a new timer; online the user is told of the retry.
unfoldable pub probe_again : ChatService → ℕ → ℤ → Text → ConversationRetry → ChatService
probe_again s now wall c r =
    let offline = conversation_is_queued s c in
    let woken = spawn_wake s wall c in
    let synced = if offline then woken else spawn_doc_sync woken c in
    let armed = record synced {
      retry_state = alter c (attempted now c offline) synced.retry_state;
    } in
    if offline
    then armed
    else notify_each retrying (some (retry_text (attempts_of (get c armed.retry_state))))
        (keep_if (λ m. contains_key m armed.pending_deliveries) r.messages) armed

-- Another wake is under way: look again shortly.
abbrev pub postponed : ℕ → ConversationRetry → ConversationRetry
postponed now r = record r { next_attempt = now + chat_first_retry }

unfoldable pub retry_one : ChatService → ℕ → ℤ → Text → ChatService
retry_one s now wall c = elim (get c s.retry_state) [
  | none ↦ s
  | some r ↦
      if is_empty r.messages
      then record s { retry_state = Map.remove c s.retry_state }
      else if ltb 0 (inflight c s)
      then record s { retry_state = alter c (postponed now) s.retry_state }
      else probe_again s now wall c r
]

unfoldable pub retry_each : ChatService → ℕ → ℤ → List Text → ChatService
retry_each s now wall [] = s
retry_each s now wall (c ∷ cs) = retry_each (retry_one s now wall c) now wall cs

unfoldable pub retry_due_deliveries : ChatService → ℕ → ℤ → ChatService
retry_due_deliveries s now wall = retry_each s now wall (due now s.retry_state)

-- The loop of `resume_queued_deliveries`: each message is scheduled and announced.
unfoldable pub resume_each : ChatService → ℕ → Text → List Text → ChatService
resume_each s now c [] = s
resume_each s now c (m ∷ ms) =
    resume_each
      (notify (delivery m pending (some (text "peer online; delivering")))
        (schedule_delivery_retry s now c m true))
      now c ms

unfoldable pub resume_queued_deliveries : ChatService → ℕ → ℤ → Text → ChatService
resume_queued_deliveries s now wall c =
    let waiting = pending_of c s.pending_deliveries in
    let cleared = record s { wake_failures = Map.remove c s.wake_failures } in
    if is_empty waiting || contains_key c s.retry_state || ltb 0 (inflight c s)
    then s
    else spawn_doc_sync (spawn_wake (resume_each cleared now c waiting) wall c) c

-- One receipt of `apply_direct_receipts`.
unfoldable pub settle : ChatService → Text → ReplicatedReceipt → ChatService
settle s c r =
    if receipt_is_valid r
    then elim (get r.message_id s.pending_deliveries) [
      | none ↦ s
      | some cid ↦
          if text_eq cid c
          then notify (delivery r.message_id delivered none) (record s {
            pending_deliveries = Map.remove r.message_id s.pending_deliveries;
            pending_outbound = Map.remove r.message_id s.pending_outbound;
          })
          else s
    ]
    else s

unfoldable pub settle_each : ChatService → Text → List ReplicatedReceipt → ChatService
settle_each s c [] = s
settle_each s c (r ∷ rs) = settle_each (settle s c r) c rs

-- The closing `retain`: schedules forget settled messages, and empty ones go.
unfoldable pub prune : Map Text → Map ConversationRetry → Map ConversationRetry
prune waiting [] = []
prune waiting ((c, r) ∷ m) =
    let left = Set.retain (λ k. contains_key k waiting) r.messages in
    let rest = prune waiting m in
    if is_empty left then rest else (c, record r { messages = left }) ∷ rest

unfoldable pub apply_direct_receipts :
    ChatService → Text → Text → List ReplicatedReceipt → ChatService
apply_direct_receipts s c remote receipts =
    let t = settle_each s c receipts in
    if is_conversation_member s c remote
    then record t { retry_state = prune t.pending_deliveries t.retry_state }
    else s
