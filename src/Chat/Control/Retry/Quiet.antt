-- ===== src/Chat/Control/Retry/Quiet.antt =====
-- After a tick of the control timer every schedule's time lies in the future.
use wire_app.Common.{
  ℕ, ◌≡◌, refl, ap, ◌∙◌, List, [], ◌∷◌, arith, Text, ltb, leb, sat_add, u8_max, Bool-cases, inl,
  inr,
}
use wire_app.Common.Int.{ℤ}
use wire_app.Common.Map.{Map, alter}
use wire_app.Chat.Delivery.Timers.{delay_pos}
use wire_app.Chat.Records.{ControlRetry}
use wire_app.Chat.Schedule.{due_by, Round, dropped, rearmed, each, IsQuiet, each-IsQuiet}
use wire_app.Chat.Service.{ChatService, spawn_wake, spawn_wake_with, inflight}
use wire_app.Chat.Control.{conversation_has_pending_control}
use wire_app.Chat.Control.Retry.{
  send_pending_invites, wake_for_control, control_attempted, control_postponed, control_again,
  retry_control, control_time, retry_controls, retry_due_controls,
}

abbrev retries : ChatService → Map ControlRetry
retries s = s.control_retries

retries-send_pending_invites :
    (s : ChatService) (c : Text) → retries (send_pending_invites s c) ≡ retries s
unfolding send_pending_invites
retries-send_pending_invites s c = ground arith

retries-spawn_wake :
    (s : ChatService) (wall : ℤ) (c : Text) → retries (spawn_wake s wall c) ≡ retries s
unfolding spawn_wake spawn_wake_with
retries-spawn_wake s wall c = ground arith

retries-wake_for_control :
    (s : ChatService) (wall : ℤ) (c : Text) → retries (wake_for_control s wall c) ≡ retries s
unfolding wake_for_control
retries-wake_for_control s wall c = ground (arith, retries-spawn_wake s wall c)

control_again-Round :
    (s : ChatService) (now : ℕ) (wall : ℤ) (c : Text)
    → Round control_time now c (retries s) (retries (control_again s now wall c))
unfolding control_again
control_again-Round s now wall c =
    rearmed (control_attempted now c)
      (λ q. let n = sat_add u8_max q.attempts 1 in omega (arith, delay_pos c n (leb 5 n)))
      (ap (alter c (control_attempted now c)) (
        retries-wake_for_control (send_pending_invites s c) wall c
        ∙ retries-send_pending_invites s c))

retry_control-Round :
    (now : ℕ) (wall : ℤ) (s : ChatService) (c : Text)
    → Round control_time now c (retries s) (retries (retry_control now wall s c))
unfolding retry_control
retry_control-Round now wall s c = elim (Bool-cases (conversation_has_pending_control s c)) [
  | inr e ↦ rw e (dropped refl)
  | inl e ↦ rw e (elim (Bool-cases (ltb 0 (inflight c s))) [
    | inl f ↦ rw f (rearmed (control_postponed now) (λ q. omega arith) refl)
    | inr f ↦ rw f (control_again-Round s now wall c)
  ])
]

retry_controls-each :
    (now : ℕ) (wall : ℤ) (cs : List Text) (s : ChatService)
    → retry_controls now wall cs s
      ≡ each control_time retries now (retry_control now wall) (retry_control-Round now wall) cs s
unfolding retry_controls
retry_controls-each now wall [] s = refl
retry_controls-each now wall (c ∷ cs) s =
    retry_controls-each now wall cs (retry_control now wall s c)

-- When a tick of the control timer is over, every schedule that is left has its next attempt after the
-- tick: one that was due was dropped, put off or armed anew, and the tick made none due.
pub retry_due_controls-IsQuiet :
    (s : ChatService) (now : ℕ) (wall : ℤ) (c : Text)
    → IsQuiet control_time now c (retry_due_controls s now wall).control_retries
unfolding retry_due_controls
retry_due_controls-IsQuiet s now wall c =
    rw (retry_controls-each now wall (due_by control_time now s.control_retries) s) (
      each-IsQuiet control_time retries now (retry_control now wall) (retry_control-Round now wall)
        s c)
