-- ===== src/Chat/Delivery/Runs.antt =====
-- Runs of retry ticks, resumptions and ends of wakes: a conversation has one wake at most under
-- way, so new wakes are paced by the ends of old ones.
use wire_app.Common.{ℕ, ◌+◌, ◌≤◌, Bool, List, [], ◌∷◌, arith, Text, text_eq, if◌then◌else◌}
use wire_app.Common.Int.{ℤ}
use wire_app.Chat.Service.{ChatService, inflight}
use wire_app.Chat.Delivery.{retry_due_deliveries, apply_wake_finished, resume_queued_deliveries}
use wire_app.Chat.Delivery.Stacking.{wakes, Dial, kept, dialled}
use wire_app.Chat.Delivery.Dialling.{
  resume_queued_deliveries-Dial, retry_due_deliveries-Dial, apply_wake_finished-inflight,
  apply_wake_finished-wakes,
}

-- What the delivery loop answers to: the retry timer, a peer that is seen again, and the end of a
-- wake.
pub data Event : Type 0 where
  tick : ℕ → ℤ → Event
  seen : ℕ → ℤ → Text → Event
  finished : ℕ → Text → Bool → Event

abbrev pub step : Event → ChatService → ChatService
step (tick now wall) s = retry_due_deliveries s now wall
step (seen now wall c) s = resume_queued_deliveries s now wall c
step (finished now c reached) s = apply_wake_finished s now c reached

abbrev pub run : List Event → ChatService → ChatService
run [] s = s
run (e ∷ es) s = run es (step e s)

abbrev ended : Text → Event → ℕ
ended k (finished now c reached) = if text_eq c k then 1 else 0
ended k e = 0

-- How many ends of wakes of a conversation a run has.
abbrev pub ends : Text → List Event → ℕ
ends k [] = 0
ends k (e ∷ es) = ended k e + ends k es

Dial-single : {k : Text} {s t : ChatService} → Dial k s t → inflight k s ≤ 1 → inflight k t ≤ 1
Dial-single (kept a b) h = omega arith
Dial-single (dialled a b c) h = omega arith

Dial-paced :
    {k : Text} {s t : ChatService}
    → Dial k s t
    → wakes k t.tasks + inflight k s ≤ wakes k s.tasks + inflight k t
Dial-paced (kept a b) = omega arith
Dial-paced (dialled a b c) = omega arith

step-single :
    (e : Event) (s : ChatService) (k : Text) → inflight k s ≤ 1 → inflight k (step e s) ≤ 1
step-single (tick now wall) s k h = Dial-single (retry_due_deliveries-Dial s now wall k) h
step-single (seen now wall c) s k h = Dial-single (resume_queued_deliveries-Dial s now wall c k) h
step-single (finished now c reached) s k h =
    ground (arith, apply_wake_finished-inflight s now c reached k)

step-paced :
    (e : Event) (s : ChatService) (k : Text)
    → wakes k (step e s).tasks + inflight k s ≤ wakes k s.tasks + inflight k (step e s) + ended k e
step-paced (tick now wall) s k = omega (arith, Dial-paced (retry_due_deliveries-Dial s now wall k))
step-paced (seen now wall c) s k =
    omega (arith, Dial-paced (resume_queued_deliveries-Dial s now wall c k))
step-paced (finished now c reached) s k = ground (
  arith,
  apply_wake_finished-inflight s now c reached k,
  apply_wake_finished-wakes s now c reached k,
)

-- If a conversation has at most one wake under way, it still has at most one after any run of
-- retry ticks, resumptions and ends of wakes, in whatever order they come.
pub run-single :
    (es : List Event) (s : ChatService) (k : Text) → inflight k s ≤ 1 → inflight k (run es s) ≤ 1
run-single [] s k h = h
run-single (e ∷ es) s k h = run-single es (step e s) k (step-single e s k h)

balance :
    (es : List Event) (s : ChatService) (k : Text)
    → wakes k (run es s).tasks + inflight k s ≤ wakes k s.tasks + inflight k (run es s) + ends k es
balance [] s k = omega arith
balance (e ∷ es) s k = omega (arith, step-paced e s k, balance es (step e s) k)

-- Wakes are paced by their ends: from a state with at most one wake of the conversation under way,
-- any run of retry ticks, resumptions and ends of wakes spawns at most one wake of it more than
-- the run has ends of its wakes.
pub run-paced :
    (es : List Event) (s : ChatService) (k : Text)
    → inflight k s ≤ 1
    → wakes k (run es s).tasks ≤ wakes k s.tasks + ends k es + 1
run-paced es s k h = omega (arith, balance es s k, run-single es s k h)
