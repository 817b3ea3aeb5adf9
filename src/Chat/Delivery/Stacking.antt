-- ===== src/Chat/Delivery/Stacking.antt =====
-- Wakes spawned and wakes under way: what each operation does to their numbers.
use wire_app.Common.{
  ℕ, suc, ◌+◌, ◌≡◌, refl, ap, sym, ◌∙◌, Bool, true, false, List, [], ◌∷◌, ◌++◌, Option, some, arith,
  Text, text, text_eq, subst, text_eq_iff, if◌then◌else◌, is_empty, Bool-cases, Option-cases, inl,
  inr,
}
use wire_app.Common.Map.{get, insert, get-insert, contains_key}
use wire_app.Chat.Records.{WakePayload, delivery, pending, DeliveryState}
use wire_app.Chat.Service.{
  ChatService, Task, wake, doc_sync, notify, spawn, or_zero, inflight, spawn_wake_with,
  spawn_doc_sync, other_members,
}
use wire_app.Chat.Delivery.{notify_each, schedule_delivery_retry, schedule_each, resume_each}

-- How many wakes of a conversation have been spawned.
unfoldable pub wakes : Text → List Task → ℕ
wakes k [] = 0
wakes k (wake c peers payload ∷ ts) = if text_eq c k then suc (wakes k ts) else wakes k ts
wakes k (t ∷ ts) = wakes k ts

wakes-append : (k : Text) (ts us : List Task) → wakes k (ts ++ us) ≡ wakes k ts + wakes k us
unfolding wakes
wakes-append k [] us = omega arith
wakes-append k (wake c peers payload ∷ ts) us = ground (arith, wakes-append k ts us)
wakes-append k (t ∷ ts) us = wakes-append k ts us

-- No wake was spawned and none ended.
pub record Same (s t : ChatService) : Type 0 where
  pub flying : t.wake_inflight ≡ s.wake_inflight
  pub spawned : (k : Text) → wakes k t.tasks ≡ wakes k s.tasks

pub Same-refl : (s : ChatService) → Same s s
Same-refl s = record { flying = refl; spawned = λ k. refl }

pub Same-trans : {s t u : ChatService} → Same s t → Same t u → Same s u
Same-trans p q = record { flying = q.flying ∙ p.flying; spawned = λ k. q.spawned k ∙ p.spawned k }

pub Same-notify_each :
    (st : DeliveryState) (d : Option Text) (ms : List Text) (s : ChatService)
    → Same s (notify_each st d ms s)
unfolding notify_each
Same-notify_each st d [] s = Same-refl s
Same-notify_each st d (m ∷ ms) s =
    Same-trans {t = notify (delivery m st d) s} (record { flying = refl; spawned = λ k. refl })
      (Same-notify_each st d ms (notify (delivery m st d) s))

Same-schedule :
    (s : ChatService) (now : ℕ) (c m : Text) (b : Bool)
    → Same s (schedule_delivery_retry s now c m b)
unfolding schedule_delivery_retry
Same-schedule s now c m b = record { flying = refl; spawned = λ k. refl }

pub Same-schedule_each :
    (s : ChatService) (now : ℕ) (c : Text) (ms : List Text) → Same s (schedule_each s now c ms)
unfolding schedule_each
Same-schedule_each s now c [] = Same-refl s
Same-schedule_each s now c (m ∷ ms) =
    Same-trans (Same-schedule s now c m false)
      (Same-schedule_each (schedule_delivery_retry s now c m false) now c ms)

pub Same-resume_each :
    (s : ChatService) (now : ℕ) (c : Text) (ms : List Text) → Same s (resume_each s now c ms)
unfolding resume_each
Same-resume_each s now c [] = Same-refl s
Same-resume_each s now c (m ∷ ms) =
    let told =
      notify (delivery m pending (some (text "peer online; delivering")))
        (schedule_delivery_retry s now c m true) in
    Same-trans (Same-schedule s now c m true) (
      Same-trans {t = told} (record { flying = refl; spawned = λ k. refl })
        (Same-resume_each
          (notify (delivery m pending (some (text "peer online; delivering")))
            (schedule_delivery_retry s now c m true))
          now c ms))

pub Same-spawn_doc_sync : (s : ChatService) (c : Text) → Same s (spawn_doc_sync s c)
unfolding spawn_doc_sync wakes
Same-spawn_doc_sync s c = elim (Bool-cases (contains_key c s.conversations)) [
  | inl e ↦ rw e (record {
    flying = refl;
    spawned = λ k. omega (arith, wakes-append k s.tasks (doc_sync c ∷ []));
  })
  | inr e ↦ rw e (Same-refl s)
]

-- What an operation does to the wakes of `k`: nothing, or it starts one where there was none.
pub data Dial (k : Text) (s t : ChatService) : Type 0 where
  kept : inflight k t ≡ inflight k s → wakes k t.tasks ≡ wakes k s.tasks → Dial k s t
  dialled :
      inflight k s ≡ 0 → inflight k t ≡ 1 → wakes k t.tasks ≡ suc (wakes k s.tasks) → Dial k s t

pub Same-Dial : {s t : ChatService} (k : Text) → Same s t → Dial k s t
Same-Dial k h = kept (ap (λ m. or_zero (get k m)) h.flying) (h.spawned k)

pub Dial-trans : {k : Text} {s t u : ChatService} → Dial k s t → Dial k t u → Dial k s u
Dial-trans (kept a b) (kept c d) = kept (c ∙ a) (d ∙ b)
Dial-trans (kept a b) (dialled c d e) = dialled (sym a ∙ c) d (e ∙ ap suc b)
Dial-trans (dialled a b c) (kept d e) = dialled a (d ∙ b) (e ∙ c)
Dial-trans (dialled a b c) (dialled d e f) = absurd (omega arith)

spawned-Dial :
    (s : ChatService) (c k : Text) (peers : List Text) (payload : WakePayload)
    → inflight c s ≡ 0
    → Dial k s (
        spawn
          (wake c peers payload)
          (record s { wake_inflight = insert c (inflight c s + 1) s.wake_inflight }))
unfolding wakes
spawned-Dial s c k peers payload h = elim (Bool-cases (text_eq c k)) [
  | inl same ↦
      dialled (subst (λ x. inflight x s ≡ 0) ((text_eq_iff c k).0 same) h)
        (ground (arith, get-insert k c (inflight c s + 1) s.wake_inflight))
        (ground (arith, wakes-append k s.tasks (wake c peers payload ∷ [])))
  | inr other ↦
      kept (ground (arith, get-insert k c (inflight c s + 1) s.wake_inflight))
        (ground (arith, wakes-append k s.tasks (wake c peers payload ∷ [])))
]

pub spawn_wake_with-Dial :
    (s : ChatService) (c k : Text) (payload : WakePayload)
    → inflight c s ≡ 0
    → Dial k s (spawn_wake_with s c payload)
unfolding spawn_wake_with
spawn_wake_with-Dial s c k payload h = elim (Option-cases (get c s.conversations)) [
  | inl e ↦ rw (e, spawn_wake_with) (kept refl refl)
  | inr (stored, e) ↦
      rw (e, spawn_wake_with)
        (elim (Bool-cases (is_empty (other_members s stored))) [
          | inl f ↦ rw f (kept refl refl)
          | inr f ↦ rw f (spawned-Dial s c k (other_members s stored) payload h)
        ])
]
