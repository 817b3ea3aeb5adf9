-- ===== src/Chat/Delivery/Receipts.antt =====
-- What receipts settle, and that no unsettled message is lost by them.
use wire_app.Common.{
  ◌≡◌, refl, ◌∙◌, Bool, true, false, ◌&&◌, List, [], ◌∷◌, Option, none, some, arith, Text, text_eq,
  text_eq_iff, if◌then◌else◌, is_empty, any, Bool-cases, Option-cases, inl, inr, subst,
}
use wire_app.Common.Map.{Map, get, get-remove, contains_key}
use wire_app.Common.Set.{Set, contains-retain}
use wire_app.Common.Set
use wire_app.Chat.Records.{ConversationRetry, ReplicatedReceipt, receipt_is_valid}
use wire_app.Chat.Service.{ChatService, is_conversation_member}
use wire_app.Chat.Delivery.{settle, settle_each, prune, apply_direct_receipts}

abbrev pub waits_in : Text → Option Text → Bool
waits_in c none = false
waits_in c (some cid) = text_eq cid c

-- Whether some valid receipt names the message.
abbrev pub acked : Text → List ReplicatedReceipt → Bool
acked k rs = any (λ (r : ReplicatedReceipt). receipt_is_valid r && text_eq r.message_id k) rs

pending-settle :
    (s : ChatService) (c : Text) (r : ReplicatedReceipt) (k : Text)
    → get k (settle s c r).pending_deliveries ≡ (
        if (receipt_is_valid r && text_eq r.message_id k) && waits_in c (get k s.pending_deliveries)
        then none
        else get k s.pending_deliveries)
unfolding settle
pending-settle s c r k = elim (Bool-cases (receipt_is_valid r)) [
  | inr e ↦ rw (e, settle) refl
  | inl e ↦ elim (Option-cases (get r.message_id s.pending_deliveries)) [
    | inl f ↦ rw (e, f, settle) (ground (arith, text_eq_iff r.message_id k))
    | inr (cid, f) ↦
        rw (e, f, settle)
          (ground
            (arith, text_eq_iff r.message_id k, get-remove k r.message_id s.pending_deliveries))
  ]
]

pending-settle_each :
    (s : ChatService) (c : Text) (rs : List ReplicatedReceipt) (k : Text)
    → get k (settle_each s c rs).pending_deliveries ≡ (
        if acked k rs && waits_in c (get k s.pending_deliveries)
        then none
        else get k s.pending_deliveries)
unfolding settle_each
pending-settle_each s c [] k = refl
pending-settle_each s c (r ∷ rs) k =
    ground (arith, pending-settle s c r k, pending-settle_each (settle s c r) c rs k)

-- Receipts settle exactly what they may: after `apply_direct_receipts` a message waits no more if
-- the sender is a member of the conversation, one of its receipts is valid and names the message,
-- and the message waits in that conversation; every other message waits as before.
pub apply_direct_receipts-pending :
    (s : ChatService) (c remote : Text) (rs : List ReplicatedReceipt) (k : Text)
    → get k (apply_direct_receipts s c remote rs).pending_deliveries ≡ (
        if is_conversation_member s c remote
          && (acked k rs && waits_in c (get k s.pending_deliveries))
        then none
        else get k s.pending_deliveries)
unfolding apply_direct_receipts
apply_direct_receipts-pending s c remote rs k =
    elim (Bool-cases (is_conversation_member s c remote)) [
      | inl e ↦ rw e (pending-settle_each s c rs k)
      | inr e ↦ rw e refl
    ]

-- Whether a message is in the schedule of a conversation.
abbrev pub scheduled : Text → Option ConversationRetry → Bool
scheduled k none = false
scheduled k (some r) = Set.contains k r.messages

prune_sound :
    (waiting : Map Text) (m : Map ConversationRetry) (j : Text) (r : ConversationRetry)
    → get j (prune waiting m) ≡ some r
    → (is_empty r.messages ≡ false)
      × ((k : Text) → Set.contains k r.messages ≡ true → contains_key k waiting ≡ true)
unfolding prune get
prune_sound waiting [] j r h = absurd (let f : none ≡ some r = h in cc)
prune_sound waiting ((c, q) ∷ m) j r h =
    let left = Set.retain (λ k. contains_key k waiting) q.messages in
    elim (Bool-cases (is_empty left)) [
      | inl e ↦ prune_sound waiting m j r (rw (e, prune) at h)
      | inr e ↦ elim (Bool-cases (text_eq c j)) [
        | inl f ↦
            let g : some (record q { messages = left }) ≡ some r = rw (e, f, prune) at h in
            let same : record q { messages = left } ≡ r = cc in
            subst
              (λ (x : ConversationRetry).
                (is_empty x.messages ≡ false)
                × ((k : Text) → Set.contains k x.messages ≡ true → contains_key k waiting ≡ true))
              same
              (
                e,
                λ k listed.
                    ground (arith, contains-retain k (λ i. contains_key i waiting) q.messages),
              )
        | inr f ↦ prune_sound waiting m j r (rw (e, f, prune) at h)
      ]
    ]

contains_empty : (k : Text) (xs : Set) → is_empty xs ≡ true → Set.contains k xs ≡ false
unfolding Set.contains
contains_empty k [] h = refl
contains_empty k (x ∷ xs) h = absurd (let f : false ≡ true = h in cc)

prune_complete :
    (waiting : Map Text) (m : Map ConversationRetry) (j k : Text)
    → scheduled k (get j m) ≡ true
    → contains_key k waiting ≡ true
    → scheduled k (get j (prune waiting m)) ≡ true
unfolding prune get
prune_complete waiting [] j k h w = h
prune_complete waiting ((c, q) ∷ m) j k h w =
    let p : Text → Bool = λ i. contains_key i waiting in
    elim (Bool-cases (is_empty (Set.retain p q.messages))) [
      | inl e ↦ elim (Bool-cases (text_eq c j)) [
        | inl f ↦ absurd (
            ground
              (arith, contains-retain k p q.messages, contains_empty k (Set.retain p q.messages)))
        | inr f ↦ rw e (prune_complete waiting m j k (rw f at h) w)
      ]
      | inr e ↦ rw e (ground (arith, contains-retain k p q.messages, prune_complete waiting m j k))
    ]

-- After receipts from a member of the conversation every schedule that is left has a message, and
-- all its messages still wait.
pub apply_direct_receipts-schedules :
    (s : ChatService) (c remote : Text) (rs : List ReplicatedReceipt)
    → is_conversation_member s c remote ≡ true
    → (j : Text) (r : ConversationRetry)
    → get j (apply_direct_receipts s c remote rs).retry_state ≡ some r
    → (is_empty r.messages ≡ false)
      × ((k : Text)
          → Set.contains k r.messages ≡ true
          → contains_key k (apply_direct_receipts s c remote rs).pending_deliveries ≡ true)
unfolding apply_direct_receipts
apply_direct_receipts-schedules s c remote rs h j r =
    rw h (prune_sound (settle_each s c rs).pending_deliveries (settle_each s c rs).retry_state j r)

retry_state-settle :
    (s : ChatService) (c : Text) (r : ReplicatedReceipt)
    → (settle s c r).retry_state ≡ s.retry_state
unfolding settle
retry_state-settle s c r = ground arith

retry_state-settle_each :
    (s : ChatService) (c : Text) (rs : List ReplicatedReceipt)
    → (settle_each s c rs).retry_state ≡ s.retry_state
unfolding settle_each
retry_state-settle_each s c [] = refl
retry_state-settle_each s c (r ∷ rs) =
    retry_state-settle_each (settle s c r) c rs ∙ retry_state-settle s c r

-- Receipts lose no message that still waits: if it was in a conversation's schedule, it is in that
-- conversation's schedule afterwards too.
pub apply_direct_receipts-scheduled :
    (s : ChatService) (c remote : Text) (rs : List ReplicatedReceipt) (j k : Text)
    → scheduled k (get j s.retry_state) ≡ true
    → contains_key k (apply_direct_receipts s c remote rs).pending_deliveries ≡ true
    → scheduled k (get j (apply_direct_receipts s c remote rs).retry_state) ≡ true
unfolding apply_direct_receipts
apply_direct_receipts-scheduled s c remote rs j k h =
    elim (Bool-cases (is_conversation_member s c remote)) [
      | inl e ↦ rw e (
          prune_complete (settle_each s c rs).pending_deliveries (settle_each s c rs).retry_state j
            k (rw (retry_state-settle_each s c rs) h))
      | inr e ↦ rw e (λ w. h)
    ]
