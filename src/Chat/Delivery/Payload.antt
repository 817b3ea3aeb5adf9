-- ===== src/Chat/Delivery/Payload.antt =====
-- The messages that a wake carries: within the budget, all of them waiting, and not none.
use wire_app.Common.{
  ℕ, ◌+◌, ◌≤◌, ◌<◌, ◌≡◌, refl, ap, Bool, true, false, ◌&&◌, List, [], ◌∷◌, Option, none, some,
  arith, Text, text_eq, text_eq_iff, text_eq_refl, ◌⊎◌, subst, sym, ltb, if◌then◌else◌, length,
  is_empty, Bool-cases, Option-cases, inl, inr,
}
use wire_app.Common.Int.{ℤ}
use wire_app.Common.Map.{Map, get}
use wire_app.Common.Set
use wire_app.Chat.Message.{ChatMessage}
use wire_app.Chat.Service.{ChatService, chat_wake_payload_budget, pick_messages, wake_payload_for}
use wire_app.Chat.Delivery.{pending_of}

abbrev pub IsIn : ChatMessage → List ChatMessage → Type 0
IsIn msg [] = ⊥
IsIn msg (m ∷ ms) = (m ≡ msg) ⊎ IsIn msg ms

-- What a message is counted as, and all of a payload.
abbrev pub cost : ChatMessage → ℕ
cost m = length m.body + 256

abbrev pub total : List ChatMessage → ℕ
total [] = 0
total (m ∷ ms) = cost m + total ms

abbrev candidate : Map ChatMessage → Text → Text → Text → Option ChatMessage
candidate outbound c k cid = if text_eq cid c then get k outbound else none

-- What the loop does with an entry of `pending_deliveries`, to the result `out`.
data Pick (outbound : Map ChatMessage) (c : Text) (used : ℕ) (taken : Bool) (k cid : Text)
    (m : Map Text) (out : List ChatMessage) : Type 0 where
  skipped :
      ((msg : ChatMessage)
        → candidate outbound c k cid ≡ some msg
        → chat_wake_payload_budget < cost msg)
      → out ≡ pick_messages outbound c used taken m
      → Pick outbound c used taken k cid m out
  stopped : taken ≡ true → out ≡ [] → Pick outbound c used taken k cid m out
  picked :
      (msg : ChatMessage)
      → candidate outbound c k cid ≡ some msg
      → cost msg ≤ chat_wake_payload_budget
      → (taken ≡ true → used + cost msg ≤ chat_wake_payload_budget)
      → out ≡ msg ∷ pick_messages outbound c (used + cost msg) true m
      → Pick outbound c used taken k cid m out

pick_messages-Pick :
    (outbound : Map ChatMessage) (c : Text) (used : ℕ) (taken : Bool) (k cid : Text) (m : Map Text)
    → Pick outbound c used taken k cid m (pick_messages outbound c used taken ((k, cid) ∷ m))
unfolding pick_messages
pick_messages-Pick outbound c used taken k cid m =
    elim (Option-cases (candidate outbound c k cid)) [
      | inl e ↦
          rw (e, pick_messages)
            (skipped (λ msg f. absurd (let g : none ≡ some msg = rw e at f in cc)) refl)
      | inr (msg, e) ↦ elim (Bool-cases (taken && ltb chat_wake_payload_budget (used + cost msg))) [
        | inl f ↦ rw (e, f, pick_messages) (stopped (ground arith) refl)
        | inr f ↦ elim (Bool-cases (ltb chat_wake_payload_budget (cost msg))) [
          | inl g ↦
              rw (e, f, g, pick_messages)
                (skipped
                  (λ other o.
                    subst (λ (x : ChatMessage). chat_wake_payload_budget < cost x)
                      (let u : some msg ≡ some other = rw e at o in let v : msg ≡ other = cc in v)
                      (ground arith))
                  refl)
          | inr g ↦
              rw (e, f, g, pick_messages) (picked msg e (ground arith) (λ t. ground arith) refl)
        ]
      ]
    ]

pick_messages-nil :
    (outbound : Map ChatMessage) (c : Text) (used : ℕ) (taken : Bool)
    → pick_messages outbound c used taken [] ≡ []
unfolding pick_messages
pick_messages-nil outbound c used taken = refl

total-pick_messages :
    (outbound : Map ChatMessage) (c : Text) (used : ℕ) (taken : Bool) (m : Map Text)
    → (taken ≡ false → used ≡ 0)
    → used ≤ chat_wake_payload_budget
    → used + total (pick_messages outbound c used taken m) ≤ chat_wake_payload_budget
total-pick_messages outbound c used taken [] h b =
    omega (arith, ap total (pick_messages-nil outbound c used taken))
total-pick_messages outbound c used taken ((k, cid) ∷ m) h b =
    elim (pick_messages-Pick outbound c used taken k cid m) [
      | skipped f e ↦ rw e (total-pick_messages outbound c used taken m h b)
      | stopped f e ↦ rw e (omega arith)
      | picked msg f g i e ↦
          let fits : used + cost msg ≤ chat_wake_payload_budget = ground arith in
          rw e (
            omega (
              arith,
              total-pick_messages outbound c (used + cost msg) true m
                  (λ t. absurd (let u : true ≡ false = t in cc)) fits,
            ))
    ]

-- The messages that a wake carries, each counted as its body and 256 bytes, stay within the budget
-- of 200 KiB.
pub wake_payload_for-fits :
    (s : ChatService) (wall : ℤ) (c : Text)
    → total (wake_payload_for s wall c).messages ≤ chat_wake_payload_budget
unfolding wake_payload_for
wake_payload_for-fits s wall c = omega (
  arith,
  total-pick_messages s.pending_outbound c 0 false s.pending_deliveries (λ e. refl) (omega arith),
)

-- The message is the outbound copy of one that waits in the conversation.
abbrev pub IsWaiting : Map ChatMessage → Text → Map Text → ChatMessage → Type 0
IsWaiting outbound c waiting msg =
    (k : Text) × ((Set.contains k (pending_of c waiting) ≡ true) × (get k outbound ≡ some msg))

IsWaiting-tail :
    (outbound : Map ChatMessage) (c k cid : Text) (m : Map Text) (msg : ChatMessage)
    → IsWaiting outbound c m msg
    → IsWaiting outbound c ((k, cid) ∷ m) msg
unfolding pending_of Set.contains
IsWaiting-tail outbound c k cid m msg (j, (listed, found)) = (j, (ground arith, found))

IsWaiting-head :
    (outbound : Map ChatMessage) (c k cid : Text) (m : Map Text) (msg : ChatMessage)
    → candidate outbound c k cid ≡ some msg
    → IsWaiting outbound c ((k, cid) ∷ m) msg
unfolding pending_of Set.contains
IsWaiting-head outbound c k cid m msg e = elim (Bool-cases (text_eq cid c)) [
  | inl f ↦ (k, (ground (arith, text_eq_refl k), rw f at e))
  | inr f ↦ absurd (let g : none ≡ some msg = rw f at e in cc)
]

IsWaiting-cases :
    (outbound : Map ChatMessage) (c k cid : Text) (m : Map Text) (msg : ChatMessage)
    → IsWaiting outbound c ((k, cid) ∷ m) msg
    → (candidate outbound c k cid ≡ some msg) ⊎ IsWaiting outbound c m msg
unfolding pending_of Set.contains
IsWaiting-cases outbound c k cid m msg (j, (listed, found)) = elim (Bool-cases (text_eq cid c)) [
  | inr f ↦ inr (j, (rw f at listed, found))
  | inl f ↦ elim (Bool-cases (text_eq k j)) [
    | inl g ↦ inl (rw f (rw (sym ((text_eq_iff k j).0 g)) at found))
    | inr g ↦ inr (j, (rw (f, g, Set.contains) at listed, found))
  ]
]

pick_messages-IsWaiting :
    (outbound : Map ChatMessage) (c : Text) (used : ℕ) (taken : Bool) (m : Map Text)
    (msg : ChatMessage)
    → IsIn msg (pick_messages outbound c used taken m)
    → IsWaiting outbound c m msg
pick_messages-IsWaiting outbound c used taken [] msg h =
    absurd (rw (pick_messages-nil outbound c used taken) at h)
pick_messages-IsWaiting outbound c used taken ((k, cid) ∷ m) msg h =
    elim (pick_messages-Pick outbound c used taken k cid m) [
      | skipped f e ↦
          IsWaiting-tail outbound c k cid m msg
            (pick_messages-IsWaiting outbound c used taken m msg (rw e at h))
      | stopped f e ↦ absurd (rw e at h)
      | picked first f g i e ↦ elim (rw e at h) [
        | inl same ↦
            IsWaiting-head outbound c k cid m msg
              (subst (λ x. candidate outbound c k cid ≡ some x) same f)
        | inr later ↦
            IsWaiting-tail outbound c k cid m msg
              (pick_messages-IsWaiting outbound c (used + cost first) true m msg later)
      ]
    ]

IsWaiting-nil :
    (outbound : Map ChatMessage) (c : Text) (msg : ChatMessage) → IsWaiting outbound c [] msg → ⊥
unfolding pending_of Set.contains
IsWaiting-nil outbound c msg (j, (listed, found)) = let f : false ≡ true = listed in cc

pick_messages-nonempty :
    (outbound : Map ChatMessage) (c : Text) (m : Map Text) (msg : ChatMessage)
    → IsWaiting outbound c m msg
    → cost msg ≤ chat_wake_payload_budget
    → is_empty (pick_messages outbound c 0 false m) ≡ false
pick_messages-nonempty outbound c [] msg h b = absurd (IsWaiting-nil outbound c msg h)
pick_messages-nonempty outbound c ((k, cid) ∷ m) msg h b =
    elim (pick_messages-Pick outbound c 0 false k cid m) [
      | skipped f e ↦ elim (IsWaiting-cases outbound c k cid m msg h) [
        | inl here ↦ absurd (let large = f msg here in omega arith)
        | inr later ↦ rw e (pick_messages-nonempty outbound c m msg later b)
      ]
      | stopped f e ↦ absurd (let u : false ≡ true = f in cc)
      | picked first f g i e ↦ rw e refl
    ]

-- Every message that a wake carries is the outbound copy of one that waits in the conversation.
pub wake_payload_for-IsWaiting :
    (s : ChatService) (wall : ℤ) (c : Text) (msg : ChatMessage)
    → IsIn msg (wake_payload_for s wall c).messages
    → IsWaiting s.pending_outbound c s.pending_deliveries msg
unfolding wake_payload_for
wake_payload_for-IsWaiting s wall c msg h =
    pick_messages-IsWaiting s.pending_outbound c 0 false s.pending_deliveries msg h

-- If a message that fits the budget waits in the conversation, the wake carries some message: one
-- that is too large does not hold up the others.
pub wake_payload_for-nonempty :
    (s : ChatService) (wall : ℤ) (c : Text) (msg : ChatMessage)
    → IsWaiting s.pending_outbound c s.pending_deliveries msg
    → cost msg ≤ chat_wake_payload_budget
    → is_empty (wake_payload_for s wall c).messages ≡ false
unfolding wake_payload_for
wake_payload_for-nonempty s wall c msg h b =
    pick_messages-nonempty s.pending_outbound c s.pending_deliveries msg h b
