-- ===== src/Chat/Timeline/Staged.antt =====
-- What is staged for a conversation: well-formed, and of messages that came in.
use wire_app.Common.{
  ◌≡◌, refl, sym, subst, ◌∙◌, Bool, true, not, List, [], ◌∷◌, ◌++◌, some, arith, Text, text_eq,
  text_lt, text_eq_iff, if◌then◌else◌, All, All-append, is_empty, Option-cases, Bool-cases, inl,
  inr,
}
use mathlib.Core.List.Permᴰ
use wire_app.Common.Map.{Map, get, get-insert, get-remove, insert, values}
use wire_app.Common.Map
use wire_app.Common.Map.Ascending.{IsAscending, IsAscending-insert, IsAscending-retain}
use wire_app.Chat.Message.{ChatMessage}
use wire_app.Chat.Message.Order.{sorted-perm, All-perm}
use wire_app.Chat.Records.{SyncRequest, ReplicatedReceipt, ReplicatedDeletion}
use wire_app.Chat.Service.{ChatService}
use wire_app.Chat.Control.{apply_control_acks, spawn_control_ack}
use wire_app.Chat.Delivery.{apply_direct_receipts, settle, settle_each}
use wire_app.Chat.Deletions.{apply_direct_deletions}
use wire_app.Chat.Timeline.{
  messages_or_default, is_acceptable, stage_message, stage_messages, sync_received, still_staged,
  is_present, inbound_again, merge_staged_inbound,
}
use wire_app.Chat.Timeline.Merged.{IsKeyed}

-- What is staged in a conversation is well-formed, and each message has the property.
pub record IsStaged (P : ChatMessage → Type 0) (staged : Map ChatMessage) : Type 0 where
  pub keyed : IsKeyed staged
  pub ascending : IsAscending staged
  pub each : All P (values staged)

control-inbound :
    (s : ChatService) (c remote : Text) (request : SyncRequest)
    → (apply_control_acks s c remote request).staged_inbound ≡ s.staged_inbound
unfolding apply_control_acks
control-inbound s c remote request = ground arith

settle-inbound :
    (s : ChatService) (c : Text) (r : ReplicatedReceipt)
    → (settle s c r).staged_inbound ≡ s.staged_inbound
unfolding settle
settle-inbound s c r = ground arith

settle_each-inbound :
    (s : ChatService) (c : Text) (rs : List ReplicatedReceipt)
    → (settle_each s c rs).staged_inbound ≡ s.staged_inbound
unfolding settle_each
settle_each-inbound s c [] = refl
settle_each-inbound s c (r ∷ rs) = settle_each-inbound (settle s c r) c rs ∙ settle-inbound s c r

receipts-inbound :
    (s : ChatService) (c remote : Text) (rs : List ReplicatedReceipt)
    → (apply_direct_receipts s c remote rs).staged_inbound ≡ s.staged_inbound
unfolding apply_direct_receipts
receipts-inbound s c remote rs = ground (arith, settle_each-inbound s c rs)

deletions-inbound :
    (s : ChatService) (c remote : Text) (ds : List ReplicatedDeletion)
    → (apply_direct_deletions s c remote ds).1.staged_inbound ≡ s.staged_inbound
unfolding apply_direct_deletions
deletions-inbound s c remote ds = ground arith

sync_received-inbound :
    (s : ChatService) (remote : Text) (request : SyncRequest)
    → let c = request.conversation_id in
      (sync_received s remote request).2.staged_inbound
      ≡ (stage_messages
          (apply_control_acks s c remote request)
          c
          remote
          request.messages).1.staged_inbound
unfolding sync_received spawn_control_ack
sync_received-inbound s remote request =
    let c = request.conversation_id in
    let staged =
      (stage_messages (apply_control_acks s c remote request) c remote request.messages).1 in
    let receipts =
      if is_empty request.receipts
      then staged
      else apply_direct_receipts staged c remote request.receipts in
    ground (
      arith,
      receipts-inbound staged c remote request.receipts,
      deletions-inbound receipts c remote request.deletions,
    )

values-insert :
    (P : ChatMessage → Type 0) (k : Text) (m : ChatMessage) (staged : Map ChatMessage)
    → P m
    → All P (values staged)
    → All P (values (insert k m staged))
unfolding insert
values-insert P k m [] p h = (p, tt)
values-insert P k m ((j, w) ∷ staged) p h = elim (Bool-cases (text_eq j k)) [
  | inl e ↦ rw e (p, h.1)
  | inr e ↦ elim (Bool-cases (text_lt k j)) [
    | inl f ↦ rw (e, f) (p, h)
    | inr f ↦ rw (e, f) (h.0, values-insert P k m staged p h.1)
  ]
]

IsKeyed-insert :
    (m : ChatMessage) (staged : Map ChatMessage)
    → IsKeyed staged
    → IsKeyed (insert m.message_id m staged)
unfolding insert
IsKeyed-insert m [] h = (refl, tt)
IsKeyed-insert m ((j, w) ∷ staged) h = elim (Bool-cases (text_eq j m.message_id)) [
  | inl e ↦ rw e (refl, h.1)
  | inr e ↦ elim (Bool-cases (text_lt m.message_id j)) [
    | inl f ↦ rw (e, f) (refl, h)
    | inr f ↦ rw (e, f) (h.0, IsKeyed-insert m staged h.1)
  ]
]

abbrev pub inbound : ChatService → Text → Map ChatMessage
inbound s c = messages_or_default (get c s.staged_inbound)

-- A message of a list.
pub data In (m : ChatMessage) : List ChatMessage → Type 0 where
  in_first : (ms : List ChatMessage) → In m (m ∷ ms)
  in_rest : (n : ChatMessage) {ms : List ChatMessage} → In m ms → In m (n ∷ ms)

pub All-In :
    (Q : ChatMessage → Type 0) (ms : List ChatMessage)
    → ((m : ChatMessage) → In m ms → Q m)
    → All Q ms
All-In Q [] f = tt
All-In Q (m ∷ ms) f = (f m (in_first ms), All-In Q ms (λ n i. f n (in_rest m i)))

acceptable-stage_message :
    (s : ChatService) (c remote : Text) (m n : ChatMessage)
    → is_acceptable (stage_message s c remote m).1 remote n ≡ is_acceptable s remote n
unfolding stage_message is_acceptable
acceptable-stage_message s c remote m n = ground arith

acceptable-control :
    (s : ChatService) (c remote : Text) (request : SyncRequest) (n : ChatMessage)
    → is_acceptable (apply_control_acks s c remote request) remote n ≡ is_acceptable s remote n
unfolding apply_control_acks is_acceptable
acceptable-control s c remote request n = ground arith

retain-IsKeyed :
    (p : Text → ChatMessage → Bool) (staged : Map ChatMessage)
    → IsKeyed staged
    → IsKeyed (Map.retain p staged)
unfolding Map.retain
retain-IsKeyed p [] h = tt
retain-IsKeyed p ((j, m) ∷ staged) h = elim (Bool-cases (p j m)) [
  | inl e ↦ rw e (h.0, retain-IsKeyed p staged h.1)
  | inr e ↦ rw e (retain-IsKeyed p staged h.1)
]

values-retain :
    (P : ChatMessage → Type 0) (p : Text → ChatMessage → Bool) (staged : Map ChatMessage)
    → All P (values staged)
    → All P (values (Map.retain p staged))
unfolding Map.retain
values-retain P p [] h = tt
values-retain P p ((j, m) ∷ staged) h = elim (Bool-cases (p j m)) [
  | inl e ↦ rw e (h.0, values-retain P p staged h.1)
  | inr e ↦ rw e (values-retain P p staged h.1)
]

inbound-again :
    (c d : Text) (staged : Map ChatMessage) (all : Map (Map ChatMessage))
    → messages_or_default (get d (inbound_again c staged all))
      ≡ (if text_eq c d then staged else messages_or_default (get d all))
inbound-again c d [] all = ground (arith, get-remove d c all)
inbound-again c d (e ∷ staged) all = ground (arith, get-insert d c (e ∷ staged) all)

module _ (P : ChatMessage → Type 0) where
  -- Whether the messages that are staged in the conversation have the property.
  abbrev Brings : ChatService → Text → Text → Text → ChatMessage → Type 0
  Brings s c d remote m = text_eq c d ≡ true → is_acceptable s remote m ≡ true → P m

  stage_message-IsStaged :
      (s : ChatService) (c remote : Text) (m : ChatMessage) (d : Text)
      → Brings s c d remote m
      → IsStaged P (inbound s d)
      → IsStaged P (inbound (stage_message s c remote m).1 d)
  unfolding stage_message
  stage_message-IsStaged s c remote m d p h =
      let staged = inbound s c in
      elim (Bool-cases (is_acceptable s remote m)) [
        | inr e ↦ rw e h
        | inl e ↦ elim (Bool-cases (text_eq c d)) [
          | inr f ↦ rw (e, get-insert d c (insert m.message_id m staged) s.staged_inbound, f) h
          | inl f ↦
              let here : IsStaged P staged =
                subst (λ x. IsStaged P (inbound s x)) (sym ((text_eq_iff c d).0 f)) h in
              rw (e, get-insert d c (insert m.message_id m staged) s.staged_inbound, f)
                (record {
                  keyed = IsKeyed-insert m staged here.keyed;
                  ascending = IsAscending-insert m.message_id m staged here.ascending;
                  each = values-insert P m.message_id m staged (p f e) here.each;
                })
        ]
      ]

  stage_messages-IsStaged :
      (s : ChatService) (c remote : Text) (ms : List ChatMessage) (d : Text)
      → ((m : ChatMessage) → In m ms → Brings s c d remote m)
      → IsStaged P (inbound s d)
      → IsStaged P (inbound (stage_messages s c remote ms).1 d)
  unfolding stage_messages
  stage_messages-IsStaged s c remote [] d p h = h
  stage_messages-IsStaged s c remote (m ∷ ms) d p h =
      stage_messages-IsStaged (stage_message s c remote m).1 c remote ms d
        (λ n i f e. p n (in_rest m i) f (sym (acceptable-stage_message s c remote m n) ∙ e))
        (stage_message-IsStaged s c remote m d (p m (in_first ms)) h)

  pub sync_received-IsStaged :
      (s : ChatService) (remote : Text) (request : SyncRequest) (d : Text)
      → ((m : ChatMessage) → In m request.messages → Brings s request.conversation_id d remote m)
      → IsStaged P (inbound s d)
      → IsStaged P (inbound (sync_received s remote request).2 d)
  sync_received-IsStaged s remote request d p h =
      let c = request.conversation_id in
      let acked = apply_control_acks s c remote request in
      let start : IsStaged P (inbound acked d) = rw (control-inbound s c remote request) h in
      rw (sync_received-inbound s remote request) (
        stage_messages-IsStaged acked c remote request.messages d
          (λ m i f e. p m i f (sym (acceptable-control s c remote request m) ∙ e)) start)

  retain-IsStaged :
      (messages : List ChatMessage) (staged : Map ChatMessage)
      → IsStaged P staged
      → IsStaged P (still_staged messages staged)
  retain-IsStaged messages staged h = record {
    keyed = retain-IsKeyed (λ k _. not (is_present k messages)) staged h.keyed;
    ascending = IsAscending-retain (λ k _. not (is_present k messages)) staged h.ascending;
    each = values-retain P (λ k _. not (is_present k messages)) staged h.each;
  }

  pub published-IsStaged :
      (s : ChatService) (c : Text) (messages : List ChatMessage) (d : Text)
      → IsStaged P (inbound s d)
      → IsStaged P (inbound (merge_staged_inbound s c messages).0 d)
  unfolding merge_staged_inbound
  published-IsStaged s c messages d h = elim (Option-cases (get c s.staged_inbound)) [
    | inl e ↦ rw (e, merge_staged_inbound) h
    | inr (staged, e) ↦
        rw
          (
            e,
            merge_staged_inbound,
            inbound-again c d (still_staged messages staged) s.staged_inbound,
          )
          (elim (Bool-cases (text_eq c d)) [
            | inl f ↦
                let here : get d s.staged_inbound ≡ some staged =
                  subst (λ x. get x s.staged_inbound ≡ some staged) ((text_eq_iff c d).0 f) e in
                rw f (retain-IsStaged messages staged (rw here at h))
            | inr f ↦ rw f h
          ])
  ]

  -- The timeline of messages that all have the property.
  pub merged-All :
      (s : ChatService) (c : Text) (messages : List ChatMessage)
      → All P messages
      → IsStaged P (inbound s c)
      → All P (merge_staged_inbound s c messages).1
  unfolding merge_staged_inbound
  merged-All s c messages q h = elim (Option-cases (get c s.staged_inbound)) [
    | inl e ↦ rw (e, merge_staged_inbound) q
    | inr (staged, e) ↦
        let all = messages ++ values (still_staged messages staged) in
        let kept : All P (values (still_staged messages staged)) =
          (retain-IsStaged messages staged (rw e at h)).each in
        rw (e, merge_staged_inbound)
          (All-perm P (Permᴰ.symm (sorted-perm all))
            (All-append P messages (values (still_staged messages staged)) (q, kept)))
  ]
