-- ===== src/Chat/Deletions/Authors.antt =====
-- What members send over the chat protocol deletes and restores their own messages alone.
use wire_app.Common.{
  ◌≡◌, refl, sym, subst, ◌∙◌, Bool, true, ◌&&◌, List, [], ◌∷◌, Option, none, some, arith, Text,
  text_eq, take, text_eq_iff, text_eq_refl, text_lt, All, Option-cases, Bool-cases, inl, inr,
}
use wire_app.Common.Map.{get, get-insert, insert}
use wire_app.Chat.Message.{ChatMessage, MessageDeletion, everyone}
use wire_app.Chat.Records.{ReplicatedDeletion, deletion_is_valid, is_restoration}
use wire_app.Chat.Service.{ChatService, is_conversation_member}
use wire_app.Chat.Deletions.{
  Staged, not_newer, is_on_this_device, is_everyone, stage_deletion, stage_each, staged_or_default,
  apply_direct_deletions, merge_deletion, merge_into, merge_each, merge_staged_deletions,
}
use wire_app.Chat.Deletions.Newest.{Sent, sent_here, sent_there}

-- Who sends which deletions, in order.
abbrev pub Requests : Type 0
Requests = List (Text × List ReplicatedDeletion)

unfoldable pub run_requests : ChatService → Text → Requests → ChatService
run_requests s c [] = s
run_requests s c ((remote, ds) ∷ requests) =
    run_requests (apply_direct_deletions s c remote ds).1 c requests

-- The member sends a valid deletion of the message, among the first 128 of a request.
pub data SentIn (s : ChatService) (c a m : Text) : Requests → Type 0 where
  in_request :
      (d : ReplicatedDeletion) {ds : List ReplicatedDeletion} {requests : Requests}
      → is_conversation_member s c a ≡ true
      → Sent m (take 128 ds) d
      → SentIn s c a m ((a, ds) ∷ requests)
  in_later :
      (remote : Text) (ds : List ReplicatedDeletion) {requests : Requests}
      → SentIn s c a m requests
      → SentIn s c a m ((remote, ds) ∷ requests)

pub member_still :
    (s : ChatService) (c remote : Text) (ds : List ReplicatedDeletion) (a : Text)
    → is_conversation_member (apply_direct_deletions s c remote ds).1 c a
      ≡ is_conversation_member s c a
unfolding apply_direct_deletions is_conversation_member
member_still s c remote ds a = ground arith

-- A message with its deletion set anew, where the author is entitled to it.
pub data Reset (P : Text → Text → Type 0) (m : ChatMessage) : ChatMessage → Type 0 where
  untouched : Reset P m m
  reset :
      (o : Option MessageDeletion)
      → P m.author_id m.message_id
      → Reset P m (record m { deletion = o })

pub data Resets (P : Text → Text → Type 0) : List ChatMessage → List ChatMessage → Type 0 where
  no_messages : Resets P [] []
  each :
      {m m' : ChatMessage} {ms ms' : List ChatMessage}
      → Reset P m m'
      → Resets P ms ms'
      → Resets P (m ∷ ms) (m' ∷ ms')

module _ (P : Text → Text → Type 0) where
  -- Each staged deletion is of an entitled author.
  abbrev IsBacked : Staged → Type 0
  IsBacked staged = All (λ (e : Text × (Text × ReplicatedDeletion)). P e.1.0 e.0) staged

  abbrev Entitles : Text → List ReplicatedDeletion → Type 0
  Entitles remote ds =
      All (λ (d : ReplicatedDeletion). deletion_is_valid d ≡ true → P remote d.message_id) ds

  insert-IsBacked :
      (k a : Text) (d : ReplicatedDeletion) (staged : Staged)
      → P a k
      → IsBacked staged
      → IsBacked (insert k (a, d) staged)
  unfolding insert
  insert-IsBacked k a d [] p h = (p, tt)
  insert-IsBacked k a d ((j, w) ∷ staged) p h = elim (Bool-cases (text_eq j k)) [
    | inl e ↦ rw e (p, h.1)
    | inr e ↦ elim (Bool-cases (text_lt k j)) [
      | inl f ↦ rw (e, f) (p, h)
      | inr f ↦ rw (e, f) (h.0, insert-IsBacked k a d staged p h.1)
    ]
  ]

  stage_deletion-IsBacked :
      (remote : Text) (d : ReplicatedDeletion) (staged : Staged)
      → (deletion_is_valid d ≡ true → P remote d.message_id)
      → IsBacked staged
      → IsBacked (stage_deletion remote d staged)
  unfolding stage_deletion
  stage_deletion-IsBacked remote d staged q h =
      elim (Bool-cases (deletion_is_valid d && not_newer (get d.message_id staged) d)) [
        | inl e ↦ rw e (insert-IsBacked d.message_id remote d staged (q (ground arith)) h)
        | inr e ↦ rw e h
      ]

  stage_each-IsBacked :
      (remote : Text) (ds : List ReplicatedDeletion) (staged : Staged)
      → Entitles remote ds
      → IsBacked staged
      → IsBacked (stage_each remote ds staged)
  unfolding stage_each
  stage_each-IsBacked remote [] staged q h = h
  stage_each-IsBacked remote (d ∷ ds) staged q h =
      stage_each-IsBacked remote ds (stage_deletion remote d staged) q.1
        (stage_deletion-IsBacked remote d staged q.0 h)

  Reset-trans : {m m' m'' : ChatMessage} → Reset P m m' → Reset P m' m'' → Reset P m m''
  Reset-trans untouched r = r
  Reset-trans (reset o p) untouched = reset o p
  Reset-trans (reset o p) (reset o' p') = reset o' p'

  Resets-trans :
      {ms ms' ms'' : List ChatMessage} → Resets P ms ms' → Resets P ms' ms'' → Resets P ms ms''
  Resets-trans no_messages no_messages = no_messages
  Resets-trans (each r rs) (each r' rs') = each (Reset-trans r r') (Resets-trans rs rs')

  Resets-refl : (ms : List ChatMessage) → Resets P ms ms
  Resets-refl [] = no_messages
  Resets-refl (m ∷ ms) = each untouched (Resets-refl ms)

  merge_deletion-Reset :
      (a : Text) (d : ReplicatedDeletion) (m : ChatMessage)
      → P a m.message_id
      → Reset P m (merge_deletion a d m).1
  unfolding merge_deletion
  merge_deletion-Reset a d m p = elim (Bool-cases m.replicated_restoration) [
    | inl e ↦ rw e untouched
    | inr e ↦ elim (Bool-cases (text_eq m.author_id a)) [
      | inr f ↦ rw (e, f) untouched
      | inl f ↦
          let q : P m.author_id m.message_id =
            subst (λ b. P b m.message_id) (sym ((text_eq_iff m.author_id a).0 f)) p in
          elim (Bool-cases (is_restoration d)) [
            | inl g ↦ elim (Bool-cases (is_on_this_device m.deletion)) [
              | inl k ↦ rw (e, f, g, k) untouched
              | inr k ↦ rw (e, f, g, k) (reset none q)
            ]
            | inr g ↦ elim (Bool-cases (is_everyone m.deletion)) [
              | inl k ↦ rw (e, f, g, k) untouched
              | inr k ↦ rw (e, f, g, k) (reset (some everyone) q)
            ]
          ]
    ]
  ]

  merge_into-Resets :
      (k a : Text) (d : ReplicatedDeletion) (ms : List ChatMessage)
      → P a k
      → Resets P ms (merge_into k a d ms).1
  unfolding merge_into
  merge_into-Resets k a d [] p = no_messages
  merge_into-Resets k a d (m ∷ ms) p = elim (Bool-cases (text_eq m.message_id k)) [
    | inl e ↦ rw e (
        each (merge_deletion-Reset a d m (subst (P a) (sym ((text_eq_iff m.message_id k).0 e)) p))
          (Resets-refl ms))
    | inr e ↦ rw e (each untouched (merge_into-Resets k a d ms p))
  ]

  merge_each-Resets :
      (staged : Staged) (ms : List ChatMessage)
      → IsBacked staged
      → Resets P ms (merge_each staged ms).1
  unfolding merge_each
  merge_each-Resets [] ms h = Resets-refl ms
  merge_each-Resets ((k, (a, d)) ∷ staged) ms h =
      Resets-trans (merge_into-Resets k a d ms h.0)
        (merge_each-Resets staged (merge_into k a d ms).1 h.1)

  -- The members are entitled to what they send.
  abbrev Entitled : (Text → Bool) → Requests → Type 0
  Entitled member requests =
      All (λ (r : Text × List ReplicatedDeletion). member r.0 ≡ true → Entitles r.0 (take 128 r.1))
        requests

  abbrev HasBacked : ChatService → Text → Type 0
  HasBacked s c = IsBacked (staged_or_default (get c s.staged_deletions))

  apply_direct_deletions-HasBacked :
      (s : ChatService) (c remote : Text) (ds : List ReplicatedDeletion)
      → (is_conversation_member s c remote ≡ true → Entitles remote (take 128 ds))
      → HasBacked s c
      → HasBacked (apply_direct_deletions s c remote ds).1 c
  unfolding apply_direct_deletions
  apply_direct_deletions-HasBacked s c remote ds q h =
      let before = staged_or_default (get c s.staged_deletions) in
      elim (Bool-cases (is_conversation_member s c remote)) [
        | inl e ↦
            rw
              (
                e,
                get-insert c c (stage_each remote (take 128 ds) before) s.staged_deletions,
                text_eq_refl c,
              )
              (stage_each-IsBacked remote (take 128 ds) before (q e) h)
        | inr e ↦ rw e h
      ]

  run_requests-HasBacked :
      (s : ChatService) (c : Text) (member : Text → Bool) (requests : Requests)
      → ((a : Text) → is_conversation_member s c a ≡ member a)
      → Entitled member requests
      → HasBacked s c
      → HasBacked (run_requests s c requests) c
  unfolding run_requests
  run_requests-HasBacked s c member [] e q h = h
  run_requests-HasBacked s c member ((remote, ds) ∷ requests) e q h =
      run_requests-HasBacked (apply_direct_deletions s c remote ds).1 c member requests
        (λ a. member_still s c remote ds a ∙ e a) q.1
        (apply_direct_deletions-HasBacked s c remote ds (λ m. q.0 (sym (e remote) ∙ m)) h)

  merge_staged_deletions-Resets :
      (s : ChatService) (c : Text) (ms : List ChatMessage)
      → HasBacked s c
      → Resets P ms (merge_staged_deletions s c ms).1
  unfolding merge_staged_deletions
  merge_staged_deletions-Resets s c ms h = elim (Option-cases (get c s.staged_deletions)) [
    | inl e ↦ rw (e, merge_staged_deletions) (Resets-refl ms)
    | inr (staged, e) ↦ rw (e, merge_staged_deletions) (merge_each-Resets staged ms (rw e at h))
  ]

All-Sent :
    (Q : Text → Type 0) (ds : List ReplicatedDeletion)
    → ((m : Text) (d : ReplicatedDeletion) → Sent m ds d → Q m)
    → All (λ (d : ReplicatedDeletion). deletion_is_valid d ≡ true → Q d.message_id) ds
All-Sent Q [] f = tt
All-Sent Q (d ∷ ds) f = (
  λ v. f d.message_id d (sent_here d v refl),
  All-Sent Q ds (λ m e sent. f m e (sent_there d sent)),
)

SentIn-Entitled :
    (s : ChatService) (c : Text) (P : Text → Text → Type 0) (requests : Requests)
    → ((a m : Text) → SentIn s c a m requests → P a m)
    → Entitled P (is_conversation_member s c) requests
SentIn-Entitled s c P [] f = tt
SentIn-Entitled s c P ((remote, ds) ∷ requests) f = (
  λ member. All-Sent (P remote) (take 128 ds) (λ m d sent. f remote m (in_request d member sent)),
  SentIn-Entitled s c P requests (λ a m sent. f a m (in_later remote ds sent)),
)

-- Nobody deletes or restores a message of another: where nothing is staged in the conversation, and requests
-- of any nodes come in any order, the timeline that is made afterwards has the same messages in their order,
-- and a message differs at most in its deletion, and only if its own author is a member and sent a valid
-- deletion or restoration of it among the first 128 of a request.
pub merge_staged_deletions-authors :
    (s : ChatService) (c : Text) (requests : Requests) (messages : List ChatMessage)
    → get c s.staged_deletions ≡ none
    → Resets
        (λ a m. SentIn s c a m requests)
        messages
        (merge_staged_deletions (run_requests s c requests) c messages).1
merge_staged_deletions-authors s c requests messages h =
    let P : Text → Text → Type 0 = λ a m. SentIn s c a m requests in
    merge_staged_deletions-Resets P (run_requests s c requests) c messages (
      run_requests-HasBacked P s c (is_conversation_member s c) requests (λ a. refl)
        (SentIn-Entitled s c P requests (λ a m sent. sent)) (rw h tt))
