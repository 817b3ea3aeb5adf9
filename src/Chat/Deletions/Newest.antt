-- ===== src/Chat/Deletions/Newest.antt =====
-- Of the deletions that come for one message, the newest is staged.
use wire_app.Common.{
  ◌≡◌, Bool, true, false, ◌&&◌, List, [], ◌∷◌, Option, none, some, arith, Text, text_eq, take,
  text_eq_iff, text_eq_refl, subst, if◌then◌else◌, All, Option-cases, Bool-cases, inl, inr,
}
use wire_app.Common.Int.{leb_ℤ}
use wire_app.Common.Map.{get, get-insert}
use wire_app.Chat.Records.{ReplicatedDeletion, deletion_is_valid}
use wire_app.Chat.Service.{ChatService, is_conversation_member}
use wire_app.Chat.Deletions.{
  Staged, not_newer, stage_deletion, stage_each, staged_or_default, apply_direct_deletions,
}

-- A staged deletion that is at least as new.
abbrev pub covers : Option (Text × ReplicatedDeletion) → ReplicatedDeletion → Bool
covers none d = false
covers (some (author, current)) d = leb_ℤ d.deleted_at current.deleted_at

-- A valid deletion of the message stands in the list.
pub data Sent (m : Text) : List ReplicatedDeletion → ReplicatedDeletion → Type 0 where
  sent_here :
      (d : ReplicatedDeletion) {ds : List ReplicatedDeletion}
      → deletion_is_valid d ≡ true
      → d.message_id ≡ m
      → Sent m (d ∷ ds) d
  sent_there :
      (e : ReplicatedDeletion) {d : ReplicatedDeletion} {ds : List ReplicatedDeletion}
      → Sent m ds d
      → Sent m (e ∷ ds) d

-- What is staged for a message after a request: what was, or a valid deletion that the request has for it.
pub data Staging (remote m : Text) (ds : List ReplicatedDeletion)
    (old : Option (Text × ReplicatedDeletion)) : Option (Text × ReplicatedDeletion) → Type 0 where
  same : Staging remote m ds old old
  replaced : (d : ReplicatedDeletion) → Sent m ds d → Staging remote m ds old (some (remote, d))

pub get-stage_deletion :
    (remote : Text) (d : ReplicatedDeletion) (staged : Staged) (m : Text)
    → get m (stage_deletion remote d staged) ≡ (
        if deletion_is_valid d && not_newer (get d.message_id staged) d && text_eq d.message_id m
        then some (remote, d)
        else get m staged)
unfolding stage_deletion
get-stage_deletion remote d staged m = ground (arith, get-insert m d.message_id (remote, d) staged)

covers-stage_deletion :
    (remote : Text) (d : ReplicatedDeletion) (staged : Staged) (e : ReplicatedDeletion)
    → covers (get e.message_id staged) e ≡ true
    → covers (get e.message_id (stage_deletion remote d staged)) e ≡ true
covers-stage_deletion remote d staged e h = elim (Option-cases (get e.message_id staged)) [
  | inl p ↦ absurd (let f : false ≡ true = (rw p at h) in cc)
  | inr (v, p) ↦ ground (
    arith,
    get-stage_deletion remote d staged e.message_id,
    text_eq_iff d.message_id e.message_id,
  )
]

covers-stage_each :
    (remote : Text) (ds : List ReplicatedDeletion) (staged : Staged) (e : ReplicatedDeletion)
    → covers (get e.message_id staged) e ≡ true
    → covers (get e.message_id (stage_each remote ds staged)) e ≡ true
unfolding stage_each
covers-stage_each remote [] staged e h = h
covers-stage_each remote (d ∷ ds) staged e h =
    covers-stage_each remote ds (stage_deletion remote d staged) e
      (covers-stage_deletion remote d staged e h)

covers_self :
    (remote : Text) (d : ReplicatedDeletion) (staged : Staged)
    → deletion_is_valid d ≡ true
    → covers (get d.message_id (stage_deletion remote d staged)) d ≡ true
covers_self remote d staged v = elim (Option-cases (get d.message_id staged)) [
  | inl p ↦ ground (
    arith,
    get-stage_deletion remote d staged d.message_id,
    text_eq_iff d.message_id d.message_id,
  )
  | inr (w, p) ↦ ground (
    arith,
    get-stage_deletion remote d staged d.message_id,
    text_eq_iff d.message_id d.message_id,
  )
]

stage_each-covers :
    (remote : Text) (ds : List ReplicatedDeletion) (staged : Staged)
    → All
        (λ (d : ReplicatedDeletion).
          deletion_is_valid d ≡ true
          → covers (get d.message_id (stage_each remote ds staged)) d ≡ true)
        ds
unfolding stage_each
stage_each-covers remote [] staged = tt
stage_each-covers remote (d ∷ ds) staged = (
  λ v.
      covers-stage_each remote ds (stage_deletion remote d staged) d
        (covers_self remote d staged v),
  stage_each-covers remote ds (stage_deletion remote d staged),
)

weaken :
    {remote m : Text} (e : ReplicatedDeletion) {ds : List ReplicatedDeletion}
    {old new : Option (Text × ReplicatedDeletion)}
    → Staging remote m ds old new
    → Staging remote m (e ∷ ds) old new
weaken e same = same
weaken e (replaced d sent) = replaced d (sent_there e sent)

after_first :
    {remote m : Text} (d : ReplicatedDeletion) {ds : List ReplicatedDeletion}
    {old new : Option (Text × ReplicatedDeletion)}
    → deletion_is_valid d ≡ true
    → d.message_id ≡ m
    → Staging remote m ds (some (remote, d)) new
    → Staging remote m (d ∷ ds) old new
after_first d v i same = replaced d (sent_here d v i)
after_first d v i (replaced e sent) = replaced e (sent_there d sent)

-- Whether the first deletion is staged for the message.
abbrev takes : Staged → Text → ReplicatedDeletion → Bool
takes staged m d =
    deletion_is_valid d && not_newer (get d.message_id staged) d && text_eq d.message_id m

stage_each-Staging :
    (remote : Text) (ds : List ReplicatedDeletion) (staged : Staged) (m : Text)
    → Staging remote m ds (get m staged) (get m (stage_each remote ds staged))
unfolding stage_each
stage_each-Staging remote [] staged m = same
stage_each-Staging remote (d ∷ ds) staged m =
    let rest = stage_each-Staging remote ds (stage_deletion remote d staged) m in
    let new = get m (stage_each remote ds (stage_deletion remote d staged)) in
    elim (Bool-cases (takes staged m d)) [
      | inl t ↦ after_first d (ground arith) (ground (arith, text_eq_iff d.message_id m)) (
          subst (λ o. Staging remote m ds o new)
            (ground (arith, get-stage_deletion remote d staged m)) rest)
      | inr t ↦ weaken d (
          subst (λ o. Staging remote m ds o new)
            (ground (arith, get-stage_deletion remote d staged m)) rest)
    ]

-- After a request of a member of the conversation, each valid deletion among its first 128, and each one
-- staged before, is covered by what is staged for its message: that one is as new or newer. And what is
-- staged for a message was staged before, or is one of these deletions, under the name of the member.
pub apply_direct_deletions-newest :
    (s : ChatService) (c remote : Text) (ds : List ReplicatedDeletion)
    → is_conversation_member s c remote ≡ true
    → let before = staged_or_default (get c s.staged_deletions) in
      let staged =
        staged_or_default (get c (apply_direct_deletions s c remote ds).1.staged_deletions) in
      All
        (λ (d : ReplicatedDeletion).
          deletion_is_valid d ≡ true → covers (get d.message_id staged) d ≡ true)
        (take 128 ds)
      × ((d : ReplicatedDeletion)
          → covers (get d.message_id before) d ≡ true
          → covers (get d.message_id staged) d ≡ true)
      × ((m : Text) → Staging remote m (take 128 ds) (get m before) (get m staged))
unfolding apply_direct_deletions
apply_direct_deletions-newest s c remote ds h =
    let before = staged_or_default (get c s.staged_deletions) in
    rw
      (
        h,
        get-insert c c (stage_each remote (take 128 ds) before) s.staged_deletions,
        text_eq_refl c,
      )
      (
        stage_each-covers remote (take 128 ds) before,
        covers-stage_each remote (take 128 ds) before,
        stage_each-Staging remote (take 128 ds) before,
      )
