-- ===== src/Chat/Deletions/Everyone.antt =====
-- A deletion for everyone, from the request to the timeline.
use wire_app.Common.{
  ◌≡◌, refl, ap, ◌∙◌, true, false, ◌&&◌, List, [], ◌∷◌, Option, none, some, arith, Text, text_eq,
  text_eq_refl, Bool-cases, inl, inr, subst,
}
use wire_app.Common.Map.{get, get-insert}
use wire_app.Common.Map.Ascending.{IsAscending, IsAscending-insert, IsAbove-contains_key}
use wire_app.Chat.Message.{ChatMessage, MessageDeletion, everyone, on_this_device}
use wire_app.Chat.Records.{ReplicatedDeletion, deletion_is_valid, is_restoration}
use wire_app.Chat.Service.{ChatService, is_conversation_member}
use wire_app.Chat.Control.Acks.{IsMap}
use wire_app.Chat.Deletions.{
  Staged, is_everyone, not_newer, stage_deletion, stage_each, staged_or_default,
  apply_direct_deletions, merge_deletion, merge_staged_deletions,
}
use wire_app.Chat.Deletions.Newest.{get-stage_deletion}
use wire_app.Chat.Deletions.Authors.{member_still}
use wire_app.Chat.Deletions.Effect.{find, merge_staged_deletions-find}

-- What is staged in the conversation.
abbrev pub staged_in : ChatService → Text → Staged
staged_in s c = staged_or_default (get c s.staged_deletions)

IsAscending-IsMap : (m : Staged) → IsAscending m → IsMap m
IsAscending-IsMap [] h = tt
IsAscending-IsMap ((k, v) ∷ m) h = (IsAbove-contains_key k m h.0, IsAscending-IsMap m h.1)

stage_each-IsAscending :
    (remote : Text) (ds : List ReplicatedDeletion) (staged : Staged)
    → IsAscending staged
    → IsAscending (stage_each remote ds staged)
unfolding stage_each stage_deletion
stage_each-IsAscending remote [] staged h = h
stage_each-IsAscending remote (d ∷ ds) staged h =
    elim (Bool-cases (deletion_is_valid d && not_newer (get d.message_id staged) d)) [
      | inl e ↦ rw e (
          stage_each-IsAscending remote ds _ (IsAscending-insert d.message_id (remote, d) staged h))
      | inr e ↦ rw e (stage_each-IsAscending remote ds staged h)
    ]

apply_direct_deletions-staged :
    (s : ChatService) (c remote : Text) (d : ReplicatedDeletion)
    → is_conversation_member s c remote ≡ true
    → staged_in (apply_direct_deletions s c remote (d ∷ [])).1 c
      ≡ stage_deletion remote d (staged_in s c)
unfolding apply_direct_deletions stage_each
apply_direct_deletions-staged s c remote d h =
    rw
      (
        h,
        get-insert c c (stage_deletion remote d (staged_in s c)) s.staged_deletions,
        text_eq_refl c,
      )
      refl

everyone-eq : (o : Option MessageDeletion) → is_everyone o ≡ true → o ≡ some everyone
everyone-eq none h = cc
everyone-eq (some everyone) h = refl
everyone-eq (some on_this_device) h = cc

merge_deletion-everyone :
    (d : ReplicatedDeletion) (m : ChatMessage)
    → is_restoration d ≡ false
    → m.replicated_restoration ≡ false
    → (merge_deletion m.author_id d m).1 ≡ record m { deletion = some everyone }
unfolding merge_deletion
merge_deletion-everyone d m h g = elim (Bool-cases (is_everyone m.deletion)) [
  | inl e ↦ rw (g, text_eq_refl m.author_id, h, e) (ground (arith, everyone-eq m.deletion))
  | inr e ↦ rw (g, text_eq_refl m.author_id, h, e) refl
]

merge_deletion_other :
    (a : Text) (d : ReplicatedDeletion) (m : ChatMessage)
    → text_eq m.author_id a ≡ false
    → (merge_deletion a d m).1 ≡ m
unfolding merge_deletion
merge_deletion_other a d m h = ground arith

accepted :
    (s : ChatService) (c remote : Text) (d : ReplicatedDeletion)
    → is_conversation_member s c remote ≡ true
    → deletion_is_valid d ≡ true
    → (apply_direct_deletions s c remote (d ∷ [])).0 ≡ d.message_id ∷ []
unfolding apply_direct_deletions
accepted s c remote d h v = rw (h, v) refl

-- What is staged for a message after one deletion of it, and that no message stands twice.
staged_after :
    (s : ChatService) (c remote : Text) (d : ReplicatedDeletion)
    → is_conversation_member s c remote ≡ true
    → deletion_is_valid d ≡ true
    → not_newer (get d.message_id (staged_in s c)) d ≡ true
    → get d.message_id (staged_in (apply_direct_deletions s c remote (d ∷ [])).1 c)
      ≡ some (remote, d)
staged_after s c remote d member valid newer =
    rw
      (
        apply_direct_deletions-staged s c remote d member,
        get-stage_deletion remote d (staged_in s c) d.message_id,
        valid,
        newer,
        text_eq_refl d.message_id,
      )
      refl

still-IsAscending :
    (s : ChatService) (c remote : Text) (d : ReplicatedDeletion)
    → is_conversation_member s c remote ≡ true
    → IsAscending (staged_in s c)
    → IsAscending (staged_in (apply_direct_deletions s c remote (d ∷ [])).1 c)
unfolding stage_each
still-IsAscending s c remote d member asc =
    rw (apply_direct_deletions-staged s c remote d member)
      (stage_each-IsAscending remote (d ∷ []) (staged_in s c) asc)

-- A message that its author deletes for everyone is deleted: after a valid deletion that comes from the author, a
-- member, and is not older than the one staged for the message, the next timeline shows the message as
-- deleted for everyone, unless the document has restored it. What is staged ascends by message, as in a `BTreeMap`.
pub apply_direct_deletions-everyone :
    (s : ChatService) (c : Text) (d : ReplicatedDeletion) (ms : List ChatMessage) (m : ChatMessage)
    → IsAscending (staged_in s c)
    → find d.message_id ms ≡ some m
    → is_conversation_member s c m.author_id ≡ true
    → deletion_is_valid d ≡ true
    → is_restoration d ≡ false
    → not_newer (get d.message_id (staged_in s c)) d ≡ true
    → m.replicated_restoration ≡ false
    → find d.message_id
        (merge_staged_deletions (apply_direct_deletions s c m.author_id (d ∷ [])).1 c ms).1
      ≡ some (record m { deletion = some everyone })
apply_direct_deletions-everyone s c d ms m asc f member valid deletes newer live =
    let after = (apply_direct_deletions s c m.author_id (d ∷ [])).1 in
    rw
      (
        (merge_staged_deletions-find after c ms d.message_id (
            IsAscending-IsMap (staged_in after c)
              (still-IsAscending s c m.author_id d member asc))).0,
        f,
        staged_after s c m.author_id d member valid newer,
      )
      (ap some (merge_deletion-everyone d m deletes live))

-- Another member can undo that before the timeline is made: where a further member sends a valid deletion of the
-- same message that is not older, it takes the place of the author's, and as it is not of the author, the
-- message stays as it is. The author's deletion has been accepted all the same.
pub apply_direct_deletions_outbid :
    (s : ChatService) (c other : Text) (d e : ReplicatedDeletion) (ms : List ChatMessage)
    (m : ChatMessage)
    → IsAscending (staged_in s c)
    → find d.message_id ms ≡ some m
    → is_conversation_member s c m.author_id ≡ true
    → is_conversation_member s c other ≡ true
    → text_eq m.author_id other ≡ false
    → deletion_is_valid d ≡ true
    → deletion_is_valid e ≡ true
    → e.message_id ≡ d.message_id
    → not_newer (get d.message_id (staged_in s c)) d ≡ true
    → not_newer (some (m.author_id, d)) e ≡ true
    → let first = apply_direct_deletions s c m.author_id (d ∷ []) in
      (first.0 ≡ d.message_id ∷ [])
      × (find d.message_id
            (merge_staged_deletions (apply_direct_deletions first.1 c other (e ∷ [])).1 c ms).1
          ≡ some m)
apply_direct_deletions_outbid s c other d e ms m asc f member member' differs valid valid' same
      newer newer' =
    let first = (apply_direct_deletions s c m.author_id (d ∷ [])).1 in
    let member'' : is_conversation_member first c other ≡ true =
      member_still s c m.author_id (d ∷ []) other ∙ member' in
    let later : not_newer (get e.message_id (staged_in first c)) e ≡ true =
      rw (same, staged_after s c m.author_id d member valid newer) newer' in
    let second = (apply_direct_deletions first c other (e ∷ [])).1 in
    let taken : get d.message_id (staged_in second c) ≡ some (other, e) =
      subst (λ k. get k (staged_in second c) ≡ some (other, e)) same
        (staged_after first c other e member'' valid' later) in
    let ascending : IsAscending (staged_in second c) =
      still-IsAscending first c other e member'' (still-IsAscending s c m.author_id d member asc) in
    (
      accepted s c m.author_id d member valid,
      rw
          (
            (merge_staged_deletions-find second c ms d.message_id
                (IsAscending-IsMap (staged_in second c) ascending)).0,
            f,
            taken,
          )
          (ap some (merge_deletion_other other e m differs)),
    )
