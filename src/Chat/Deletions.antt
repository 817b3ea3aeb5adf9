-- ===== src/Chat/Deletions.antt =====
-- The deletion of messages, on this device alone or for everyone, and its undoing. A deletion for everyone
-- that comes over the chat protocol is staged, and each timeline is made with what is staged.
pub mod OnThisDevice
pub mod Newest
pub mod Authors
pub mod Effect
pub mod Everyone
mod Tests
use wire_app.Common.{
  ℕ, Bool, true, false, not, ◌&&◌, ◌||◌, List, [], ◌∷◌, Option, none, some, Text, text_eq,
  if◌then◌else◌, is_empty, take, map, keep_if,
}
use wire_app.Common.Int.{leb_ℤ}
use wire_app.Common.Map.{Map, get, insert, alter, contains_key}
use wire_app.Common.Map
use wire_app.Common.Set.{Set}
use wire_app.Common.Set
use wire_app.Chat.Message.{ChatMessage, MessageDeletion, on_this_device, everyone, is_message_id}
use wire_app.Chat.Records.{ReplicatedDeletion, is_restoration, deletion_is_valid}
use wire_app.Chat.Service.{ChatService, is_conversation_member}

pub data DeletionError : Type 0 where
  unknown_conversation invalid_message_id not_deleted_locally not_saved : DeletionError

abbrev pub set_or_default : Option Set → Set
set_or_default none = []
set_or_default (some ids) = ids

-- The roll-back: the id goes, and with the last one the entry of the conversation.
unfoldable pub without_id : Text → Text → Map Set → Map Set
without_id c m deletions =
    let removed = alter c (Set.remove m) deletions in
    if is_empty (Set.remove m (set_or_default (get c deletions)))
    then Map.remove c removed
    else removed

-- `delete_message_locally`; the file of local deletions is saved or not. `none` stands for `Ok(())`.
unfoldable pub delete_message_locally :
    ChatService → Bool → Text → Text → Option DeletionError × ChatService
delete_message_locally s saved c m =
    let ids = set_or_default (get c s.local_deletions) in
    let added = insert c (Set.insert m ids) s.local_deletions in
    if not (contains_key c s.conversations)
    then (some unknown_conversation, s)
    else if not (is_message_id m)
    then (some invalid_message_id, s)
    else if saved
    then (none, record s { local_deletions = added })
    else if Set.contains m ids
    then (some not_saved, record s { local_deletions = added })
    else (some not_saved, record s { local_deletions = without_id c m added })

-- `restore_message_locally`.
unfoldable pub restore_message_locally :
    ChatService → Bool → Text → Text → Option DeletionError × ChatService
restore_message_locally s saved c m =
    let ids = set_or_default (get c s.local_deletions) in
    let removed = without_id c m s.local_deletions in
    let again = insert c (Set.insert m (set_or_default (get c removed))) removed in
    if not (contains_key c s.conversations)
    then (some unknown_conversation, s)
    else if not (is_message_id m)
    then (some invalid_message_id, s)
    else if not (Set.contains m ids)
    then (some not_deleted_locally, s)
    else if saved
    then (none, record s { local_deletions = removed })
    else (some not_saved, record s { local_deletions = again })

-- The author and what the author sent, by message.
abbrev pub Staged : Type 0
Staged = Map (Text × ReplicatedDeletion)

abbrev pub not_newer : Option (Text × ReplicatedDeletion) → ReplicatedDeletion → Bool
not_newer none deletion = true
not_newer (some (author, current)) deletion = leb_ℤ current.deleted_at deletion.deleted_at

-- One round of the loop in `apply_direct_deletions`.
unfoldable pub stage_deletion : Text → ReplicatedDeletion → Staged → Staged
stage_deletion remote deletion staged =
    if deletion_is_valid deletion && not_newer (get deletion.message_id staged) deletion
    then insert deletion.message_id (remote, deletion) staged
    else staged

unfoldable pub stage_each : Text → List ReplicatedDeletion → Staged → Staged
stage_each remote [] staged = staged
stage_each remote (d ∷ ds) staged = stage_each remote ds (stage_deletion remote d staged)

abbrev pub staged_or_default : Option Staged → Staged
staged_or_default none = []
staged_or_default (some staged) = staged

-- The accepted ids, and the service.
unfoldable pub apply_direct_deletions :
    ChatService → Text → Text → List ReplicatedDeletion → List Text × ChatService
apply_direct_deletions s c remote deletions =
    let staged = staged_or_default (get c s.staged_deletions) in
    if is_conversation_member s c remote
    then (
      map (λ (d : ReplicatedDeletion). d.message_id)
          (keep_if deletion_is_valid (take 128 deletions)),
      record s {
        staged_deletions =
            insert c (stage_each remote (take 128 deletions) staged) s.staged_deletions;
      },
    )
    else ([], s)

abbrev pub is_on_this_device : Option MessageDeletion → Bool
is_on_this_device (some on_this_device) = true
is_on_this_device o = false

abbrev pub is_everyone : Option MessageDeletion → Bool
is_everyone (some everyone) = true
is_everyone o = false

-- What a staged deletion makes of its message, and whether it stays staged.
unfoldable pub merge_deletion : Text → ReplicatedDeletion → ChatMessage → Bool × ChatMessage
merge_deletion author deletion message =
    if message.replicated_restoration
    then (false, message)
    else if not (text_eq message.author_id author)
    then (true, message)
    else if is_restoration deletion
    then (
      true,
      if is_on_this_device message.deletion then message else record message { deletion = none },
    )
    else if is_everyone message.deletion
    then (false, message)
    else (true, record message { deletion = some everyone })

-- `iter_mut().find(…)`: at the first message with the id, or kept where there is none.
unfoldable pub merge_into :
    Text → Text → ReplicatedDeletion → List ChatMessage → Bool × List ChatMessage
merge_into message_id author deletion [] = (true, [])
merge_into message_id author deletion (m ∷ messages) =
    let here = merge_deletion author deletion m in
    let there = merge_into message_id author deletion messages in
    if text_eq m.message_id message_id then (here.0, here.1 ∷ messages) else (there.0, m ∷ there.1)

-- The loop of `merge_staged_deletions` over what is staged: what stays, and the messages.
unfoldable pub merge_each : Staged → List ChatMessage → Staged × List ChatMessage
merge_each [] messages = ([], messages)
merge_each ((message_id, (author, deletion)) ∷ staged) messages =
    let merged = merge_into message_id author deletion messages in
    let rest = merge_each staged merged.1 in
    (if merged.0 then (message_id, (author, deletion)) ∷ rest.0 else rest.0, rest.1)

abbrev pub staged_again : Text → Staged → Map Staged → Map Staged
staged_again c staged all = if is_empty staged then Map.remove c all else insert c staged all

unfoldable pub merge_staged_deletions :
    ChatService → Text → List ChatMessage → ChatService × List ChatMessage
merge_staged_deletions s c messages = elim (get c s.staged_deletions) [
  | none ↦ (s, messages)
  | some staged ↦
      let merged = merge_each staged messages in
      (record s { staged_deletions = staged_again c merged.0 s.staged_deletions }, merged.1)
]
