-- ===== src/Chat/Deletions/OnThisDevice.antt =====
-- What deleting and restoring on this device does to the index of local deletions.
use wire_app.Common.{
  ◌≡◌, refl, Bool, true, false, not, ◌&&◌, ◌||◌, [], ◌∷◌, Option, none, some, arith, Text, text_eq,
  text_eq_iff, is_empty, Option-cases, inl, inr,
}
use wire_app.Common.Map.{Map, get, contains_key, get-insert, get-alter, get-remove, map_option}
use wire_app.Common.Map
use wire_app.Common.Set.{Set, contains-insert, contains-remove}
use wire_app.Common.Set
use wire_app.Chat.Message.{is_message_id}
use wire_app.Chat.Service.{ChatService}
use wire_app.Chat.Deletions.{
  DeletionError, set_or_default, without_id, delete_message_locally, restore_message_locally,
}

-- Whether a message of a conversation is deleted on this device.
unfoldable pub is_deleted : Text → Text → Map Set → Bool
is_deleted c m deletions = Set.contains m (set_or_default (get c deletions))

abbrev pub went_well : Option DeletionError → Bool
went_well none = true
went_well (some e) = false

is_deleted-added :
    (c m d x : Text) (deletions : Map Set)
    → is_deleted d x (Map.insert c (Set.insert m (set_or_default (get c deletions))) deletions)
      ≡ (is_deleted d x deletions || text_eq c d && text_eq m x)
unfolding is_deleted
is_deleted-added c m d x deletions =
    rw (get-insert d c (Set.insert m (set_or_default (get c deletions))) deletions)
      (ground (arith, contains-insert x m (set_or_default (get c deletions)), text_eq_iff c d))

contains_empty : (x : Text) (s : Set) → is_empty s ≡ true → Set.contains x s ≡ false
unfolding Set.contains
contains_empty x [] h = refl
contains_empty x (y ∷ s) h = absurd (let f : false ≡ true = h in cc)

contains_nil : (x : Text) → Set.contains x [] ≡ false
unfolding Set.contains
contains_nil x = refl

deleted_here :
    (c m : Text) (deletions : Map Set)
    → is_deleted c m deletions ≡ Set.contains m (set_or_default (get c deletions))
unfolding is_deleted
deleted_here c m deletions = refl

contained :
    (c m d x : Text) (deletions : Map Set)
    → (text_eq c d && text_eq m x) ≡ true
    → is_deleted d x deletions ≡ Set.contains m (set_or_default (get c deletions))
unfolding is_deleted
contained c m d x deletions h = ground (arith, text_eq_iff c d, text_eq_iff m x)

is_deleted-without_id :
    (c m d x : Text) (deletions : Map Set)
    → is_deleted d x (without_id c m deletions)
      ≡ (is_deleted d x deletions && not (text_eq c d && text_eq m x))
unfolding is_deleted without_id
is_deleted-without_id c m d x deletions = elim (Option-cases (get d deletions)) [
  | inl e ↦ ground (
    arith,
    get-remove d c (Map.alter c (Set.remove m) deletions),
    get-alter d c (Set.remove m) deletions,
    contains_nil x,
    text_eq_iff c d,
  )
  | inr (ids, e) ↦ ground (
    arith,
    get-remove d c (Map.alter c (Set.remove m) deletions),
    get-alter d c (Set.remove m) deletions,
    contains-remove x m ids,
    contains_empty x (Set.remove m ids),
    contains_nil x,
    text_eq_iff c d,
  )
]

-- Deleting on this device succeeds exactly for a known conversation and a well-formed id, if the file is saved.
-- Afterwards a message is deleted here exactly if it was before, or the call succeeded and named it; so a
-- failed call changes nothing of what is deleted.
pub delete_message_locally-is_deleted :
    (s : ChatService) (saved : Bool) (c m d x : Text)
    → let result = delete_message_locally s saved c m in
      (went_well result.0 ≡ (contains_key c s.conversations && is_message_id m && saved))
      × (is_deleted d x result.1.local_deletions ≡ (
          is_deleted d x s.local_deletions || went_well result.0 && (text_eq c d && text_eq m x)))
unfolding delete_message_locally
delete_message_locally-is_deleted s saved c m d x = ground (
  arith,
  is_deleted-added c m d x s.local_deletions,
  is_deleted-without_id c m d x
      (Map.insert c (Set.insert m (set_or_default (get c s.local_deletions))) s.local_deletions),
  contained c m d x s.local_deletions,
)

-- Restoring on this device succeeds exactly if, besides, the message is deleted here. Afterwards a message is
-- deleted here exactly if it was before, unless the call succeeded and named it.
pub restore_message_locally-is_deleted :
    (s : ChatService) (saved : Bool) (c m d x : Text)
    → let result = restore_message_locally s saved c m in
      (went_well result.0 ≡ (
        contains_key c s.conversations
        && is_message_id m
        && is_deleted c m s.local_deletions
        && saved))
      × (is_deleted d x result.1.local_deletions ≡ (
          is_deleted d x s.local_deletions
          && not (went_well result.0 && (text_eq c d && text_eq m x))))
unfolding restore_message_locally
restore_message_locally-is_deleted s saved c m d x = ground (
  arith,
  is_deleted-without_id c m d x s.local_deletions,
  is_deleted-added c m d x (without_id c m s.local_deletions),
  deleted_here c m s.local_deletions,
  contained c m d x s.local_deletions,
)
