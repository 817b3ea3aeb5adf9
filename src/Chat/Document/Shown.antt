-- ===== src/Chat/Document/Shown.antt =====
-- The timeline of a document, message by message.
use wire_app.Common.{
  ◌≡◌, refl, ap, ◌∙◌, Bool, true, false, List, [], ◌∷◌, Option, none, some, arith, Text, text_eq,
  if◌then◌else◌, map, Option-cases, Bool-cases, inl, inr,
}
use wire_app.Common.Map.{get, alter, get-alter, map_option, values}
use wire_app.Common.Set.{Set}
use wire_app.Common.Set
use wire_app.Chat.Message.{ChatMessage, Externals, on_this_device, sort}
use wire_app.Chat.Records.{StoredConversation, is_restoration}
use wire_app.Chat.Service.{ChatService}
use wire_app.Chat.Document.{
  Loaded, Sharing, set_or_default, take_message, take_deletion, take_file_receipt, take_sharing,
  mark_stopped, mark_each, stop_offers, hide, hide_each,
}
use wire_app.Chat.Document.Contents.{
  Contents, fold_each, first_valid, get-take_messages, last_valid, ruled, ruled_by,
  get-take_deletions,
}
use wire_app.Chat.Document.Files.{receivers, received_each, get-take_file_receipts}

-- The messages of the document with their deletions and receipts, by id.
abbrev pub loaded_of : Externals → StoredConversation → Contents → Loaded
loaded_of ext stored c =
    fold_each (take_file_receipt stored.conversation.members) c.receipts
      (fold_each take_deletion c.deletions (fold_each (take_message ext) c.messages []))

abbrev pub sharing_of : Externals → StoredConversation → Contents → Sharing
sharing_of ext stored c = fold_each (take_sharing (loaded_of ext stored c)) c.states []

abbrev pub hidden : ChatService → StoredConversation → Set
hidden s stored = set_or_default (get stored.conversation.id s.local_deletions)

abbrev pub by_id : ChatService → StoredConversation → Contents → Loaded
by_id s stored c =
    hide_each (hidden s stored)
      (mark_each s (sharing_of s.externals stored c) (loaded_of s.externals stored c))

abbrev pub of_entry : ChatMessage × Text → ChatMessage
of_entry e = e.0

abbrev pub assembled : ChatService → StoredConversation → Contents → List ChatMessage
assembled s stored c = sort (map of_entry (values (by_id s stored c)))

abbrev pub map_some : {A B : Type 0} → (A → B) → Option A → Option B
map_some f none = none
map_some f (some a) = some (f a)

-- What is shown of a message, by the author of its entry.
unfoldable pub shown_message :
    ChatService → StoredConversation → Contents → Text → ChatMessage × Text → ChatMessage
shown_message s stored c k (m, author) =
    let r = ruled (last_valid k author c.deletions) m in
    record m {
      file_receivers =
          receivers stored.conversation.members k m.attachments c.receipts m.file_receivers;
      stopped_file_offers =
          stop_offers s (sharing_of s.externals stored c) m.author_id m.attachments
            m.stopped_file_offers;
      deletion = if Set.contains k (hidden s stored) then some on_this_device else r.deletion;
      replicated_restoration = r.replicated_restoration;
    }

abbrev mark : ChatService → Sharing → ChatMessage × Text → ChatMessage × Text
mark s sharing (m, author) = (mark_stopped s sharing m, author)

get-mark_each :
    (s : ChatService) (sharing : Sharing) (k : Text) (loaded : Loaded)
    → get k (mark_each s sharing loaded) ≡ map_option (mark s sharing) (get k loaded)
unfolding mark_each get
get-mark_each s sharing k [] = refl
get-mark_each s sharing k ((j, (m, author)) ∷ loaded) =
    ground (arith, get-mark_each s sharing k loaded)

abbrev hide_if : Bool → ChatMessage × Text → ChatMessage × Text
hide_if b p = if b then hide p else p

none_hidden : (o : Option (ChatMessage × Text)) → o ≡ map_option (hide_if false) o
none_hidden none = refl
none_hidden (some p) = refl

hide_again :
    (a b : Bool) (o : Option (ChatMessage × Text))
    → map_option (hide_if b) (if a then map_option hide o else o)
      ≡ map_option (hide_if (if a then true else b)) o
hide_again true true none = refl
hide_again true false none = refl
hide_again false b none = refl
hide_again true true (some p) = refl
hide_again true false (some p) = refl
hide_again false b (some p) = refl

get-hide_each :
    (k : Text) (ks : Set) (loaded : Loaded)
    → get k (hide_each ks loaded) ≡ map_option (hide_if (Set.contains k ks)) (get k loaded)
unfolding hide_each Set.contains
get-hide_each k [] loaded = none_hidden (get k loaded)
get-hide_each k (j ∷ ks) loaded =
    get-hide_each k ks (alter j hide loaded)
    ∙ ap (map_option (hide_if (Set.contains k ks))) (get-alter k j hide loaded)
    ∙ hide_again (text_eq j k) (Set.contains k ks) (get k loaded)

shown_steps :
    (s : ChatService) (stored : StoredConversation) (c : Contents) (k : Text)
    (p : ChatMessage × Text)
    → of_entry (
        hide_if (Set.contains k (hidden s stored)) (
          mark s
            (sharing_of s.externals stored c)
            (received_each stored.conversation.members k c.receipts (ruled_by k c.deletions p))))
      ≡ shown_message s stored c k p
unfolding shown_message ruled mark_stopped
shown_steps s stored c k (m, author) = elim (Option-cases (last_valid k author c.deletions)) [
  | inl e ↦ elim (Bool-cases (Set.contains k (hidden s stored))) [
    | inl b ↦ rw (e, b, ruled) refl
    | inr b ↦ rw (e, b, ruled) refl
  ]
  | inr (d, e) ↦ elim (Bool-cases (Set.contains k (hidden s stored))) [
    | inl b ↦ elim (Bool-cases (is_restoration d)) [
      | inl r ↦ rw (e, b, r, ruled) refl
      | inr r ↦ rw (e, b, r, ruled) refl
    ]
    | inr b ↦ elim (Bool-cases (is_restoration d)) [
      | inl r ↦ rw (e, b, r, ruled) refl
      | inr r ↦ rw (e, b, r, ruled) refl
    ]
  ]
]

all_steps :
    (s : ChatService) (stored : StoredConversation) (c : Contents) (k : Text)
    (o : Option (ChatMessage × Text))
    → map_some of_entry (
        map_option (hide_if (Set.contains k (hidden s stored))) (
          map_option (mark s (sharing_of s.externals stored c)) (
            map_option
              (received_each stored.conversation.members k c.receipts)
              (map_option (ruled_by k c.deletions) o))))
      ≡ map_some (shown_message s stored c k) o
all_steps s stored c k none = refl
all_steps s stored c k (some p) = ap some (shown_steps s stored c k p)

get-nil : (k : Text) → get {V = ChatMessage × Text} k [] ≡ none
unfolding get
get-nil k = refl

pub get-by_id :
    (s : ChatService) (stored : StoredConversation) (c : Contents) (k : Text)
    → map_some of_entry (get k (by_id s stored c))
      ≡ map_some (shown_message s stored c k) (first_valid s.externals k c.messages)
get-by_id s stored c k =
    let found = fold_each (take_message s.externals) c.messages [] in
    let deleted = fold_each take_deletion c.deletions found in
    let marked = mark_each s (sharing_of s.externals stored c) (loaded_of s.externals stored c) in
    rw
      (
        get-hide_each k (hidden s stored) marked,
        get-mark_each s (sharing_of s.externals stored c) k (loaded_of s.externals stored c),
        get-take_file_receipts stored.conversation.members k c.receipts deleted,
        get-take_deletions k c.deletions found,
        get-take_messages s.externals k c.messages [],
        get-nil k,
      )
      (all_steps s stored c k (first_valid s.externals k c.messages))
