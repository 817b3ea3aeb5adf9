-- ===== src/Chat/Document.antt =====
-- The timeline that the document of a conversation has: `load_messages_query` and `load_recent_messages` of chat.rs.
-- The document library, the blob store and the JSON parser are parameters.
pub mod Contents
pub mod Files
pub mod Sharing
pub mod Shown
pub mod Keyed
pub mod Load
pub mod Offers
pub mod Recent
pub mod Published
mod Tests
use wire_app.Common.{
  ℕ, ◌+◌, ◌-◌, ◌*◌, Bool, true, false, not, ◌&&◌, ◌||◌, List, [], ◌∷◌, ◌++◌, Option, none, some,
  Text, text, text_eq, ltb, ◌==◌, if◌then◌else◌, any, map, length, drop,
}
use wire_app.Common.Int.{ℤ, ltb_ℤ}
use wire_app.Common.Map.{Map, get, insert, alter, contains_key, values, is_some}
use wire_app.Common.Set.{Set}
use wire_app.Common.Set
use wire_app.Chat.Message.{
  ChatMessage, ChatAttachment, AttachmentKind, MessageDeletion, image, file_offer, inline_file,
  on_this_device, everyone, max_message_bytes, Externals, validate, sort,
}
use wire_app.Chat.Records.{
  ReplicatedDeletion, is_restoration, deletion_is_valid, StoredConversation,
}
use wire_app.Chat.Service.{ChatService}

-- `?`.
infixl 5 ◌>>=◌
abbrev pub ◌>>=◌ {ℓ κ} : {A : Type ℓ} {B : Type κ} → Option A → (A → Option B) → Option B
none >>= next = none
some a >>= next = next a

-- What the blob store answers for the content of an entry: the lookup fails, there is no blob, it is not complete, the
-- reading of it fails, or it has these bytes.
pub data Content : Type 0 where
  lookup_failed no_blob incomplete read_failed : Content
  content : Text → Content

-- An entry of a document: the key of its author, its own key, and the length of its content.
pub record DocumentEntry : Type 0 where
  pub author : Text
  pub key : Text
  pub content_len : ℕ  -- u64
  pub blob : Content

pub record FileReceipt : Type 0 where
  pub message_id : Text
  pub hash : Text
  pub receiver_id : Text
  pub received_at : ℤ  -- i64

pub record FileSharingState : Type 0 where
  pub message_id : Text
  pub hash : Text
  pub serving : Bool
  pub changed_at : ℤ  -- i64

-- The queries of a document by the prefix of the key, the messages with a limit: `none` where the query fails, and
-- in a list where the stream of entries has an error.
pub record Document : Type 0 where
  pub messages : Option ℕ → Option (List (Option DocumentEntry))
  pub deletions : Option (List (Option DocumentEntry))
  pub file_receipts : Option (List (Option DocumentEntry))
  pub file_sharing : Option (List (Option DocumentEntry))

-- `open_doc` stands for the parsing of the ticket and of the document's id, and for the opening or the import.
pub record Library : Type 0 where
  pub open_doc : Text → Text → Option Document
  pub message_of : Text → Option ChatMessage
  pub deletion_of : Text → Option ReplicatedDeletion
  pub file_receipt_of : Text → Option FileReceipt
  pub sharing_of : Text → Option FileSharingState

-- What an entry says: `none` is an error that ends the load, and `some none` an entry that is passed over.
unfoldable pub read_entry {ℓ} :
    {A : Type ℓ} → ℕ → (Text → Option A) → DocumentEntry → Option (Option A)
read_entry limit parse e =
    if e.content_len == 0 || ltb limit e.content_len then some none else elim e.blob [
      | lookup_failed ↦ none
      | no_blob ↦ some none
      | incomplete ↦ some none
      | read_failed ↦ none
      | content t ↦ some (parse t)
    ]

-- A loop over the entries of a query.
unfoldable pub for_each {ℓ κ} :
    {A : Type ℓ} {S : Type κ}
    → ℕ
    → (Text → Option A)
    → (S → DocumentEntry → A → S)
    → List (Option DocumentEntry)
    → S
    → Option S
for_each limit parse use_entry [] s = some s
for_each limit parse use_entry (none ∷ entries) s = none
for_each limit parse use_entry (some e ∷ entries) s = elim (read_entry limit parse e) [
  | none ↦ none
  | some none ↦ for_each limit parse use_entry entries s
  | some (some a) ↦ for_each limit parse use_entry entries (use_entry s e a)
]

-- The messages by their id, each with the author of its entry.
abbrev pub Loaded : Type 0
Loaded = Map (ChatMessage × Text)

unfoldable pub take_message : Externals → Loaded → DocumentEntry → ChatMessage → Loaded
take_message ext loaded e m =
    if is_some (validate ext m) || contains_key m.message_id loaded
    then loaded
    else insert m.message_id (m, e.author) loaded

unfoldable pub deleted_by :
    DocumentEntry → ReplicatedDeletion → ChatMessage × Text → ChatMessage × Text
deleted_by e d (m, author) =
    if not (text_eq e.author author)
    then (m, author)
    else if is_restoration d
    then (record m { deletion = none; replicated_restoration = true }, author)
    else (record m { deletion = some everyone; replicated_restoration = false }, author)

unfoldable pub take_deletion : Loaded → DocumentEntry → ReplicatedDeletion → Loaded
take_deletion loaded e d =
    if deletion_is_valid d then alter d.message_id (deleted_by e d) loaded else loaded

abbrev pub set_or_default : Option Set → Set
set_or_default none = []
set_or_default (some s) = s

unfoldable pub file_receipt_key : FileReceipt → Text
file_receipt_key r =
    text "file-receipt/" ++ r.message_id ++ text "/" ++ r.hash ++ text "/" ++ r.receiver_id

unfoldable pub received_by : FileReceipt → ChatMessage × Text → ChatMessage × Text
received_by r (m, author) =
    if any (λ (a : ChatAttachment). text_eq a.hash r.hash) m.attachments
    then (
      record m {
        file_receivers =
            insert r.hash (Set.insert r.receiver_id (set_or_default (get r.hash m.file_receivers)))
              m.file_receivers;
      },
      author,
    )
    else (m, author)

unfoldable pub take_file_receipt : List Text → Loaded → DocumentEntry → FileReceipt → Loaded
take_file_receipt members loaded e r =
    if text_eq (file_receipt_key r) e.key
      && any (λ (member : Text). text_eq member r.receiver_id) members
    then alter r.message_id (received_by r) loaded
    else loaded

unfoldable pub file_sharing_key : FileSharingState → Text
file_sharing_key f = text "file-sharing/" ++ f.message_id ++ text "/" ++ f.hash

-- `sharing_by_owner_hash`: what the owner of a file said last about it, and when.
abbrev pub Sharing : Type 0
Sharing = Map (Map (ℤ × Bool))

abbrev pub states_or_default : Option (Map (ℤ × Bool)) → Map (ℤ × Bool)
states_or_default none = []
states_or_default (some m) = m

abbrev pub newer_state : FileSharingState → Option (ℤ × Bool) → ℤ × Bool
newer_state f none = (f.changed_at, f.serving)
newer_state f (some current) =
    if ltb_ℤ current.0 f.changed_at then (f.changed_at, f.serving) else current

unfoldable pub record_state : Text → FileSharingState → Sharing → Sharing
record_state owner f sharing =
    let states = states_or_default (get owner sharing) in
    insert owner (insert f.hash (newer_state f (get f.hash states)) states) sharing

abbrev pub is_file_offer : AttachmentKind → Bool
is_file_offer file_offer = true
is_file_offer _ = false

unfoldable pub take_sharing : Loaded → Sharing → DocumentEntry → FileSharingState → Sharing
take_sharing loaded sharing e f =
    if not (text_eq (file_sharing_key f) e.key) then sharing else elim (get f.message_id loaded) [
      | none ↦ sharing
      | some (m, author) ↦
          if text_eq e.author author
            && any (λ (a : ChatAttachment). is_file_offer a.kind && text_eq a.hash f.hash)
                m.attachments
          then record_state m.author_id f sharing
          else sharing
    ]

abbrev pub not_serving : Option (ℤ × Bool) → Bool
not_serving none = false
not_serving (some (t, serving)) = not serving

unfoldable pub is_stopped : ChatService → Sharing → Text → Text → Bool
is_stopped s sharing owner hash =
    (text_eq owner s.our_node_id && Set.contains hash s.stopped_files)
    || not_serving (get hash (states_or_default (get owner sharing)))

unfoldable pub stop_offers : ChatService → Sharing → Text → List ChatAttachment → Set → Set
stop_offers s sharing owner [] offers = offers
stop_offers s sharing owner (a ∷ attachments) offers = stop_offers s sharing owner attachments (
    if is_file_offer a.kind && is_stopped s sharing owner a.hash
    then Set.insert a.hash offers
    else offers)

unfoldable pub mark_stopped : ChatService → Sharing → ChatMessage → ChatMessage
mark_stopped s sharing m = record m {
  stopped_file_offers = stop_offers s sharing m.author_id m.attachments m.stopped_file_offers;
}

unfoldable pub mark_each : ChatService → Sharing → Loaded → Loaded
mark_each s sharing [] = []
mark_each s sharing ((k, (m, author)) ∷ loaded) =
    (k, (mark_stopped s sharing m, author)) ∷ mark_each s sharing loaded

abbrev pub hide : ChatMessage × Text → ChatMessage × Text
hide (m, author) = (record m { deletion = some on_this_device }, author)

unfoldable pub hide_each : Set → Loaded → Loaded
hide_each [] loaded = loaded
hide_each (k ∷ ks) loaded = hide_each ks (alter k hide loaded)

unfoldable pub load_messages_query :
    Library → ChatService → StoredConversation → Option ℕ → Option (List ChatMessage)
load_messages_query lib s stored limit = do
  doc ← lib.open_doc stored.ticket stored.conversation.document_id
  message_entries ← doc.messages limit
  found ←
      for_each (max_message_bytes + 16 * 1024) lib.message_of (take_message s.externals)
        message_entries []
  deletion_entries ← doc.deletions
  deleted ← for_each (16 * 1024) lib.deletion_of take_deletion deletion_entries found
  receipt_entries ← doc.file_receipts
  received ←
      for_each 4096 lib.file_receipt_of (take_file_receipt stored.conversation.members)
        receipt_entries deleted
  sharing_entries ← doc.file_sharing
  sharing ← for_each 4096 lib.sharing_of (take_sharing received) sharing_entries []
  some (
      sort (
        map (λ (e : ChatMessage × Text). e.0)
          (values (
            hide_each (set_or_default (get stored.conversation.id s.local_deletions))
              (mark_each s sharing received)))))

-- The newest messages, `limit` at most, and whether there are more.
unfoldable pub load_recent_messages :
    Library → ChatService → StoredConversation → ℕ → Option (List ChatMessage × Bool)
load_recent_messages lib s stored limit = do
  messages ← load_messages_query lib s stored (some (limit + 1))
  some (drop (length messages - limit) messages, ltb limit (length messages))
