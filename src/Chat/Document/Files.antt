-- ===== src/Chat/Document/Files.antt =====
-- What the receipts and the sharing states of a document say about the files of a message.
use wire_app.Common.{
  ◌≡◌, refl, ap, ◌∙◌, Bool, true, false, ◌&&◌, ◌||◌, List, [], ◌∷◌, Option, none, some, arith, Text,
  text_eq, text_eq_iff, if◌then◌else◌, any,
}
use wire_app.Common.Map.{Map, get, insert, get-insert, get-alter, map_option}
use wire_app.Common.Set.{Set, contains-insert}
use wire_app.Common.Set
use wire_app.Chat.Message.{ChatMessage, ChatAttachment}
use wire_app.Chat.Service.{ChatService}
use wire_app.Chat.Document.{
  DocumentEntry, FileReceipt, Loaded, Sharing, set_or_default, file_receipt_key, received_by,
  take_file_receipt, is_file_offer, is_stopped, stop_offers,
}
use wire_app.Chat.Document.Contents.{fold_each}

abbrev pub has_file : Text → List ChatAttachment → Bool
has_file h attachments = any (λ (a : ChatAttachment). text_eq a.hash h) attachments

-- The receipt stands under its own key, is for the message, and its receiver is a member.
abbrev pub accepted : List Text → Text → DocumentEntry → FileReceipt → Bool
accepted members k e r =
    text_eq (file_receipt_key r) e.key
    && any (λ (member : Text). text_eq member r.receiver_id) members
    && text_eq r.message_id k

-- The receivers of the files of a message, by the receipts in their order.
unfoldable pub receivers :
    List Text → Text → List ChatAttachment → List (DocumentEntry × FileReceipt) → Map Set → Map Set
receivers members k attachments [] sets = sets
receivers members k attachments ((e, r) ∷ rs) sets = receivers members k attachments rs (
    if accepted members k e r && has_file r.hash attachments
    then insert r.hash (Set.insert r.receiver_id (set_or_default (get r.hash sets))) sets
    else sets)

-- Some accepted receipt says that the receiver has the file.
unfoldable pub has_receipt :
    List Text → Text → Text → Text → List (DocumentEntry × FileReceipt) → Bool
has_receipt members k h receiver [] = false
has_receipt members k h receiver ((e, r) ∷ rs) =
    (accepted members k e r && text_eq r.hash h && text_eq r.receiver_id receiver)
    || has_receipt members k h receiver rs

abbrev pub has_received : Text → Text → Map Set → Bool
has_received h receiver sets = Set.contains receiver (set_or_default (get h sets))

same_eq : (f : Text → Bool) (i h : Text) → text_eq i h ≡ true → f i ≡ f h
same_eq f i h e = ap f ((text_eq_iff i h).0 e)

has_received-insert :
    (h receiver j who : Text) (sets : Map Set)
    → has_received h receiver (insert j (Set.insert who (set_or_default (get j sets))) sets)
      ≡ ((text_eq j h && text_eq who receiver) || has_received h receiver sets)
has_received-insert h receiver j who sets = ground (
  arith,
  get-insert h j (Set.insert who (set_or_default (get j sets))) sets,
  text_eq_iff j h,
  contains-insert receiver who (set_or_default (get j sets)),
)

pub receivers-has_received :
    (members : List Text) (k : Text) (attachments : List ChatAttachment)
    (rs : List (DocumentEntry × FileReceipt)) (sets : Map Set) (h receiver : Text)
    → has_received h receiver (receivers members k attachments rs sets) ≡ (
        has_received h receiver sets
        || (has_file h attachments && has_receipt members k h receiver rs))
unfolding receivers has_receipt
receivers-has_received members k attachments [] sets h receiver = ground arith
receivers-has_received members k attachments ((e, r) ∷ rs) sets h receiver =
    let taken = accepted members k e r && has_file r.hash attachments in
    let sets' = insert r.hash (Set.insert r.receiver_id (set_or_default (get r.hash sets))) sets in
    ground (
      arith,
      receivers-has_received members k attachments rs (if taken then sets' else sets) h receiver,
      has_received-insert h receiver r.hash r.receiver_id sets,
      same_eq (λ i. has_file i attachments) r.hash h,
    )

abbrev pub received_each :
    List Text → Text → List (DocumentEntry × FileReceipt) → ChatMessage × Text → ChatMessage × Text
received_each members k rs (m, author) =
    (record m { file_receivers = receivers members k m.attachments rs m.file_receivers }, author)

received_by_first :
    (members : List Text) (k : Text) (e : DocumentEntry) (r : FileReceipt)
    (rs : List (DocumentEntry × FileReceipt)) (p : ChatMessage × Text)
    → received_each members k rs (if accepted members k e r then received_by r p else p)
      ≡ received_each members k ((e, r) ∷ rs) p
unfolding receivers received_by
received_by_first members k e r rs (m, author) = ground arith

map_option-received_each :
    (members : List Text) (k : Text) (o : Option (ChatMessage × Text))
    → o ≡ map_option (received_each members k []) o
unfolding receivers
map_option-received_each members k none = refl
map_option-received_each members k (some p) = refl

map_option_first :
    (members : List Text) (k : Text) (e : DocumentEntry) (r : FileReceipt)
    (rs : List (DocumentEntry × FileReceipt)) (o : Option (ChatMessage × Text))
    → map_option
        (received_each members k rs)
        (if accepted members k e r then map_option (received_by r) o else o)
      ≡ map_option (received_each members k ((e, r) ∷ rs)) o
map_option_first members k e r rs none = ground arith
map_option_first members k e r rs (some p) = ground (arith, received_by_first members k e r rs p)

get-take_file_receipt :
    (members : List Text) (k : Text) (e : DocumentEntry) (r : FileReceipt) (loaded : Loaded)
    → get k (take_file_receipt members loaded e r)
      ≡ (if accepted members k e r then map_option (received_by r) (get k loaded) else get k loaded)
unfolding take_file_receipt
get-take_file_receipt members k e r loaded =
    ground (arith, get-alter k r.message_id (received_by r) loaded)

pub get-take_file_receipts :
    (members : List Text) (k : Text) (rs : List (DocumentEntry × FileReceipt)) (loaded : Loaded)
    → get k (fold_each (take_file_receipt members) rs loaded)
      ≡ map_option (received_each members k rs) (get k loaded)
get-take_file_receipts members k [] loaded = map_option-received_each members k (get k loaded)
get-take_file_receipts members k ((e, r) ∷ rs) loaded =
    get-take_file_receipts members k rs (take_file_receipt members loaded e r)
    ∙ ap (map_option (received_each members k rs)) (get-take_file_receipt members k e r loaded)
    ∙ map_option_first members k e r rs (get k loaded)

-- The offers of a message that are shown as stopped.
pub stop_offers-contains :
    (s : ChatService) (sharing : Sharing) (owner : Text) (attachments : List ChatAttachment)
    (offers : Set) (h : Text)
    → Set.contains h (stop_offers s sharing owner attachments offers) ≡ (
        Set.contains h offers
        || (any (λ (a : ChatAttachment). is_file_offer a.kind && text_eq a.hash h) attachments
            && is_stopped s sharing owner h))
unfolding stop_offers
stop_offers-contains s sharing owner [] offers h = ground arith
stop_offers-contains s sharing owner (a ∷ attachments) offers h =
    let marked = is_file_offer a.kind && is_stopped s sharing owner a.hash in
    ground (
      arith,
      stop_offers-contains s sharing owner attachments
          (if marked then Set.insert a.hash offers else offers) h,
      contains-insert h a.hash offers,
      same_eq (λ i. is_stopped s sharing owner i) a.hash h,
    )
