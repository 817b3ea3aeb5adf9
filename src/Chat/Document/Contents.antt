-- ===== src/Chat/Document/Contents.antt =====
-- What a document has for a conversation, as lists, and the loops over its entries as folds of these lists.
use wire_app.Common.{
  ℕ, ◌+◌, ◌*◌, ◌≡◌, refl, sym, ap, ◌∙◌, true, false, ◌&&◌, not, List, [], ◌∷◌, Option, none, some,
  arith, Text, text_eq, text_eq_iff, if◌then◌else◌, Option-cases, inl, inr,
}
use wire_app.Common.Map.{get, get-insert, get-alter, map_option, is_some}
use wire_app.Chat.Message.{ChatMessage, Externals, validate, everyone, max_message_bytes}
use wire_app.Chat.Records.{ReplicatedDeletion, is_restoration, deletion_is_valid}
use wire_app.Chat.Document.{
  DocumentEntry, FileReceipt, FileSharingState, Document, Library, read_entry, for_each, Loaded,
  take_message, deleted_by, take_deletion, ◌>>=◌,
}

abbrev pub and_first {ℓ} : {A : Type ℓ} → A → Option (List A) → Option (List A)
and_first a none = none
and_first a (some xs) = some (a ∷ xs)

-- What the entries of a query say; `none` if one of them ends the load.
unfoldable pub read_all {ℓ} :
    {A : Type ℓ}
    → ℕ
    → (Text → Option A)
    → List (Option DocumentEntry)
    → Option (List (DocumentEntry × A))
read_all limit parse [] = some []
read_all limit parse (none ∷ entries) = none
read_all limit parse (some e ∷ entries) = elim (read_entry limit parse e) [
  | none ↦ none
  | some none ↦ read_all limit parse entries
  | some (some a) ↦ and_first (e, a) (read_all limit parse entries)
]

abbrev pub fold_each {ℓ κ} :
    {A : Type ℓ} {S : Type κ} → (S → DocumentEntry → A → S) → List (DocumentEntry × A) → S → S
fold_each f [] s = s
fold_each f ((e, a) ∷ xs) s = fold_each f xs (f s e a)

abbrev pub folded {ℓ κ} :
    {A : Type ℓ} {S : Type κ}
    → (S → DocumentEntry → A → S)
    → S
    → Option (List (DocumentEntry × A))
    → Option S
folded f s none = none
folded f s (some xs) = some (fold_each f xs s)

module _ {ℓ κ} {A : Type ℓ} {S : Type κ} (limit : ℕ) (parse : Text → Option A)
    (f : S → DocumentEntry → A → S) where
  folded-and_first :
      (s : S) (e : DocumentEntry) (a : A) (o : Option (List (DocumentEntry × A)))
      → folded f s (and_first (e, a) o) ≡ folded f (f s e a) o
  folded-and_first s e a none = refl
  folded-and_first s e a (some xs) = refl

  pub for_each-read_all :
      (entries : List (Option DocumentEntry)) (s : S)
      → for_each limit parse f entries s ≡ folded f s (read_all limit parse entries)
  unfolding for_each read_all
  for_each-read_all [] s = refl
  for_each-read_all (none ∷ entries) s = refl
  for_each-read_all (some e ∷ entries) s = elim (Option-cases (read_entry limit parse e)) [
    | inl h ↦ rw (h, for_each, read_all) refl
    | inr (none, h) ↦ rw (h, for_each, read_all) (for_each-read_all entries s)
    | inr (some a, h) ↦
        rw (h, for_each, read_all)
          (for_each-read_all entries (f s e a)
            ∙ sym (folded-and_first s e a (read_all limit parse entries)))
  ]

pub record Contents : Type 0 where
  pub messages : List (DocumentEntry × ChatMessage)
  pub deletions : List (DocumentEntry × ReplicatedDeletion)
  pub receipts : List (DocumentEntry × FileReceipt)
  pub states : List (DocumentEntry × FileSharingState)

-- What the document says, all of it; `none` if a query, an entry or a blob fails.
unfoldable pub contents : Library → Document → Option ℕ → Option Contents
contents lib doc limit = do
  message_entries ← doc.messages limit
  messages ← read_all (max_message_bytes + 16 * 1024) lib.message_of message_entries
  deletion_entries ← doc.deletions
  deletions ← read_all (16 * 1024) lib.deletion_of deletion_entries
  receipt_entries ← doc.file_receipts
  receipts ← read_all 4096 lib.file_receipt_of receipt_entries
  sharing_entries ← doc.file_sharing
  states ← read_all 4096 lib.sharing_of sharing_entries
  some (record { messages = messages; deletions = deletions; receipts = receipts; states = states })

-- The first valid message with the id, and the author of its entry.
unfoldable pub first_valid :
    Externals → Text → List (DocumentEntry × ChatMessage) → Option (ChatMessage × Text)
first_valid ext k [] = none
first_valid ext k ((e, m) ∷ xs) =
    if not (is_some (validate ext m)) && text_eq m.message_id k
    then some (m, e.author)
    else first_valid ext k xs

abbrev pub or_next {ℓ} : {A : Type ℓ} → Option A → Option A → Option A
or_next none o = o
or_next (some a) o = some a

or_next-none {ℓ} : {A : Type ℓ} (o : Option A) → o ≡ or_next o none
or_next-none none = refl
or_next-none (some a) = refl

pub get-take_messages :
    (ext : Externals) (k : Text) (xs : List (DocumentEntry × ChatMessage)) (loaded : Loaded)
    → get k (fold_each (take_message ext) xs loaded) ≡ or_next (get k loaded) (first_valid ext k xs)
unfolding first_valid take_message
get-take_messages ext k [] loaded = or_next-none (get k loaded)
get-take_messages ext k ((e, m) ∷ xs) loaded = ground (
  arith,
  get-take_messages ext k xs (take_message ext loaded e m),
  get-insert k m.message_id (m, e.author) loaded,
  text_eq_iff m.message_id k,
)

-- The last valid deletion or restoration of the message that has the author.
unfoldable pub last_valid :
    Text → Text → List (DocumentEntry × ReplicatedDeletion) → Option ReplicatedDeletion
last_valid k author [] = none
last_valid k author ((e, d) ∷ ds) = or_next (last_valid k author ds) (
    if deletion_is_valid d && text_eq d.message_id k && text_eq e.author author
    then some d
    else none)

-- What it makes of the message.
unfoldable pub ruled : Option ReplicatedDeletion → ChatMessage → ChatMessage
ruled none m = m
ruled (some d) m =
    if is_restoration d
    then record m { deletion = none; replicated_restoration = true }
    else record m { deletion = some everyone; replicated_restoration = false }

abbrev pub ruled_by :
    Text → List (DocumentEntry × ReplicatedDeletion) → ChatMessage × Text → ChatMessage × Text
ruled_by k ds (m, author) = (ruled (last_valid k author ds) m, author)

ruled_again :
    (o : Option ReplicatedDeletion) (d : ReplicatedDeletion) (m : ChatMessage)
    → ruled o (ruled (some d) m) ≡ ruled (or_next o (some d)) m
unfolding ruled
ruled_again none d m = refl
ruled_again (some c) d m = ground arith

deleted_by-ruled :
    (e : DocumentEntry) (d : ReplicatedDeletion) (m : ChatMessage) (author : Text)
    → deleted_by e d (m, author) ≡ (if text_eq e.author author then ruled (some d) m else m, author)
unfolding deleted_by ruled
deleted_by-ruled e d m author = ground arith

ruled_by_first :
    (k : Text) (e : DocumentEntry) (d : ReplicatedDeletion)
    (ds : List (DocumentEntry × ReplicatedDeletion)) (p : ChatMessage × Text)
    → ruled_by k ds (if deletion_is_valid d && text_eq d.message_id k then deleted_by e d p else p)
      ≡ ruled_by k ((e, d) ∷ ds) p
unfolding last_valid
ruled_by_first k e d ds (m, author) = ground (
  arith,
  deleted_by-ruled e d m author,
  ruled_again (last_valid k author ds) d m,
  or_next-none (last_valid k author ds),
)

map_option-ruled_by :
    (k : Text) (o : Option (ChatMessage × Text)) → o ≡ map_option (ruled_by k []) o
unfolding last_valid ruled
map_option-ruled_by k none = refl
map_option-ruled_by k (some p) = refl

map_option_first :
    (k : Text) (e : DocumentEntry) (d : ReplicatedDeletion)
    (ds : List (DocumentEntry × ReplicatedDeletion)) (o : Option (ChatMessage × Text))
    → map_option
        (ruled_by k ds)
        (if deletion_is_valid d && text_eq d.message_id k then map_option (deleted_by e d) o else o)
      ≡ map_option (ruled_by k ((e, d) ∷ ds)) o
map_option_first k e d ds none = ground arith
map_option_first k e d ds (some p) = ground (arith, ruled_by_first k e d ds p)

get-take_deletion :
    (k : Text) (e : DocumentEntry) (d : ReplicatedDeletion) (loaded : Loaded)
    → get k (take_deletion loaded e d) ≡ (
        if deletion_is_valid d && text_eq d.message_id k
        then map_option (deleted_by e d) (get k loaded)
        else get k loaded)
unfolding take_deletion
get-take_deletion k e d loaded = ground (arith, get-alter k d.message_id (deleted_by e d) loaded)

pub get-take_deletions :
    (k : Text) (ds : List (DocumentEntry × ReplicatedDeletion)) (loaded : Loaded)
    → get k (fold_each take_deletion ds loaded) ≡ map_option (ruled_by k ds) (get k loaded)
get-take_deletions k [] loaded = map_option-ruled_by k (get k loaded)
get-take_deletions k ((e, d) ∷ ds) loaded =
    get-take_deletions k ds (take_deletion loaded e d)
    ∙ ap (map_option (ruled_by k ds)) (get-take_deletion k e d loaded)
    ∙ map_option_first k e d ds (get k loaded)
