-- ===== src/Chat/Document/Load.antt =====
-- A load of a document whose entries can all be read.
use wire_app.Common.{
  ℕ, ◌+◌, ◌*◌, ◌≡◌, refl, sym, ap, ◌∙◌, true, false, List, [], Option, none, some, Text, map,
}
use mathlib.Core.List.Permᴰ
use wire_app.Common.Map.{values, is_some}
use wire_app.Chat.Message.{ChatMessage, max_message_bytes}
use wire_app.Chat.Message.Order.{
  HasDistinctIds, HasDistinctIds-perm, sorted-perm, IsInOrder, sort-IsInOrder,
}
use wire_app.Chat.Records.{StoredConversation, ReplicatedDeletion}
use wire_app.Chat.Service.{ChatService}
use wire_app.Chat.Deletions.Effect.{find}
use wire_app.Chat.Timeline.Merged.{find-perm}
use wire_app.Chat.Document.{
  DocumentEntry, Document, Library, FileReceipt, FileSharingState, take_message, take_deletion,
  take_file_receipt, take_sharing, load_messages_query, ◌>>=◌,
}
use wire_app.Chat.Document.Contents.{Contents, contents, for_each-read_all, first_valid, read_all}
use wire_app.Chat.Document.Shown.{
  loaded_of, assembled, map_some, shown_message, by_id, of_entry, get-by_id,
}
use wire_app.Chat.Document.Keyed.{by_id-IsLoaded, find-values, values-HasDistinctIds}

bind_some :
    {A B : Type 0} (o : Option A) (f : A → Option B) (b : B)
    → (o >>= f) ≡ some b
    → (a : A) × (o ≡ some a) × (f a ≡ some b)
bind_some {B = B} none f b h = absurd (let e : false ≡ true = ap (is_some {V = B}) h in cc)
bind_some (some a) f b h = (a, refl, h)

load_with :
    (lib : Library) (s : ChatService) (stored : StoredConversation) (limit : Option ℕ)
    (doc : Document) {es1 es2 es3 es4 : List (Option DocumentEntry)}
    {messages : List (DocumentEntry × ChatMessage)}
    {deletions : List (DocumentEntry × ReplicatedDeletion)}
    {receipts : List (DocumentEntry × FileReceipt)}
    {states : List (DocumentEntry × FileSharingState)}
    → lib.open_doc stored.ticket stored.conversation.document_id ≡ some doc
    → doc.messages limit ≡ some es1
    → read_all (max_message_bytes + 16 * 1024) lib.message_of es1 ≡ some messages
    → doc.deletions ≡ some es2
    → read_all (16 * 1024) lib.deletion_of es2 ≡ some deletions
    → doc.file_receipts ≡ some es3
    → read_all 4096 lib.file_receipt_of es3 ≡ some receipts
    → doc.file_sharing ≡ some es4
    → read_all 4096 lib.sharing_of es4 ≡ some states
    → load_messages_query lib s stored limit
      ≡ some (
          assembled s stored (record {
            messages = messages;
            deletions = deletions;
            receipts = receipts;
            states = states;
          }))
unfolding load_messages_query
load_with lib s stored limit doc {es1} {es2} {es3} {es4} {messages} {deletions} {receipts} {states}
      h a b c d e f i j =
    rw
      (
        h,
        a,
        for_each-read_all (max_message_bytes + 16 * 1024) lib.message_of (take_message s.externals)
            es1 [],
        b,
        c,
        for_each-read_all (16 * 1024) lib.deletion_of take_deletion es2,
        d,
        e,
        for_each-read_all 4096 lib.file_receipt_of (take_file_receipt stored.conversation.members)
            es3,
        f,
        i,
        for_each-read_all 4096 lib.sharing_of
            (take_sharing (
              loaded_of s.externals stored (record {
                messages = messages;
                deletions = deletions;
                receipts = receipts;
                states = states;
              })))
            es4 [],
        j,
      )
      refl

load_messages_query-contents :
    (lib : Library) (s : ChatService) (stored : StoredConversation) (limit : Option ℕ)
    (doc : Document) (c : Contents)
    → lib.open_doc stored.ticket stored.conversation.document_id ≡ some doc
    → contents lib doc limit ≡ some c
    → load_messages_query lib s stored limit ≡ some (assembled s stored c)
unfolding contents
load_messages_query-contents lib s stored limit doc c h g =
    let a1 = bind_some (doc.messages limit) _ c g in
    let a2 = bind_some (read_all (max_message_bytes + 16 * 1024) lib.message_of a1.0) _ c a1.2 in
    let a3 = bind_some doc.deletions _ c a2.2 in
    let a4 = bind_some (read_all (16 * 1024) lib.deletion_of a3.0) _ c a3.2 in
    let a5 = bind_some doc.file_receipts _ c a4.2 in
    let a6 = bind_some (read_all 4096 lib.file_receipt_of a5.0) _ c a5.2 in
    let a7 = bind_some doc.file_sharing _ c a6.2 in
    let a8 = bind_some (read_all 4096 lib.sharing_of a7.0) _ c a7.2 in
    let loaded = load_with lib s stored limit doc h a1.1 a2.1 a3.1 a4.1 a5.1 a6.1 a7.1 a8.1 in
    loaded ∙ ap (map_some (assembled s stored)) a8.2

-- What a load gives: in order, each id once, with what the first valid entry that has it says, and with the deletions,
-- receipts, sharing states and hidden messages that concern it.
pub record IsTimeline (s : ChatService) (stored : StoredConversation) (c : Contents)
    (messages : List ChatMessage) : Type 0 where
  pub distinct : HasDistinctIds messages
  pub in_order : IsInOrder messages
  pub found :
      (k : Text)
      → find k messages
        ≡ map_some (shown_message s stored c k) (first_valid s.externals k c.messages)

-- What the document of a conversation is made into: where it can be opened, and no query, entry or
-- blob of it fails, the load gives a timeline in the order of messages, in which no two have one id,
-- and for each id it has a message exactly if a readable and valid entry has the id. That is the first
-- such entry, whoever is its author, with the last valid deletion or restoration that the author of
-- this entry wrote, the receipts of members and the sharing states of its files, and the deletion on
-- this device over any other.
pub load_messages_query-IsTimeline :
    (lib : Library) (s : ChatService) (stored : StoredConversation) (limit : Option ℕ)
    (doc : Document) (c : Contents)
    → lib.open_doc stored.ticket stored.conversation.document_id ≡ some doc
    → contents lib doc limit ≡ some c
    → (messages : List ChatMessage) × (load_messages_query lib s stored limit ≡ some messages)
      × IsTimeline s stored c messages
load_messages_query-IsTimeline lib s stored limit doc c h g =
    let all = map of_entry (values (by_id s stored c)) in
    let loaded = by_id-IsLoaded s stored c in
    let distinct = values-HasDistinctIds (by_id s stored c) loaded.keyed loaded.ascending in
    let back = Permᴰ.symm (sorted-perm all) in
    (
      assembled s stored c,
      load_messages_query-contents lib s stored limit doc c h g,
      record {
        distinct = HasDistinctIds-perm back distinct;
        in_order = sort-IsInOrder all distinct;
        found = λ k.
            sym (find-perm k back distinct)
            ∙ find-values k (by_id s stored c) loaded.keyed
            ∙ get-by_id s stored c k;
      },
    )
