-- ===== src/Chat/Document/Published.antt =====
-- A timeline of the load of a document and of what is staged from the chat protocol.
use wire_app.Common.{ℕ, ◌≡◌, ap, ◌∙◌, List, Option, none, some, Text}
use wire_app.Common.Map.{get}
use wire_app.Chat.Message.{ChatMessage}
use wire_app.Chat.Message.Order.{HasDistinctIds}
use wire_app.Chat.Records.{StoredConversation}
use wire_app.Chat.Service.{ChatService}
use wire_app.Chat.Deletions.Effect.{find}
use wire_app.Chat.Timeline.{merge_staged_inbound}
use wire_app.Chat.Timeline.Merged.{or_else}
use wire_app.Chat.Timeline.Staged.{inbound}
use wire_app.Chat.Timeline.Senders.{Event, run, run-find}
use wire_app.Chat.Document.{Document, Library, load_messages_query}
use wire_app.Chat.Document.Contents.{Contents, contents, first_valid}
use wire_app.Chat.Document.Shown.{map_some, shown_message}
use wire_app.Chat.Document.Load.{load_messages_query-IsTimeline}

-- A timeline puts the document before what is staged: where nothing is staged in the conversation, and
-- then requests come and timelines are made in any order, and the document can be read, the load
-- succeeds, no two messages of the timeline made of all that it gives have one id, and for each id it
-- has what the document shows of its first readable and valid entry, or else the message that is
-- staged.
pub load_messages_query-find :
    (lib : Library) (s : ChatService) (stored : StoredConversation) (limit : Option ℕ)
    (doc : Document) (d : Contents) (events : List Event) (k : Text)
    → get stored.conversation.id s.staged_inbound ≡ none
    → lib.open_doc stored.ticket stored.conversation.document_id ≡ some doc
    → contents lib doc limit ≡ some d
    → let t = run events s in
      let c = stored.conversation.id in
      (messages : List ChatMessage) × (load_messages_query lib t stored limit ≡ some messages)
      × HasDistinctIds (merge_staged_inbound t c messages).1
      × (find k (merge_staged_inbound t c messages).1
          ≡ or_else
              (map_some (shown_message t stored d k) (first_valid t.externals k d.messages))
              (get k (inbound t c)))
load_messages_query-find lib s stored limit doc d events k h a b =
    let t = run events s in
    let c = stored.conversation.id in
    let loaded = load_messages_query-IsTimeline lib t stored limit doc d a b in
    let merged = run-find s c events loaded.0 k h loaded.2.distinct in
    (
      loaded.0,
      loaded.1,
      merged.0,
      merged.1 ∙ ap (λ o. or_else o (get k (inbound t c))) (loaded.2.found k),
    )
