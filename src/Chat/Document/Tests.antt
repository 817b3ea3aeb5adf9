-- ===== src/Chat/Document/Tests.antt =====
-- The load of a small document.
use wire_app.Common.{
  ◌≡◌, refl, arith, Bool, false, List, [], ◌∷◌, Option, none, some, Text, text, text_eq, ℕ,
}
use wire_app.Common.Int.{pos}
use wire_app.Common.Map.{get}
use wire_app.Chat.Message.{
  ChatMessage, ChatAttachment, file_offer, validate, is_message_id, attachment_incomplete,
  is_klipy_gif,
}
use wire_app.Chat.Records.{ReplicatedDeletion}
use wire_app.Chat.Deletions.Effect.{find}
use wire_app.Chat.Tests.{service, talk, hello, m1, m2}
use wire_app.Chat.Document.{
  DocumentEntry, Document, Library, FileReceipt, FileSharingState, content, read_entry,
  load_messages_query, load_recent_messages, file_receipt_key, file_sharing_key,
}
use wire_app.Chat.Document.Contents.{Contents, contents, read_all, first_valid}
use wire_app.Chat.Message.Order.{HasDistinctIds}
use wire_app.Chat.Timeline.{merge_staged_inbound}
use wire_app.Chat.Timeline.Merged.{or_else}
use wire_app.Chat.Timeline.Staged.{inbound}
use wire_app.Chat.Timeline.Senders.{run}
use wire_app.Chat.Timeline.Tests.{events}
use wire_app.Chat.Document.Shown.{map_some, shown_message}
use wire_app.Chat.Document.Published.{load_messages_query-find}
use wire_app.Chat.Document.Load.{IsTimeline, load_messages_query-IsTimeline}
use wire_app.Chat.Document.Offers.{IsFile, load_messages_query-IsFile}
use wire_app.Chat.Document.Recent.{IsPage, load_recent_messages-IsPage}

abbrev offer : ChatAttachment
offer = record {
  kind = file_offer;
  id = text "a";
  name = text "notes.pdf";
  media_type = text "application/pdf";
  byte_len = 9;
  width = 0;
  height = 0;
  hash = text "h";
  external_url = none;
  provider_slug = none;
}

abbrev offered : ChatMessage
offered = record hello { attachments = offer ∷ [] }

abbrev deletion : ReplicatedDeletion
deletion = record { version = 1; message_id = m1; deleted_at = pos 2_000 }

abbrev receipt : FileReceipt
receipt = record {
  message_id = m1;
  hash = text "h";
  receiver_id = text "bob";
  received_at = pos 3_000;
}

abbrev state : FileSharingState
state = record { message_id = m1; hash = text "h"; serving = false; changed_at = pos 4_000 }

abbrev entry : Text → Text → DocumentEntry
entry key said = record { author = text "A"; key = key; content_len = 1; blob = content said }

abbrev entries : Text → Text → List (Option DocumentEntry)
entries key said = some (entry key said) ∷ []

abbrev document : Document
document = record {
  messages = λ limit. some (entries (text "message/1") (text "m"));
  deletions = some (entries (text "deletion/1") (text "d"));
  file_receipts = some (entries (file_receipt_key receipt) (text "r"));
  file_sharing = some (entries (file_sharing_key state) (text "s"));
}

abbrev library : Library
library = record {
  open_doc = λ ticket id. some document;
  message_of = λ t. some offered;
  deletion_of = λ t. some deletion;
  file_receipt_of = λ t. some receipt;
  sharing_of = λ t. some state;
}

abbrev all_of : Contents
all_of = record {
  messages = (entry (text "message/1") (text "m"), offered) ∷ [];
  deletions = (entry (text "deletion/1") (text "d"), deletion) ∷ [];
  receipts = (entry (file_receipt_key receipt) (text "r"), receipt) ∷ [];
  states = (entry (file_sharing_key state) (text "s"), state) ∷ [];
}

read : (limit : Option ℕ) → contents library document limit ≡ some all_of
unfolding contents read_all read_entry
read limit = refl

load_messages_query-IsTimeline_example :
    (messages : List ChatMessage) × (load_messages_query library service talk none ≡ some messages)
    × IsTimeline service talk all_of messages
load_messages_query-IsTimeline_example =
    load_messages_query-IsTimeline library service talk none document all_of refl (read none)

valid : first_valid service.externals m1 all_of.messages ≡ some (offered, text "A")
unfolding first_valid validate is_message_id text_eq attachment_incomplete is_klipy_gif
valid = ground arith

load_messages_query-IsFile_example :
    (messages : List ChatMessage) × (x : ChatMessage) × (load_messages_query library service talk
        none
      ≡ some messages)
    × (find m1 messages ≡ some x)
    × ((h : Text) → IsFile service talk all_of offered x h)
load_messages_query-IsFile_example =
    load_messages_query-IsFile library service talk none document all_of offered m1 (text "A") refl
      (read none) valid

load_recent_messages-IsPage_example :
    (page : List ChatMessage) × (has_more : Bool) × (load_recent_messages library service talk 0
      ≡ some (page, has_more))
    × IsPage service talk all_of 0 page has_more
load_recent_messages-IsPage_example =
    load_recent_messages-IsPage library service talk 0 document all_of refl (read (some 1))

load_messages_query-find_example :
    let t = run events service in
    (messages : List ChatMessage) × (load_messages_query library t talk none ≡ some messages)
    × HasDistinctIds (merge_staged_inbound t (text "c") messages).1
    × (find m2 (merge_staged_inbound t (text "c") messages).1
        ≡ or_else
            (map_some (shown_message t talk all_of m2) (first_valid t.externals m2 all_of.messages))
            (get m2 (inbound t (text "c"))))
load_messages_query-find_example =
    load_messages_query-find library service talk none document all_of events m2
      (unfold get in refl) refl (read none)
