-- ===== src/Chat/Timeline/Tests.antt =====
-- Timelines at concrete inputs.
use wire_app.Common.{refl, List, [], ◌∷◌, none, text, All}
use wire_app.Common.Map.{get}
use wire_app.Chat.Message.{ChatMessage}
use wire_app.Chat.Records.{SyncRequest}
use wire_app.Chat.Tests.{service, hello, m2}
use wire_app.Chat.Timeline.{merge_staged_inbound}
use wire_app.Chat.Timeline.Senders.{Event, received, published, run, Origin, run-Origin}

abbrev pub from_bob : ChatMessage
from_bob = record hello { message_id = m2; author_id = text "bob" }

-- Bob sends his own message, and one in the name of this node.
abbrev request : SyncRequest
request = record {
  kind = text "sync-request";
  version = 1;
  conversation_id = text "c";
  ticket = none;
  client_version = none;
  messages = from_bob ∷ record hello { message_id = m2 } ∷ [];
  receipts = [];
  deletions = [];
  attachment_acks = [];
  deletion_acks = [];
  accepted_history_epoch = none;
}

abbrev pub events : List Event
events =
    received (text "eve") request ∷ received (text "bob") request ∷ published (text "c") [] ∷ []

run-Origin_example :
    All
      (Origin (text "c") service events (hello ∷ []))
      (merge_staged_inbound (run events service) (text "c") (hello ∷ [])).1
run-Origin_example = run-Origin service (text "c") events (hello ∷ []) (unfold get in refl)
