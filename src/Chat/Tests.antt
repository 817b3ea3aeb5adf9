-- ===== src/Chat/Tests.antt =====
-- Runs of the chat service, and its theorems at concrete inputs.
use wire_app.Common.{
  ℕ, ◌+◌, ◌≤◌, ◌<◌, ◌≡◌, ◌≢◌, refl, text_eq_iff, Bool, true, false, List, [], ◌∷◌, Option, none,
  some, arith, Text, text, length, is_empty, inl,
}
use mathlib.Core.List.{Permᴰ}
use wire_app.Common.Int.{pos}
use wire_app.Common.Map.{get}
use wire_app.Common.Set
use wire_app.Chat.Retention.{unlimited}
use wire_app.Chat.Message.{ChatMessage, Externals, is_message_id, sort}
use wire_app.Chat.Message.Order.{sort-order}
use wire_app.Chat.Records.{
  ConversationKind, StoredConversation, ConversationRetry, ReplicatedReceipt, receipt_is_valid,
}
use wire_app.Chat.Service.{
  ChatService, inflight, is_conversation_member, wake_payload_for, chat_wake_payload_budget,
}
use wire_app.Chat.Delivery.{apply_direct_receipts, retry_due_deliveries, pending_of}
use wire_app.Chat.Delivery.Timers.{IsQuiet, retry_due_deliveries-IsQuiet}
use wire_app.Chat.Delivery.Runs.{Event, tick, seen, finished, run, run-single}
use wire_app.Chat.Delivery.Receipts.{apply_direct_receipts-pending}
use wire_app.Chat.Delivery.Payload.{total, IsWaiting, wake_payload_for-fits}

abbrev node_names : Externals
node_names = record {
  parse_node = λ t. some t;
  is_hash = λ t. true;
  is_klipy_media_url = λ t. false;
}

abbrev pub talk : StoredConversation
talk = record {
  conversation = record {
    id = text "c";
    title = text "Bob";
    kind = ConversationKind.direct (text "bob");
    members = text "bob" ∷ text "me" ∷ [];
    document_id = text "doc";
    history_epoch = 0;
  };
  ticket = text "ticket";
}

abbrev pub m1 : Text
m1 = text "0123456789abcdef0123456789abcdef0123456789abcdef0123456789abcdef"

abbrev pub m2 : Text
m2 = text "ffffffffffffffffffffffffffffffffffffffffffffffffffffffffffffffff"

abbrev pub hello : ChatMessage
hello = record {
  version = 1;
  message_id = m1;
  author_id = text "me";
  sent_at = pos 1_000;
  body = text "hello";
  nonce = 7;
  client_version = none;
  author_display_name = none;
  author_avatar_hash = none;
  author_accent_color = none;
  attachments = [];
  file_receivers = [];
  stopped_file_offers = [];
  deletion = none;
  replicated_restoration = false;
}

-- Two messages to Bob wait and are due for another attempt; one of them is shown.
abbrev pub service : ChatService
service = record {
  externals = node_names;
  our_node_id = text "me";
  conversations = (text "c", talk) ∷ [];
  retention = unlimited;
  reliable_control = record { attachments = []; deletions = []; invites = [] };
  queued = [];
  retry_state =
      (text "c", record { attempts = 2; next_attempt = 50; messages = m1 ∷ m2 ∷ [] }) ∷ [];
  pending_deliveries = (m1, text "c") ∷ (m2, text "c") ∷ [];
  pending_outbound = (m1, hello) ∷ [];
  staged_inbound = [];
  stopped_files = [];
  staged_deletions = [];
  wake_inflight = [];
  last_receipt_wake = [];
  wake_failures = [];
  control_retries = [];
  local_deletions = [];
  attachment_retries = [];
  subscriptions = [];
  attachment_downloads = [];
  recorded_file_receipts = [];
  timeline_limits = [];
  max_image_bytes = none;
  tasks = [];
}

retry_due_deliveries-IsQuiet_example :
    IsQuiet 100 (text "c") (retry_due_deliveries service 100 (pos 2_000)).retry_state
retry_due_deliveries-IsQuiet_example =
    retry_due_deliveries-IsQuiet service 100 (pos 2_000) (text "c")

abbrev busy : List Event
busy =
    tick 100 (pos 2_000)
    ∷ tick 9_000 (pos 11_000)
    ∷ finished 9_500 (text "c") false
    ∷ seen 9_600 (pos 11_600) (text "c")
    ∷ tick 20_000 (pos 22_000)
    ∷ []

run-single_example : inflight (text "c") (run busy service) ≤ 1
run-single_example = run-single busy service (text "c") (unfold get in omega arith)

abbrev receipt : ReplicatedReceipt
receipt = record { version = 1; message_id = m1; delivered_at = pos 3_000 }

apply_direct_receipts-pending_example :
    get m1 (apply_direct_receipts service (text "c") (text "bob") (receipt ∷ [])).pending_deliveries
    ≡ none
unfolding get is_conversation_member receipt_is_valid is_message_id wire_app.Common.text_eq
apply_direct_receipts-pending_example =
    apply_direct_receipts-pending service (text "c") (text "bob") (receipt ∷ []) m1

abbrev after : ChatService
after = apply_direct_receipts service (text "c") (text "bob") (receipt ∷ [])

abbrev left : ConversationRetry
left = record { attempts = 2; next_attempt = 50; messages = m2 ∷ [] }

wake_payload_for-fits_example :
    total (wake_payload_for service (pos 2_000) (text "c")).messages ≤ chat_wake_payload_budget
wake_payload_for-fits_example = wake_payload_for-fits service (pos 2_000) (text "c")

hello-waits : IsWaiting service.pending_outbound (text "c") service.pending_deliveries hello
unfolding get pending_of Set.contains wire_app.Common.text_eq
hello-waits = (m1, (refl, refl))

abbrev reply : ChatMessage
reply = record hello { message_id = m2; sent_at = pos 500 }

m1-m2 : m1 ≢ m2
unfolding wire_app.Common.text_eq
m1-m2 same = let f : false ≡ true = (text_eq_iff m1 m2).1 same in cc

sort-order_example :
    (sort (hello ∷ reply ∷ []) ≡ sort (reply ∷ hello ∷ []))
    × Permᴰ (sort (hello ∷ reply ∷ [])) (reply ∷ hello ∷ [])
sort-order_example =
    sort-order {xs = hello ∷ reply ∷ []} (Permᴰ.swap refl refl) ((m1-m2, tt), (tt, tt))
