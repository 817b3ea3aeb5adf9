-- ===== src/Chat/Attachments.antt =====
-- The attachments of a timeline in chat.rs: `request_missing_attachments`, `record_file_receipt` and the inline receipts
-- of `publish_timeline`. The document library, the blob store, the parsers and the clocks are the record `Answers`. An
-- attachment's `data` is not loaded here.
use wire_app.Common.{
  ℕ, ◌+◌, ◌*◌, min, Bool, true, false, not, ◌&&◌, ◌||◌, List, [], ◌∷◌, ◌++◌, Option, none, some,
  Text, text_eq, ltb, if◌then◌else◌, keep_if, is_empty,
}
use wire_app.Common.Int.{ℤ}
use wire_app.Common.Map.{Map, get, insert, contains_key, is_some}
use wire_app.Common.Map
use wire_app.Common.Set.{Set}
use wire_app.Common.Set
use wire_app.Chat.Backoff.{attachment_retry_delay}
use wire_app.Chat.Retention.{includes}
use wire_app.Chat.Message.{ChatMessage, ChatAttachment, AttachmentKind, image, is_klipy_gif}
use wire_app.Chat.Records.{ReplicatedReceipt, AttachmentRetry}
use wire_app.Chat.Service.{
  ChatService, spawn, set_bytes, attachment_download, other_members, to_set,
}
use wire_app.Chat.Document.{
  DocumentEntry, FileReceipt, file_receipt_key, Library, set_or_default, is_file_offer,
}

-- What the libraries and the clocks answer during a call: `author` is this node's key in documents, `hash_of` parses a
-- hash, `has_blob` tells whether a blob is complete or cannot be looked up, `wrote` whether an entry is
-- written, and `receipts` gives the receipt entries of one author, or of all.
pub record Answers : Type 0 where
  pub now : ℕ
  pub wall : ℤ
  pub library : Library
  pub author : Text
  pub hash_of : Text → Option Text
  pub ticket_nodes : Text → List Text
  pub starts_sync : Bool
  pub subscribes : Bool
  pub has_blob : Text → Option Bool
  pub reopens : Bool
  pub wrote : Text → Bool
  pub receipts : Option Text → Option (List (Option DocumentEntry))
  pub receipt_of : Text → Option ReplicatedReceipt

unfoldable pub schedule_attachment_retry : ChatService → ℕ → Text → Text → ChatService
schedule_attachment_retry s now c hash =
    let attempts =
      min 255
        ((elim (get hash s.attachment_retries) [ none ↦ 0 | some retry ↦ retry.attempts ]) + 1) in
    record s {
      attachment_retries =
          insert hash
            (record {
              conversation_id = c;
              attempts = attempts;
              next_attempt = now + attachment_retry_delay attempts * 1_000;
            })
            s.attachment_retries;
    }

abbrev preferred_first : Option Text → List Text → List Text
preferred_first none nodes = nodes
preferred_first (some author) nodes =
    keep_if (λ n. text_eq n author) nodes ++ keep_if (λ n. not (text_eq n author)) nodes

-- The nodes that are asked for an attachment, the preferred one first.
unfoldable pub attachment_providers : ChatService → Answers → Text → Option Text → List Text
attachment_providers s a c preferred = elim (get c s.conversations) [
  | none ↦ []
  | some stored ↦ preferred_first preferred (
      to_set (
        keep_if (λ n. not (text_eq n s.our_node_id)) (a.ticket_nodes stored.ticket)
        ++ other_members s stored))
]

abbrev is_image : AttachmentKind → Bool
is_image image = true
is_image _ = false

abbrev exceeds : Option ℕ → ℕ → Bool
exceeds none n = false
exceeds (some limit) n = ltb limit n

abbrev waits_until : Option AttachmentRetry → ℕ → Bool
waits_until none now = false
waits_until (some retry) now = ltb now retry.next_attempt

abbrev is_complete : Option Bool → Bool
is_complete none = false
is_complete (some b) = b

-- One attachment in `request_missing_attachments`, of a message sent at that time.
unfoldable pub request_attachment :
    ChatService → Answers → Text → List Text → ℤ → ChatAttachment → ChatService
request_attachment s a c providers sent_at attachment =
    if is_file_offer attachment.kind
      || is_klipy_gif attachment
      || not (includes s.retention sent_at a.wall)
      || (is_image attachment.kind && exceeds s.max_image_bytes attachment.byte_len)
    then s
    else elim (a.hash_of attachment.hash) [
      | none ↦ s
      | some hash ↦
          if waits_until (get hash s.attachment_retries) a.now
          then s
          else if is_complete (a.has_blob hash)
          then record s { attachment_retries = Map.remove hash s.attachment_retries }
          else if Set.contains hash s.attachment_downloads
          then s
          else if is_empty providers
          then schedule_attachment_retry s a.now c hash
          else spawn (attachment_download c hash providers)
              (record s { attachment_downloads = Set.insert hash s.attachment_downloads })
    ]

unfoldable pub request_each :
    ChatService → Answers → Text → List Text → ℤ → List ChatAttachment → ChatService
request_each s a c providers sent_at [] = s
request_each s a c providers sent_at (attachment ∷ attachments) =
    request_each (request_attachment s a c providers sent_at attachment) a c providers sent_at
      attachments

unfoldable pub request_missing_attachments :
    ChatService → Answers → Text → List ChatMessage → ChatService
request_missing_attachments s a c [] = s
request_missing_attachments s a c (m ∷ messages) =
    let providers = attachment_providers s a c (s.externals.parse_node m.author_id) in
    request_missing_attachments
      (if text_eq m.author_id s.our_node_id
        then s
        else request_each s a c providers m.sent_at m.attachments)
      a c messages

-- `record_file_receipt`: whether it ends well.
unfoldable pub record_file_receipt : ChatService → Answers → Text → Text → Text → Bool × ChatService
record_file_receipt s a c message_id hash =
    let receipt : FileReceipt = record {
      message_id = message_id;
      hash = hash;
      receiver_id = s.our_node_id;
      received_at = a.wall;
    } in
    let key = file_receipt_key receipt in
    if not (contains_key c s.conversations) || not a.reopens
    then (false, s)
    else if Set.contains key s.recorded_file_receipts
    then (true, s)
    else if a.wrote key
    then (
      true,
      spawn (set_bytes c key)
          (record s { recorded_file_receipts = Set.insert key s.recorded_file_receipts }),
    )
    else (false, s)

abbrev pub receive_file : Text → Text → ChatMessage → ChatMessage
receive_file hash node m = record m {
  file_receivers =
      insert hash (Set.insert node (set_or_default (get hash m.file_receivers))) m.file_receivers;
}

-- The attachments of one message in the loop that writes inline receipts: the message and whether one was
-- written, `none` where an error ends the call.
unfoldable pub receive_each :
    ChatService
    → Answers
    → Text
    → List ChatAttachment
    → ChatMessage
    → Bool
    → Option (ChatMessage × Bool) × ChatService
receive_each s a c [] m wrote = (some (m, wrote), s)
receive_each s a c (attachment ∷ attachments) m wrote =
    let skipped = receive_each s a c attachments m wrote in
    let recorded = record_file_receipt s a c m.message_id attachment.hash in
    let written =
      receive_each recorded.1 a c attachments (receive_file attachment.hash s.our_node_id m) true in
    if is_file_offer attachment.kind
      || is_klipy_gif attachment
      || Set.contains s.our_node_id (set_or_default (get attachment.hash m.file_receivers))
    then skipped
    else elim (a.hash_of attachment.hash) [
      | none ↦ skipped
      | some hash ↦ elim (a.has_blob hash) [
        | none ↦ (none, s)
        | some complete ↦
            if not complete then skipped else if recorded.0 then written else (none, recorded.1)
      ]
    ]

unfoldable pub receive_files :
    ChatService
    → Answers
    → Text
    → List ChatMessage
    → Bool
    → Option (List ChatMessage × Bool) × ChatService
receive_files s a c [] wrote = (some ([], wrote), s)
receive_files s a c (m ∷ messages) wrote =
    let own = text_eq m.author_id s.our_node_id || not (includes s.retention m.sent_at a.wall) in
    let first = if own then (some (m, wrote), s) else receive_each s a c m.attachments m wrote in
    elim first.0 [
      | none ↦ (none, first.1)
      | some p ↦
          let rest = receive_files first.1 a c messages p.1 in
          elim rest.0 [ none ↦ (none, rest.1) | some q ↦ (some (p.0 ∷ q.0, q.1), rest.1) ]
    ]
