-- ===== src/Chat/Message.antt =====
-- `ChatMessage`, its attachments, what is accepted of one, and the timeline's order. The JSON
-- attributes have no counterpart; `data` (bytes loaded for display) is left out of an attachment.
pub mod Order
use wire_app.Common.{
  ℕ, ◌*◌, Bool, true, false, not, ◌&&◌, ◌||◌, List, [], ◌∷◌, Option, none, some, Text, text,
  text_eq, text_lt, ltb, leb, ◌==◌, if◌then◌else◌, length, is_empty, any, all,
}
use wire_app.Common.Int.{ℤ, ltb_ℤ}
use wire_app.Common.Map.{Map}
use wire_app.Common.Set.{Set}
use wire_app.Common.Whitespace.{trim}
use wire_app.Chat.Retention.{RetentionPolicy, includes}

abbrev pub max_message_bytes : ℕ
max_message_bytes = 1024 * 1024

pub data AttachmentKind : Type 0 where
  image file_offer inline_file : AttachmentKind

pub record ChatAttachment : Type 0 where
  pub kind : AttachmentKind
  pub id : Text
  pub name : Text
  pub media_type : Text
  pub byte_len : ℕ  -- u64
  pub width : ℕ  -- u32
  pub height : ℕ  -- u32
  pub hash : Text
  pub external_url : Option Text
  pub provider_slug : Option Text

pub data MessageDeletion : Type 0 where
  on_this_device everyone : MessageDeletion

pub record ChatMessage : Type 0 where
  pub version : ℕ  -- u8
  pub message_id : Text
  pub author_id : Text
  pub sent_at : ℤ  -- i64
  pub body : Text
  pub nonce : ℕ  -- u64
  pub client_version : Option Text
  pub author_display_name : Option Text
  pub author_avatar_hash : Option Text
  pub author_accent_color : Option Text
  pub attachments : List ChatAttachment
  pub file_receivers : Map Set
  pub stopped_file_offers : Set
  pub deletion : Option MessageDeletion
  pub replicated_restoration : Bool

abbrev pub is_some_and : Option Text → (Text → Bool) → Bool
is_some_and none p = false
is_some_and (some t) p = p t

abbrev pub is_none_or : Option Text → (Text → Bool) → Bool
is_none_or none p = true
is_none_or (some t) p = p t

abbrev has_value : Option Text → Bool
has_value o = is_some_and o (λ _. true)

abbrev is_image : AttachmentKind → Bool
is_image image = true
is_image _ = false

abbrev is_inline_file : AttachmentKind → Bool
is_inline_file inline_file = true
is_inline_file _ = false

unfoldable pub is_klipy_gif : ChatAttachment → Bool
is_klipy_gif a =
    is_image a.kind
    && text_eq a.media_type (text "image/gif")
    && has_value a.external_url
    && has_value a.provider_slug

unfoldable pub is_message_id : Text → Bool
is_message_id value =
    length value == 64 && all (λ b. leb b'0' b && leb b b'9' || leb b'a' b && leb b b'f') value

-- What the service takes from other code: the parsers of node ids and of blob hashes, of the Iroh
-- libraries, and the URL check of klipy.rs over the URL library. A node id stands as the text that
-- `to_string` gives for it.
pub record Externals : Type 0 where
  pub parse_node : Text → Option Text
  pub is_hash : Text → Bool
  pub is_klipy_media_url : Text → Bool

-- The test of one attachment in `ChatMessage::validate`.
unfoldable pub attachment_incomplete : Externals → ChatAttachment → Bool
attachment_incomplete ext a =
    let has_provider_metadata = has_value a.external_url || has_value a.provider_slug in
    is_empty a.id
    || is_empty a.name
    || ltb 1024 (length a.name)
    || ltb 128 (length a.media_type)
    || (a.byte_len == 0 && not (is_klipy_gif a))
    || (is_image a.kind && not (is_klipy_gif a) && (a.width == 0 || a.height == 0))
    || (is_klipy_gif a
        && (a.width == 0
            || a.height == 0
            || is_none_or a.external_url (λ url. not (ext.is_klipy_media_url url))
            || is_none_or a.provider_slug (λ slug. is_empty slug)))
    || (has_provider_metadata
        && (not (is_klipy_gif a)
            || is_some_and a.external_url (λ url. ltb 8192 (length url))
            || is_some_and a.provider_slug (λ slug. ltb 512 (length slug))))
    || (is_inline_file a.kind
        && (ltb (64 * 1024) a.byte_len || not (text_eq a.media_type (text "text/plain"))))
    || not (ext.is_hash a.hash)

pub data MessageError : Type 0 where
  unsupported_version empty_message too_large incomplete_identity : MessageError
  too_many_attachments incomplete_attachment : MessageError

-- `ChatMessage::validate`: `none` where it returns `Ok(())`.
unfoldable pub validate : Externals → ChatMessage → Option MessageError
validate ext m =
    if not (m.version == 1)
    then some unsupported_version
    else if is_empty (trim m.body) && is_empty m.attachments
    then some empty_message
    else if ltb max_message_bytes (length m.body)
    then some too_large
    else if not (is_message_id m.message_id) || is_empty m.author_id
    then some incomplete_identity
    else if ltb 128 (length m.attachments)
    then some too_many_attachments
    else if any (attachment_incomplete ext) m.attachments
    then some incomplete_attachment
    else none

unfoldable pub visible_under : ChatMessage → RetentionPolicy → ℤ → Bool
visible_under m retention now = includes retention m.sent_at now || not (is_empty m.attachments)

-- `Ord for ChatMessage`, as its strict order: by time, author, nonce and id.
unfoldable pub precedes : ChatMessage → ChatMessage → Bool
precedes a b =
    if ltb_ℤ a.sent_at b.sent_at
    then true
    else if ltb_ℤ b.sent_at a.sent_at
    then false
    else if text_lt a.author_id b.author_id
    then true
    else if text_lt b.author_id a.author_id
    then false
    else if ltb a.nonce b.nonce
    then true
    else if ltb b.nonce a.nonce
    then false
    else text_lt a.message_id b.message_id

-- `messages.sort()`, a stable sort: by insertion before the first larger message.
unfoldable pub insert_sorted : ChatMessage → List ChatMessage → List ChatMessage
insert_sorted m [] = m ∷ []
insert_sorted m (x ∷ xs) =
    let rest = insert_sorted m xs in if precedes x m then x ∷ rest else m ∷ x ∷ xs

unfoldable pub sort : List ChatMessage → List ChatMessage
sort [] = []
sort (m ∷ ms) = insert_sorted m (sort ms)
