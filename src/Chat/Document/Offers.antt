-- ===== src/Chat/Document/Offers.antt =====
-- The files of a message in the timeline of a document: who has them, and which offers are stopped.
use wire_app.Common.{
  ℕ, ◌≡◌, refl, ap, subst, not, text_eq_iff, ◌∙◌, Bool, true, false, ◌&&◌, ◌||◌, List, [], ◌∷◌,
  Option, none, some, arith, Text, text_eq, any, All, ◌⊎◌, Option-cases, Bool-cases, inl, inr,
}
use wire_app.Common.Int.{ℤ}
use wire_app.Common.Map.{get, map_option, is_some}
use wire_app.Common.Set
use wire_app.Chat.Message.{ChatMessage, ChatAttachment, Externals, validate}
use wire_app.Chat.Records.{StoredConversation, is_restoration}
use wire_app.Chat.Service.{ChatService}
use wire_app.Chat.Deletions.Effect.{find}
use wire_app.Chat.Document.{
  DocumentEntry, Document, Library, FileSharingState, file_sharing_key, is_file_offer, not_serving,
  is_stopped, load_messages_query, take_message, take_deletion,
}
use wire_app.Chat.Document.Contents.{
  Contents, contents, fold_each, first_valid, last_valid, ruled, ruled_by, get-take_messages,
  get-take_deletions,
}
use wire_app.Chat.Document.Files.{
  has_received, has_file, has_receipt, receivers-has_received, stop_offers-contains,
  get-take_file_receipts, received_each,
}
use wire_app.Chat.Document.Sharing.{
  says, speaks_for, state_of, covers, Said, covered_each, take_sharing-Said,
}
use wire_app.Chat.Document.Shown.{loaded_of, sharing_of, shown_message}
use wire_app.Chat.Document.Load.{load_messages_query-IsTimeline}

-- A state of the file that its owner recorded: under its own key, by the author of the entry of the message that
-- it names, which is the owner's and offers the file.
abbrev pub records : Externals → Contents → Text → Text → DocumentEntry → FileSharingState → Bool
records ext c owner h e f =
    text_eq (file_sharing_key f) e.key
    && text_eq f.hash h
    && speaks_for owner e f (first_valid ext f.message_id c.messages)

ruled-kept :
    (owner : Text) (e : DocumentEntry) (f : FileSharingState) (members : List Text) (k : Text)
    (c : Contents) (o : Option (ChatMessage × Text))
    → speaks_for owner e f
        (map_option (received_each members k c.receipts) (map_option (ruled_by k c.deletions) o))
      ≡ speaks_for owner e f o
unfolding ruled
ruled-kept owner e f members k c none = refl
ruled-kept owner e f members k c (some (m, author)) =
    elim (Option-cases (last_valid k author c.deletions)) [
      | inl n ↦ rw (n, ruled) refl
      | inr (d, n) ↦ elim (Bool-cases (is_restoration d)) [
        | inl r ↦ rw (n, r, ruled) refl
        | inr r ↦ rw (n, r, ruled) refl
      ]
    ]

get-nil : (k : Text) → get {V = ChatMessage × Text} k [] ≡ none
unfolding get
get-nil k = refl

says-records :
    (ext : Externals) (stored : StoredConversation) (c : Contents) (owner h : Text)
    (e : DocumentEntry) (f : FileSharingState)
    → says (loaded_of ext stored c) owner h e f ≡ records ext c owner h e f
unfolding says
says-records ext stored c owner h e f =
    let k = f.message_id in
    let found = fold_each (take_message ext) c.messages [] in
    rw
      (
        get-take_file_receipts stored.conversation.members k c.receipts
            (fold_each take_deletion c.deletions found),
        get-take_deletions k c.deletions found,
        get-take_messages ext k c.messages [],
        get-nil k,
        ruled-kept owner e f stored.conversation.members k c (first_valid ext k c.messages),
      )
      refl

-- The newest of the states that the owner of a file recorded, if there is one.
pub record IsNewest (ext : Externals) (c : Contents) (owner h : Text) (newest : Option (ℤ × Bool))
    : Type 0 where
  pub covers_each :
      All
        (λ (x : DocumentEntry × FileSharingState).
          (not (records ext c owner h x.0 x.1) || covers newest x.1) ≡ true)
        c.states
  pub one_of : (newest ≡ none) ⊎ Said (records ext c owner h) c.states newest

-- What is shown of a file of the message `m` in `x`.
pub record IsFile (s : ChatService) (stored : StoredConversation) (c : Contents) (m x : ChatMessage)
    (h : Text) : Type 0 where
  pub received :
      (who : Text)
      → has_received h who x.file_receivers ≡ (
          has_received h who m.file_receivers
          || (has_file h m.attachments
              && has_receipt stored.conversation.members m.message_id h who c.receipts))
  pub newest : Option (ℤ × Bool)
  pub is_newest : IsNewest s.externals c m.author_id h newest
  pub stopped : Set.contains h x.stopped_file_offers ≡ (
      Set.contains h m.stopped_file_offers
      || (any (λ (a : ChatAttachment). is_file_offer a.kind && text_eq a.hash h) m.attachments
          && ((text_eq m.author_id s.our_node_id && Set.contains h s.stopped_files)
              || not_serving newest)))

state_of-nil : (owner h : Text) → state_of owner h [] ≡ none
unfolding get
state_of-nil owner h = refl

shown_message-IsFile :
    (s : ChatService) (stored : StoredConversation) (c : Contents) (m : ChatMessage)
    (author h : Text)
    → IsFile s stored c m (shown_message s stored c m.message_id (m, author)) h
unfolding shown_message is_stopped
shown_message-IsFile s stored c m author h =
    let loaded = loaded_of s.externals stored c in
    let newest = state_of m.author_id h (sharing_of s.externals stored c) in
    let same = says-records s.externals stored c m.author_id h in
    record {
      received = λ who.
          receivers-has_received stored.conversation.members m.message_id m.attachments c.receipts
            m.file_receivers h who;
      newest = newest;
      is_newest = record {
        covers_each =
            covered_each loaded m.author_id h (records s.externals c m.author_id h) same c.states
              [];
        one_of =
            elim (take_sharing-Said loaded m.author_id h (records s.externals c m.author_id h) same
              c.states []) [ inl e ↦ inl (e ∙ state_of-nil m.author_id h) | inr e ↦ inr e ];
      };
      stopped =
          stop_offers-contains s (sharing_of s.externals stored c) m.author_id m.attachments
            m.stopped_file_offers h;
    }

some_fst :
    {m n : ChatMessage} {a b : Text}
    → Path (Option (ChatMessage × Text)) (some (m, a)) (some (n, b))
    → m ≡ n
some_fst {m} h = ap (λ o. elim o [ none ↦ m | some p ↦ p.0 ]) h

first_valid-message_id :
    (ext : Externals) (k : Text) (xs : List (DocumentEntry × ChatMessage)) (m : ChatMessage)
    (author : Text)
    → first_valid ext k xs ≡ some (m, author)
    → m.message_id ≡ k
unfolding first_valid
first_valid-message_id ext k [] m author h = absurd (let e : false ≡ true = ap is_some h in cc)
first_valid-message_id ext k ((e, n) ∷ xs) m author h =
    elim (Bool-cases (not (is_some (validate ext n)) && text_eq n.message_id k)) [
      | inr b ↦ first_valid-message_id ext k xs m author (rw b at h)
      | inl b ↦
          let same : n ≡ m = some_fst (rw b at h) in
          rw⁻¹ same ((text_eq_iff n.message_id k).0 (ground arith))
    ]

-- The files of a message: where a document can be read, and has a readable and valid entry for the message, the
-- load gives the message, and for each file of it: a node has received it exactly if the message has the file
-- and a receipt of a member says so under its own key, and an offer is stopped exactly if the message offers the
-- file and is this node's own and the file is stopped here, or the newest state that the owner recorded of the
-- file says that it is not served; or the entry said so.
pub load_messages_query-IsFile :
    (lib : Library) (s : ChatService) (stored : StoredConversation) (limit : Option ℕ)
    (doc : Document) (c : Contents) (m : ChatMessage) (k author : Text)
    → lib.open_doc stored.ticket stored.conversation.document_id ≡ some doc
    → contents lib doc limit ≡ some c
    → first_valid s.externals k c.messages ≡ some (m, author)
    → (messages : List ChatMessage) × (x : ChatMessage) × (load_messages_query lib s stored limit
        ≡ some messages)
      × (find k messages ≡ some x)
      × ((h : Text) → IsFile s stored c m x h)
load_messages_query-IsFile lib s stored limit doc c m k author a b e =
    let loaded = load_messages_query-IsTimeline lib s stored limit doc c a b in
    let same = first_valid-message_id s.externals k c.messages m author e in
    (
      loaded.0,
      shown_message s stored c k (m, author),
      loaded.1,
      loaded.2.found k ∙ (rw e refl),
      λ h.
          subst (λ i. IsFile s stored c m (shown_message s stored c i (m, author)) h) same
            (shown_message-IsFile s stored c m author h),
    )
