-- ===== src/Chat/Timeline/Senders.antt =====
-- Where the messages of a timeline come from.
use wire_app.Common.{
  ◌≡◌, subst, true, false, ◌&&◌, List, [], ◌∷◌, none, arith, Text, text, text_eq, ◌==◌, text_eq_iff,
  All, Option-cases, Bool-cases, inl, inr,
}
use wire_app.Common.Map.{get}
use wire_app.Chat.Message.{ChatMessage, validate}
use wire_app.Chat.Records.{SyncRequest}
use wire_app.Chat.Service.{ChatService, is_conversation_member}
use wire_app.Chat.Timeline.{is_acceptable, process_sync_request, merge_staged_inbound}
use wire_app.Chat.Message.Order.{HasDistinctIds}
use wire_app.Chat.Deletions.Effect.{find}
use wire_app.Chat.Timeline.Merged.{or_else, merge_staged_inbound-find}
use wire_app.Chat.Timeline.Staged.{
  IsStaged, inbound, In, All-In, sync_received-IsStaged, published-IsStaged, merged-All,
}

-- What happens: a sync request comes, or a timeline is made of the messages that the document has.
pub data Event : Type 0 where
  received : Text → SyncRequest → Event
  published : Text → List ChatMessage → Event

unfoldable pub step : Event → ChatService → ChatService
step (received remote request) s = process_sync_request s remote request
step (published c messages) s = (merge_staged_inbound s c messages).0

unfoldable pub run : List Event → ChatService → ChatService
run [] s = s
run (e ∷ events) s = run events (step e s)

-- A message of the conversation comes from its author, who is a member then, and is valid.
pub data Sent (c : Text) (m : ChatMessage) : ChatService → List Event → Type 0 where
  in_request :
      (s : ChatService) (remote : Text) (request : SyncRequest) {events : List Event}
      → request.conversation_id ≡ c
      → is_conversation_member s c remote ≡ true
      → m.author_id ≡ remote
      → validate s.externals m ≡ none
      → In m request.messages
      → Sent c m s (received remote request ∷ events)
  later :
      (e : Event) {s : ChatService} {events : List Event}
      → Sent c m (step e s) events
      → Sent c m s (e ∷ events)

acceptable :
    (s : ChatService) (remote : Text) (m : ChatMessage)
    → is_acceptable s remote m ≡ true
    → (m.author_id ≡ remote) × (validate s.externals m ≡ none)
unfolding is_acceptable
acceptable s remote m h = elim (Option-cases (validate s.externals m)) [
  | inl e ↦ ((text_eq_iff m.author_id remote).0 (ground arith), e)
  | inr (x, e) ↦ absurd (let f : false ≡ true = ground arith in cc)
]

module _ (P : ChatMessage → Type 0) (c : Text) where
  step-IsStaged :
      (e : Event) (s : ChatService) (events : List Event)
      → ((m : ChatMessage) → Sent c m s (e ∷ events) → P m)
      → IsStaged P (inbound s c)
      → IsStaged P (inbound (step e s) c)
  unfolding step process_sync_request
  step-IsStaged (published d messages) s events p h = published-IsStaged P s d messages c h
  step-IsStaged (received remote request) s events p h =
      let d = request.conversation_id in
      let heard =
        text_eq request.kind (text "sync-request")
        && request.version == 1
        && is_conversation_member s d remote in
      elim (Bool-cases heard) [
        | inr e ↦ rw e h
        | inl e ↦
            let member : is_conversation_member s d remote ≡ true = ground arith in
            rw e (
              sync_received-IsStaged P s remote request c
                (λ m i f a.
                  let same : d ≡ c = (text_eq_iff d c).0 f in
                  p m (
                    in_request s remote request same
                      (subst (λ x. is_conversation_member s x remote ≡ true) same member)
                      (acceptable s remote m a).0 (acceptable s remote m a).1 i))
                h)
      ]

  run-IsStaged :
      (events : List Event) (s : ChatService)
      → ((m : ChatMessage) → Sent c m s events → P m)
      → IsStaged P (inbound s c)
      → IsStaged P (inbound (run events s) c)
  unfolding run
  run-IsStaged [] s p h = h
  run-IsStaged (e ∷ events) s p h =
      run-IsStaged events (step e s) (λ m sent. p m (later e sent)) (step-IsStaged e s events p h)

-- Where a message of the timeline comes from.
pub data Origin (c : Text) (s : ChatService) (events : List Event) (messages : List ChatMessage)
    (m : ChatMessage) : Type 0 where
  of_document : In m messages → Origin c s events messages m
  of_author : Sent c m s events → Origin c s events messages m

IsStaged-nil : (P : ChatMessage → Type 0) → IsStaged P []
IsStaged-nil P = record { keyed = tt; ascending = tt; each = tt }

-- Nobody speaks for another: where nothing is staged in the conversation, and then requests come and timelines are
-- made in any order, each message of the next timeline is one that the document has, or came in a request
-- of its own author, who was a member of the conversation then, and is valid.
pub run-Origin :
    (s : ChatService) (c : Text) (events : List Event) (messages : List ChatMessage)
    → get c s.staged_inbound ≡ none
    → All (Origin c s events messages) (merge_staged_inbound (run events s) c messages).1
run-Origin s c events messages h =
    let P = Origin c s events messages in
    let start : IsStaged P (inbound s c) = rw h (IsStaged-nil P) in
    merged-All P (run events s) c messages (All-In P messages (λ m i. of_document i))
      (run-IsStaged P c events s (λ m sent. of_author sent) start)

-- The timeline has each message once, as the document has it or else as it is staged: where nothing is staged in
-- the conversation, and then requests come and timelines are made in any order, and with messages of the document
-- no two of which have one id, no two of the next timeline have one id, and for each id it has the message of the
-- document, or the staged one if the document has none.
pub run-find :
    (s : ChatService) (c : Text) (events : List Event) (messages : List ChatMessage) (k : Text)
    → get c s.staged_inbound ≡ none
    → HasDistinctIds messages
    → HasDistinctIds (merge_staged_inbound (run events s) c messages).1
      × (find k (merge_staged_inbound (run events s) c messages).1
          ≡ or_else (find k messages) (get k (inbound (run events s) c)))
run-find s c events messages k h d =
    let P : ChatMessage → Type 0 = λ m. Sent c m s events in
    let start : IsStaged P (inbound s c) = rw h (IsStaged-nil P) in
    let staged = run-IsStaged P c events s (λ m sent. sent) start in
    merge_staged_inbound-find (run events s) c messages k d staged.keyed staged.ascending
