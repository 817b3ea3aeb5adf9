-- ===== src/Chat/Invites/Replica.antt =====
-- The replica of a conversation that a node keeps: the higher epoch, and at one epoch the smaller document id.
use wire_app.Common.{
  ℕ, ◌≡◌, refl, ap, ◌∙◌, Bool, true, false, not, ◌&&◌, ◌||◌, List, [], ◌∷◌, Option, none, some,
  arith, Text, text_eq, text_lt, ltb, ◌==◌, text_eq_iff, text_lt_asym, if◌then◌else◌, Option-cases,
  Bool-cases, inl, inr,
}
use wire_app.Common.Map.{Map, get, get-insert, is_some}
use wire_app.Chat.Message.{ChatMessage}
use wire_app.Chat.Records.{ChatConversation, StoredConversation, ChatInvite}
use wire_app.Common.Map
use wire_app.Chat.Service.{ChatService}
use wire_app.Chat.Publish.{open_and_publish}
use wire_app.Chat.Publish.Kept.{open_and_publish-core}
use wire_app.Chat.Invites.{
  Documents, refused, addressed, decide, forget_conversation_local_state, migrate, import_invite,
  accept_invite, drop_replaced, tell_identity, index_invite, migrated,
}

-- The epoch and the document.
abbrev pub Offer : Type 0
Offer = ℕ × Text

abbrev pub offer_of : ChatConversation → Offer
offer_of conversation = (conversation.history_epoch, conversation.document_id)

abbrev stored_offer : Option StoredConversation → Option Offer
stored_offer none = none
stored_offer (some stored) = some (offer_of stored.conversation)

unfoldable pub replica : Text → ChatService → Option Offer
replica c s = stored_offer (get c s.conversations)

unfoldable pub beats : Offer → Offer → Bool
beats (e, d) (e', d') = ltb e' e || e == e' && text_lt d d'

abbrev pub best : Option Offer → Offer → Offer
best none o = o
best (some p) o = if beats o p then o else p

addressed-offer :
    (remote : Text) (c : ChatConversation) → offer_of (addressed remote c) ≡ offer_of c
unfolding addressed
addressed-offer remote c = ground arith

addressed-id : (remote : Text) (c : ChatConversation) → (addressed remote c).id ≡ c.id
unfolding addressed
addressed-id remote c = ground arith

forget-conversations :
    (s : ChatService) (c : Text)
    → (forget_conversation_local_state s c).conversations ≡ s.conversations
unfolding forget_conversation_local_state
forget-conversations s c = ground arith

migrate-conversations :
    (docs : Documents) (c : Text) (messages : List ChatMessage) (s : ChatService)
    → (migrate docs c messages s).conversations ≡ s.conversations
unfolding migrate
migrate-conversations docs c [] s = refl
migrate-conversations docs c (m ∷ messages) s =
    migrate-conversations docs c messages _ ∙ (ground arith)

drop_replaced-conversations :
    (old : Option StoredConversation) (document : Text) (s : ChatService)
    → (drop_replaced old document s).conversations ≡ s.conversations
unfolding drop_replaced
drop_replaced-conversations none document s = refl
drop_replaced-conversations (some stored) document s = ground arith

tell_identity-conversations :
    (remote : Text) (invite : ChatInvite) (s : ChatService)
    → (tell_identity remote invite s).conversations ≡ s.conversations
unfolding tell_identity
tell_identity-conversations remote invite s = ground arith

index_invite-conversations :
    (s : ChatService) (c : ChatConversation) (ticket : Text) (reset : Bool)
    → (index_invite s c ticket reset).conversations
      ≡ Map.insert c.id (record { conversation = c; ticket = ticket }) s.conversations
unfolding index_invite
index_invite-conversations s c ticket true = rw (forget-conversations s c.id) refl
index_invite-conversations s c ticket false = refl

import_invite-conversations :
    (s : ChatService) (docs : Documents) (remote : Text) (invite : ChatInvite) (reset : Bool)
    → let conversation = addressed remote invite.conversation in
      (import_invite s docs remote invite reset).1.conversations
      ≡ Map.insert conversation.id
          (record { conversation = conversation; ticket = invite.ticket })
          s.conversations
unfolding import_invite
import_invite-conversations s docs remote invite reset =
    let conversation = addressed remote invite.conversation in
    let current = get conversation.id s.conversations in
    let indexed = index_invite s conversation invite.ticket reset in
    let dropped = drop_replaced current conversation.document_id indexed in
    let opened = (open_and_publish dropped docs.answers conversation.id).1 in
    ground (
      arith,
      index_invite-conversations s conversation invite.ticket reset,
      drop_replaced-conversations current conversation.document_id indexed,
      ap (λ (p : Map StoredConversation × Text). p.0)
          (open_and_publish-core dropped docs.answers conversation.id),
      tell_identity-conversations remote invite opened,
      migrate-conversations docs conversation.id (migrated s docs reset current)
          (tell_identity remote invite opened),
    )

decide-best :
    (current : Option StoredConversation) (c : ChatConversation)
    → (if (decide current c).0 then some (offer_of c) else stored_offer current)
      ≡ some (best (stored_offer current) (offer_of c))
unfolding decide beats
decide-best none c = refl
decide-best (some current) c = ground (
  arith,
  text_eq_iff c.document_id current.conversation.document_id,
  text_lt_asym c.document_id current.conversation.document_id,
  text_lt_asym current.conversation.document_id c.document_id,
)

-- Which replica is kept, on every branch: an invitation that is refused changes no replica; otherwise the node has
-- the better of its replica and the invited one, also where the index is not saved or the document not
-- opened. The replica of every other conversation stays.
pub accept_invite-replica :
    (s : ChatService) (docs : Documents) (remote : Text) (invite : ChatInvite) (c : Text)
    → replica c (accept_invite s docs remote invite).1 ≡ (
        if is_some (refused s docs remote invite) || not (text_eq invite.conversation.id c)
        then replica c s
        else some (best (replica c s) (offer_of invite.conversation)))
unfolding accept_invite replica
accept_invite-replica s docs remote invite c =
    let conversation = addressed remote invite.conversation in
    let current = get invite.conversation.id s.conversations in
    let decision = decide current conversation in
    elim (Option-cases (refused s docs remote invite)) [
      | inr (error, e) ↦ rw (e, accept_invite) refl
      | inl e ↦ elim (Bool-cases decision.0) [
        | inr d ↦
            rw (e, accept_invite)
              (rw d (
                ground (
                  arith,
                  text_eq_iff invite.conversation.id c,
                  decide-best current conversation,
                  addressed-offer remote invite.conversation,
                )))
        | inl d ↦
            rw (e, accept_invite)
              (rw d (
                rw
                  (
                    import_invite-conversations s docs remote invite decision.1,
                    get-insert c conversation.id
                        (record { conversation = conversation; ticket = invite.ticket })
                        s.conversations,
                    addressed-id remote invite.conversation,
                  )
                  (ground (
                    arith,
                    text_eq_iff invite.conversation.id c,
                    decide-best current conversation,
                    addressed-offer remote invite.conversation,
                  ))))
      ]
    ]
