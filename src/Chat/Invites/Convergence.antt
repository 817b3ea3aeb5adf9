-- ===== src/Chat/Invites/Convergence.antt =====
-- Two nodes that are offered the same replicas keep the same one.
use wire_app.Common.{
  ◌≡◌, refl, sym, ap, ◌∙◌, ◌⊎◌, Bool, true, false, not, ◌&&◌, ◌||◌, List, [], ◌∷◌, Option, none,
  some, arith, Text, text_eq, ◌==◌, text_eq_iff, text_lt_asym, text_lt_trans, text_lt_total,
  if◌then◌else◌, any, Bool-cases, inl, inr,
}
use wire_app.Common.Map.{Map, is_some, get}
use wire_app.Chat.Message.{ChatMessage}
use wire_app.Chat.Records.{ChatInvite, ChatConversation, StoredConversation}
use wire_app.Chat.Service.{ChatService}
use wire_app.Chat.Publish.{open_and_publish}
use wire_app.Chat.Publish.Kept.{open_and_publish-core}
use wire_app.Chat.Invites.{
  Documents, refused, accept_invite, migrate, drop_replaced, index_invite,
  forget_conversation_local_state, import_invite, tell_identity, addressed, migrated, decide,
}
use wire_app.Chat.Invites.Replica.{Offer, offer_of, replica, beats, best, accept_invite-replica}

-- Invitations with their senders, and what the libraries answer to each.
abbrev pub Arrivals : Type 0
Arrivals = List (Documents × Text × ChatInvite)

unfoldable pub accept_each : ChatService → Arrivals → ChatService
accept_each s [] = s
accept_each s ((docs, remote, invite) ∷ arrivals) =
    accept_each (accept_invite s docs remote invite).1 arrivals

-- The replicas of a conversation in the invitations that the node does not refuse.
unfoldable pub offers : ChatService → Text → Arrivals → List Offer
offers s c [] = []
offers s c ((docs, remote, invite) ∷ arrivals) =
    let rest = offers s c arrivals in
    if is_some (refused s docs remote invite) || not (text_eq invite.conversation.id c)
    then rest
    else offer_of invite.conversation ∷ rest

abbrev pub same_offer : Offer → Offer → Bool
same_offer (e, d) (e', d') = e == e' && text_eq d d'

abbrev pub offered : Offer → List Offer → Bool
offered o offers = any (same_offer o) offers

beats_total : (a b : Offer) → beats a b ≡ false → beats b a ≡ false → a ≡ b
unfolding beats
beats_total (e, d) (e', d') h g = ground (arith, text_lt_total d d')

beats_trans : (a b c : Offer) → beats a b ≡ true → beats b c ≡ true → beats a c ≡ true
unfolding beats
beats_trans (e, d) (e', d') (e'', d'') h g = ground (arith, text_lt_trans d d' d'')

beats_asym : (a b : Offer) → beats a b ≡ true → beats b a ≡ false
unfolding beats
beats_asym (e, d) (e', d') h = ground (arith, text_lt_asym d d')

same_offer-eq : (a b : Offer) → same_offer a b ≡ true → a ≡ b
same_offer-eq (e, d) (e', d') h = ground (arith, text_eq_iff d d')

-- The best of several.
top : Option Offer → List Offer → Option Offer
top o [] = o
top o (x ∷ xs) = top (some (best o x)) xs

abbrev beaten : Option Offer → Offer → Bool
beaten none x = true
beaten (some o) x = beats x o

-- What an offer does not beat, a better one does not let it beat either.
beaten-best : (o : Option Offer) (x y : Offer) → beaten o x ≡ false → beats x (best o y) ≡ false
beaten-best none x y h = absurd (let f : true ≡ false = h in cc)
beaten-best (some o) x y h =
    ground
      (arith, beats_trans x y o, beats_asym y o, beats_total x y, beats_trans y x o, beats_asym x y)

best_own : (o : Option Offer) (x : Offer) → beats x (best o x) ≡ false
best_own none x = ground (arith, beats_asym x x)
best_own (some o) x = ground (arith, beats_asym x x)

beaten-top :
    (o : Option Offer) (xs : List Offer) (x : Offer)
    → beaten o x ≡ false
    → beaten (top o xs) x ≡ false
unfolding top
beaten-top o [] x h = h
beaten-top o (y ∷ ys) x h = beaten-top (some (best o y)) ys x (beaten-best o x y h)

offered-top :
    (o : Option Offer) (xs : List Offer) (x : Offer)
    → offered x xs ≡ true
    → beaten (top o xs) x ≡ false
unfolding top
offered-top o [] x h = absurd (let f : false ≡ true = h in cc)
offered-top o (y ∷ ys) x h = elim (Bool-cases (same_offer x y)) [
  | inl e ↦ rw (same_offer-eq x y e) (beaten-top (some (best o y)) ys y (best_own o y))
  | inr e ↦ offered-top (some (best o y)) ys x (ground arith)
]

same_offer_refl : (x : Offer) → same_offer x x ≡ true
same_offer_refl (e, d) = ground (arith, text_eq_iff d d)

best-cases : (o : Option Offer) (y : Offer) → (some (best o y) ≡ o) ⊎ (best o y ≡ y)
best-cases none y = inr refl
best-cases (some p) y = elim (Bool-cases (beats y p)) [
  | inl e ↦ inr (rw e refl)
  | inr e ↦ inl (rw e refl)
]

beats_irrefl : (a : Offer) → beats a a ≡ false
beats_irrefl a = ground (arith, beats_asym a a)

-- The best is the first one, or one of the others.
top-cases :
    (o : Option Offer) (xs : List Offer)
    → (top o xs ≡ o) ⊎ ((x : Offer) × (offered x xs ≡ true) × (top o xs ≡ some x))
unfolding top
top-cases o [] = inl refl
top-cases o (y ∷ ys) = elim (top-cases (some (best o y)) ys) [
  | inr (x, h, e) ↦ inr (x, ground arith, e)
  | inl e ↦ elim (best-cases o y) [
    | inl p ↦ inl (e ∙ p)
    | inr p ↦ inr (y, ground (arith, same_offer_refl y), e ∙ ap some p)
  ]
]

top_kept :
    (o : Option Offer) (ys : List Offer) (y : Offer)
    → beaten o y ≡ false
    → top o ys ≡ some y
    → o ≡ some y
top_kept none ys y h e = absurd (let f : true ≡ false = h in cc)
top_kept (some p) ys y h e =
    let back : beaten (top (some p) ys) p ≡ false = beaten-top (some p) ys p (beats_irrefl p) in
    ap some (beats_total p y (rw e at back) h)

top_unique :
    (o : Option Offer) (xs ys : List Offer)
    → ((x : Offer) → offered x xs ≡ offered x ys)
    → top o xs ≡ top o ys
top_unique o xs ys h = elim (top-cases o xs) [
  | inl a ↦ elim (top-cases o ys) [
    | inl b ↦ a ∙ sym b
    | inr (y, offer, b) ↦
        let unbeaten : beaten (top o xs) y ≡ false = offered-top o xs y (h y ∙ offer) in
        a ∙ top_kept o ys y (rw a at unbeaten) b ∙ sym b
  ]
  | inr (x, offer, a) ↦
      let unbeaten : beaten (top o ys) x ≡ false = offered-top o ys x (sym (h x) ∙ offer) in
      elim (top-cases o ys) [
        | inl b ↦ a ∙ sym (top_kept o xs x (rw b at unbeaten) a) ∙ sym b
        | inr (y, offer', b) ↦
            let unbeaten' : beaten (top o xs) y ≡ false = offered-top o xs y (h y ∙ offer') in
            a ∙ ap some (beats_total x y (rw b at unbeaten) (rw a at unbeaten')) ∙ sym b
      ]
]

migrate-our_node_id :
    (docs : Documents) (c : Text) (messages : List ChatMessage) (s : ChatService)
    → (migrate docs c messages s).our_node_id ≡ s.our_node_id
unfolding migrate
migrate-our_node_id docs c [] s = refl
migrate-our_node_id docs c (m ∷ messages) s = migrate-our_node_id docs c messages _ ∙ (ground arith)

drop_replaced-our_node_id :
    (old : Option StoredConversation) (document : Text) (s : ChatService)
    → (drop_replaced old document s).our_node_id ≡ s.our_node_id
unfolding drop_replaced
drop_replaced-our_node_id none document s = refl
drop_replaced-our_node_id (some stored) document s = ground arith

index_invite-our_node_id :
    (s : ChatService) (c : ChatConversation) (ticket : Text) (reset : Bool)
    → (index_invite s c ticket reset).our_node_id ≡ s.our_node_id
unfolding index_invite forget_conversation_local_state
index_invite-our_node_id s c ticket true = ground arith
index_invite-our_node_id s c ticket false = refl

import_invite-our_node_id :
    (s : ChatService) (docs : Documents) (remote : Text) (invite : ChatInvite) (reset : Bool)
    → (import_invite s docs remote invite reset).1.our_node_id ≡ s.our_node_id
unfolding import_invite tell_identity
import_invite-our_node_id s docs remote invite reset =
    let conversation = addressed remote invite.conversation in
    let current = get conversation.id s.conversations in
    let indexed = index_invite s conversation invite.ticket reset in
    let dropped = drop_replaced current conversation.document_id indexed in
    let opened = (open_and_publish dropped docs.answers conversation.id).1 in
    ground (
      arith,
      index_invite-our_node_id s conversation invite.ticket reset,
      drop_replaced-our_node_id current conversation.document_id indexed,
      ap (λ (p : Map StoredConversation × Text). p.1)
          (open_and_publish-core dropped docs.answers conversation.id),
      migrate-our_node_id docs conversation.id (migrated s docs reset current)
          (tell_identity remote invite opened),
    )

accept_invite-our_node_id :
    (s : ChatService) (docs : Documents) (remote : Text) (invite : ChatInvite)
    → (accept_invite s docs remote invite).1.our_node_id ≡ s.our_node_id
unfolding accept_invite
accept_invite-our_node_id s docs remote invite =
    let decision =
      decide (get invite.conversation.id s.conversations) (addressed remote invite.conversation) in
    ground (arith, import_invite-our_node_id s docs remote invite decision.1)

-- Whether an invitation is refused depends on the node alone.
refused-accept_invite :
    (s : ChatService) (docs : Documents) (remote : Text) (invite : ChatInvite) (docs' : Documents)
    (remote' : Text) (invite' : ChatInvite)
    → refused (accept_invite s docs remote invite).1 docs' remote' invite'
      ≡ refused s docs' remote' invite'
unfolding refused
refused-accept_invite s docs remote invite docs' remote' invite' =
    rw (accept_invite-our_node_id s docs remote invite) refl

offers-accept_invite :
    (s : ChatService) (docs : Documents) (remote : Text) (invite : ChatInvite) (c : Text)
    (arrivals : Arrivals)
    → offers (accept_invite s docs remote invite).1 c arrivals ≡ offers s c arrivals
unfolding offers
offers-accept_invite s docs remote invite c [] = refl
offers-accept_invite s docs remote invite c ((docs', remote', invite') ∷ arrivals) =
    rw
      (
        refused-accept_invite s docs remote invite docs' remote' invite',
        offers-accept_invite s docs remote invite c arrivals,
      )
      refl

accept_each-replica :
    (s : ChatService) (c : Text) (arrivals : Arrivals)
    → replica c (accept_each s arrivals) ≡ top (replica c s) (offers s c arrivals)
unfolding accept_each offers top
accept_each-replica s c [] = refl
accept_each-replica s c ((docs, remote, invite) ∷ arrivals) =
    accept_each-replica (accept_invite s docs remote invite).1 c arrivals
    ∙ ap (top (replica c (accept_invite s docs remote invite).1))
        (offers-accept_invite s docs remote invite c arrivals)
    ∙ ground (arith, accept_invite-replica s docs remote invite c)

-- Replicas converge: two nodes start from the same replica of a conversation, or both from none, and are offered
-- the same replicas of it in invitations that they do not refuse, in any order, each any number of times, and
-- among any other invitations; then they keep the same one, whichever calls of the libraries fail.
pub accept_each-converges :
    (s t : ChatService) (c : Text) (xs ys : Arrivals)
    → replica c s ≡ replica c t
    → ((o : Offer) → offered o (offers s c xs) ≡ offered o (offers t c ys))
    → replica c (accept_each s xs) ≡ replica c (accept_each t ys)
accept_each-converges s t c xs ys start same =
    accept_each-replica s c xs
    ∙ ap (λ o. top o (offers s c xs)) start
    ∙ top_unique (replica c t) (offers s c xs) (offers t c ys) same
    ∙ sym (accept_each-replica t c ys)
