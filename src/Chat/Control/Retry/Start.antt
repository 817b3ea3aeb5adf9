-- ===== src/Chat/Control/Retry/Start.antt =====
-- What a start leaves of the control queue: an invitation for each conversation, and a timer that is
-- due for each conversation that waits.
use wire_app.Common.{
  ℕ, ◌≡◌, refl, ap, ◌∙◌, Bool, true, false, ◌&&◌, List, [], ◌∷◌, Option, none, some, arith, Text,
  text_eq, text_eq_iff, text_eq_refl, if◌then◌else◌, keep_if, Bool-cases, Option-cases, inl, inr,
  subst,
}
use wire_app.Common.Map.{Map, get, insert, get-insert, contains_key}
use wire_app.Common.Map
use wire_app.Common.Set.{Set}
use wire_app.Common.Set
use wire_app.Chat.Records.{StoredConversation, ControlRetry, PendingInviteDelivery}
use wire_app.Chat.Service.{ChatService, conversation_peer_strings}
use wire_app.Chat.Control.{schedule_control_retry, conversation_has_pending_control, control_or_new}
use wire_app.Chat.Control.Acks.{IsMap}
use wire_app.Chat.Control.Retry.{
  is_current, with_invite, initialize_invites, saved_if_changed, initialize_invite_deliveries,
  restore_each, restore_control_retries,
}

abbrev invites : ChatService → Map PendingInviteDelivery
invites s = s.reliable_control.invites

-- What becomes of the invitation of a conversation: one of its epoch stays, any other gives way to
-- one that waits for these peers.
abbrev pub invited :
    Set → Option StoredConversation → Option PendingInviteDelivery → Option PendingInviteDelivery
invited peers none invite = invite
invited peers (some stored) invite =
    if is_current stored.conversation.history_epoch invite
    then invite
    else some (record { history_epoch = stored.conversation.history_epoch; pending_peers = peers })

peers-with_invite :
    (s : ChatService) (c k : Text) (epoch : ℕ)
    → conversation_peer_strings (with_invite s c epoch) k ≡ conversation_peer_strings s k
unfolding conversation_peer_strings wire_app.Chat.Service.other_members
peers-with_invite s c k epoch = refl

not_listed : {V : Type 0} (c : Text) (m : Map V) → contains_key c m ≡ false → get c m ≡ none
not_listed c m h = elim (Option-cases (get c m)) [
  | inl e ↦ e
  | inr (v, e) ↦ absurd (let f : true ≡ false = rw e at h in cc)
]

-- The invitations after one conversation of the loop.
abbrev one_invited : Text → ℕ → ChatService → ChatService
one_invited c epoch s = if is_current epoch (get c (invites s)) then s else with_invite s c epoch

get-one_invited :
    (s : ChatService) (c k : Text) (stored : StoredConversation)
    → get k (invites (one_invited c stored.conversation.history_epoch s)) ≡ (
        if text_eq c k
        then invited (conversation_peer_strings s c) (some stored) (get c (invites s))
        else get k (invites s))
get-one_invited s c k stored =
    let epoch = stored.conversation.history_epoch in
    let invite : PendingInviteDelivery = record {
      history_epoch = epoch;
      pending_peers = conversation_peer_strings s c;
    } in
    elim (Bool-cases (is_current epoch (get c (invites s)))) [
      | inl e ↦ rw e (ground (arith, text_eq_iff c k))
      | inr e ↦ rw e (get-insert k c invite (invites s))
    ]

initialize_invites-cons :
    (c : Text) (stored : StoredConversation) (m : Map StoredConversation) (s : ChatService)
    (changed : Bool)
    → (changed' : Bool) × (initialize_invites ((c, stored) ∷ m) (s, changed)
        ≡ initialize_invites m (one_invited c stored.conversation.history_epoch s, changed'))
unfolding initialize_invites
initialize_invites-cons c stored m s changed =
    elim (Bool-cases (is_current stored.conversation.history_epoch (get c (invites s)))) [
      | inl e ↦ (changed, rw e refl)
      | inr e ↦ (true, rw e refl)
    ]

peers-one_invited :
    (s : ChatService) (c k : Text) (epoch : ℕ)
    → conversation_peer_strings (one_invited c epoch s) k ≡ conversation_peer_strings s k
peers-one_invited s c k epoch = elim (Bool-cases (is_current epoch (get c (invites s)))) [
  | inl e ↦ rw e refl
  | inr e ↦ rw e (peers-with_invite s c k epoch)
]

-- One conversation of the loop, for its own key and for another.
own_key :
    (s : ChatService) (c : Text) (stored : StoredConversation) (m : Map StoredConversation)
    → get c m ≡ none
    → let s' = one_invited c stored.conversation.history_epoch s in
      invited (conversation_peer_strings s' c) (get c m) (get c (invites s'))
      ≡ invited (conversation_peer_strings s c) (get c ((c, stored) ∷ m)) (get c (invites s))
own_key s c stored m n =
    let s' = one_invited c stored.conversation.history_epoch s in
    ap (λ o. invited (conversation_peer_strings s' c) o (get c (invites s'))) n
    ∙ get-one_invited s c c stored
    ∙ (unfold get in rw (text_eq_refl c) refl)

other_key :
    (s : ChatService) (c k : Text) (stored : StoredConversation) (m : Map StoredConversation)
    → text_eq c k ≡ false
    → let s' = one_invited c stored.conversation.history_epoch s in
      invited (conversation_peer_strings s' k) (get k m) (get k (invites s'))
      ≡ invited (conversation_peer_strings s k) (get k ((c, stored) ∷ m)) (get k (invites s))
other_key s c k stored m other =
    let s' = one_invited c stored.conversation.history_epoch s in
    ap (λ p. invited p (get k m) (get k (invites s')))
      (peers-one_invited s c k stored.conversation.history_epoch)
    ∙ ap (invited (conversation_peer_strings s k) (get k m)) (get-one_invited s c k stored)
    ∙ (unfold get in rw other refl)

get-initialize_invites :
    (m : Map StoredConversation) (s : ChatService) (changed : Bool) (k : Text)
    → IsMap m
    → get k (invites (initialize_invites m (s, changed)).0)
      ≡ invited (conversation_peer_strings s k) (get k m) (get k (invites s))
get-initialize_invites [] s changed k h = unfold initialize_invites get in refl
get-initialize_invites ((c, stored) ∷ m) s changed k h =
    let epoch = stored.conversation.history_epoch in
    let (changed', step) = initialize_invites-cons c stored m s changed in
    let ih = get-initialize_invites m (one_invited c epoch s) changed' k h.1 in
    ap (λ r. get k (invites r.0)) step ∙ ih ∙ elim (Bool-cases (text_eq c k)) [
      | inl same ↦
          subst
            (λ x.
              invited (conversation_peer_strings (one_invited c epoch s) x) (get x m)
                (get x (invites (one_invited c epoch s)))
              ≡ invited (conversation_peer_strings s x) (get x ((c, stored) ∷ m))
                  (get x (invites s)))
            ((text_eq_iff c k).0 same) (own_key s c stored m (not_listed c m h.0))
      | inr other ↦ other_key s c k stored m other
    ]

saved-invites :
    (s : ChatService) (changed : Bool) → invites (saved_if_changed (s, changed)) ≡ invites s
saved-invites s changed = ground arith

-- At a start each stored conversation gets an invitation of its epoch: one that is there stays with
-- the peers that it still waits for, any other gives way to one that waits for every other member; and
-- the invitations of no other conversation change. The conversations are a map: no key stands twice.
pub initialize_invite_deliveries-invited :
    (s : ChatService) (k : Text)
    → IsMap s.conversations
    → get k (initialize_invite_deliveries s).reliable_control.invites
      ≡ invited
          (conversation_peer_strings s k)
          (get k s.conversations)
          (get k s.reliable_control.invites)
unfolding initialize_invite_deliveries
initialize_invite_deliveries-invited s k h =
    let r = initialize_invites s.conversations (s, false) in
    ap (get k) (saved-invites r.0 r.1) ∙ get-initialize_invites s.conversations s false k h

-- The time of a timer, where there is one.
abbrev pub time_of : Option ControlRetry → Option ℕ
time_of none = none
time_of (some retry) = some retry.next_attempt

time-schedule :
    (s : ChatService) (now : ℕ) (c k : Text)
    → time_of (get k (schedule_control_retry s now c true).control_retries)
      ≡ (if text_eq c k then some now else time_of (get k s.control_retries))
unfolding schedule_control_retry
time-schedule s now c k =
    rw
      (get-insert k c (record (control_or_new now (get c s.control_retries)) { next_attempt = now })
        s.control_retries)
      (ground arith)

time-restore_each :
    (now : ℕ) (cs : List Text) (s : ChatService) (k : Text)
    → time_of (get k (restore_each now cs s).control_retries)
      ≡ (if Set.contains k cs then some now else time_of (get k s.control_retries))
unfolding restore_each Set.contains
time-restore_each now [] s k = refl
time-restore_each now (c ∷ cs) s k =
    time-restore_each now cs (schedule_control_retry s now c true) k
    ∙ ground (arith, time-schedule s now c k)

contains-keep_if :
    (p : Text → Bool) (cs : List Text) (k : Text)
    → Set.contains k (keep_if p cs) ≡ (Set.contains k cs && p k)
unfolding Set.contains
contains-keep_if p [] k = refl
contains-keep_if p (c ∷ cs) k = ground (arith, contains-keep_if p cs k, text_eq_iff c k)

contains-keys : {V : Type 0} (m : Map V) (k : Text) → Set.contains k (Map.keys m) ≡ contains_key k m
unfolding Set.contains get
contains-keys [] k = refl
contains-keys ((c, v) ∷ m) k = ground (arith, contains-keys m k)

-- At a start the control timer of each stored conversation that still waits for an acknowledgement is set
-- to the present, and the timers of all other conversations stay as they are.
pub restore_control_retries-time :
    (s : ChatService) (now : ℕ) (k : Text)
    → time_of (get k (restore_control_retries s now).control_retries) ≡ (
        if contains_key k s.conversations && conversation_has_pending_control s k
        then some now
        else time_of (get k s.control_retries))
unfolding restore_control_retries
restore_control_retries-time s now k =
    time-restore_each now (keep_if (conversation_has_pending_control s) (Map.keys s.conversations))
      s k
    ∙ rw
        (
          contains-keep_if (conversation_has_pending_control s) (Map.keys s.conversations) k,
          contains-keys s.conversations k,
        )
        refl
