-- ===== src/Chat/Control/Acks.antt =====
-- What acknowledgements settle.
use wire_app.Common.{
  ◌≡◌, refl, ◌∙◌, Bool, true, false, not, ◌&&◌, List, [], ◌∷◌, Option, none, some, arith, Text,
  text_eq, text_eq_iff, is_empty, Option-cases, inl, inr,
}
use wire_app.Common.Map.{Map, get, alter, get-alter, contains_key, map_option}
use wire_app.Common.Map
use wire_app.Common.Set.{Set, contains-remove}
use wire_app.Common.Set
use wire_app.Chat.Records.{SyncRequest}
use wire_app.Chat.Service.{ChatService}
use wire_app.Chat.Control.{
  acknowledge, kept, or_default, apply_control_acks, attachment_peers, set_attachment_peers,
  deletion_peers, set_deletion_peers, ack_attachments, ack_deletions,
}

-- No key stands twice.
abbrev pub IsMap : {V : Type 0} → Map V → Type 0
IsMap [] = Unit
IsMap ((k, v) ∷ m) = (contains_key k m ≡ false) × IsMap m

-- Whether the entry of a key waits for the peer.
abbrev pub awaits : {V : Type 0} → (V → Set) → Text → Option V → Bool
awaits peers p none = false
awaits peers p (some e) = Set.contains p (peers e)

module _ {V : Type 0} (peers : V → Set) (set : Set → V → V)
    (peers-set : (ps : Set) (e : V) → peers (set ps e) ≡ ps) where
  IsMap-alter : (k : Text) (f : V → V) (m : Map V) → IsMap m → IsMap (alter k f m)
  unfolding alter
  IsMap-alter k f [] h = tt
  IsMap-alter k f ((j, v) ∷ m) h =
      ground (arith, get-alter j k f m, text_eq_iff j k, IsMap-alter k f m)

  awaits-removed :
      (remote : Text) (j k p : Text) (m : Map V)
      → awaits peers p (get k (alter j (λ e. set (Set.remove remote (peers e)) e) m))
        ≡ (awaits peers p (get k m) && not (text_eq remote p && text_eq j k))
  awaits-removed remote j k p m = elim (Option-cases (get k m)) [
    | inl e ↦ rw (get-alter k j (λ e. set (Set.remove remote (peers e)) e) m) (rw e (ground arith))
    | inr (v, e) ↦ rw (get-alter k j (λ e. set (Set.remove remote (peers e)) e) m) (
        rw e (
          ground
            (arith, peers-set (Set.remove remote (peers v)) v, contains-remove p remote (peers v))))
  ]

  awaits-acknowledge :
      (remote : Text) (ks : List Text) (m : Map V) (k p : Text)
      → awaits peers p (get k (acknowledge peers set remote ks m))
        ≡ (awaits peers p (get k m) && not (text_eq remote p && Set.contains k ks))
  unfolding acknowledge Set.contains
  awaits-acknowledge remote [] m k p = ground arith
  awaits-acknowledge remote (j ∷ ks) m k p = ground (
    arith,
    awaits-removed remote j k p m,
    awaits-acknowledge remote ks (alter j (λ e. set (Set.remove remote (peers e)) e) m) k p,
  )

  awaits_empty : (p : Text) (xs : Set) → is_empty xs ≡ true → Set.contains p xs ≡ false
  unfolding Set.contains
  awaits_empty p [] h = refl
  awaits_empty p (x ∷ xs) h = absurd (let f : false ≡ true = h in cc)

  awaits-kept :
      (m : Map V) (k p : Text)
      → IsMap m
      → awaits peers p (get k (kept peers m)) ≡ awaits peers p (get k m)
  unfolding kept Map.retain get
  awaits-kept [] k p h = refl
  awaits-kept ((j, v) ∷ m) k p h =
      ground (arith, awaits-kept m k p, awaits_empty p (peers v), text_eq_iff j k)

  IsMap-acknowledge :
      (remote : Text) (ks : List Text) (m : Map V)
      → IsMap m
      → IsMap (acknowledge peers set remote ks m)
  unfolding acknowledge
  IsMap-acknowledge remote [] m h = h
  IsMap-acknowledge remote (j ∷ ks) m h =
      IsMap-acknowledge remote ks (alter j (λ e. set (Set.remove remote (peers e)) e) m)
        (IsMap-alter j (λ e. set (Set.remove remote (peers e)) e) m h)

  awaits-acked :
      (remote : Text) (ks : List Text) (m : Map V) (k p : Text)
      → IsMap m
      → awaits peers p (get k (kept peers (acknowledge peers set remote ks m)))
        ≡ (awaits peers p (get k m) && not (text_eq remote p && Set.contains k ks))
  awaits-acked remote ks m k p h =
      awaits-kept (acknowledge peers set remote ks m) k p (IsMap-acknowledge remote ks m h)
      ∙ awaits-acknowledge remote ks m k p

  awaits-nil : (k p : Text) → awaits peers p (get k []) ≡ false
  unfolding get
  awaits-nil k p = refl

  -- The same for the entries of one conversation, when those of another are acknowledged.
  awaits-conversation :
      (f : Map V → Map V) (remote : Text) (ks : List Text) (all : Map (Map V)) (c d k p : Text)
      → ((m : Map V) → f m ≡ kept peers (acknowledge peers set remote ks m))
      → IsMap (or_default (get d all))
      → awaits peers p (get k (or_default (get d (alter c f all)))) ≡ (
          awaits peers p (get k (or_default (get d all)))
          && not (text_eq c d && (text_eq remote p && Set.contains k ks)))
  awaits-conversation f remote ks all c d k p e h = elim (Option-cases (get d all)) [
    | inl g ↦ rw (get-alter d c f all) (rw g (ground (arith, awaits-nil k p)))
    | inr (m, g) ↦
        rw (get-alter d c f all)
          (rw g (ground (arith, e m, awaits-acked remote ks m k p (rw g at h))))
  ]

control-attachments :
    (s : ChatService) (c remote : Text) (request : SyncRequest)
    → (apply_control_acks s c remote request).reliable_control.attachments
      ≡ alter c (ack_attachments remote request.attachment_acks) s.reliable_control.attachments
unfolding apply_control_acks
control-attachments s c remote request = ground arith

control-deletions :
    (s : ChatService) (c remote : Text) (request : SyncRequest)
    → (apply_control_acks s c remote request).reliable_control.deletions
      ≡ alter c (ack_deletions remote request.deletion_acks) s.reliable_control.deletions
unfolding apply_control_acks
control-deletions s c remote request = ground arith

-- Acknowledgements settle what they name, for their sender alone: after `apply_control_acks` an
-- attachment or a deletion of a conversation waits for a peer exactly if it waited before and was
-- not acknowledged by this peer in this conversation. The conversation's entries are maps: no key
-- stands in them twice.
pub apply_control_acks-awaits :
    (s : ChatService) (c remote : Text) (request : SyncRequest) (d k p : Text)
    → IsMap (or_default (get d s.reliable_control.attachments))
    → IsMap (or_default (get d s.reliable_control.deletions))
    → let after = (apply_control_acks s c remote request).reliable_control in
      (awaits attachment_peers p (get k (or_default (get d after.attachments))) ≡ (
        awaits attachment_peers p (get k (or_default (get d s.reliable_control.attachments)))
        && not (text_eq c d && (text_eq remote p && Set.contains k request.attachment_acks))))
      × (awaits deletion_peers p (get k (or_default (get d after.deletions))) ≡ (
          awaits deletion_peers p (get k (or_default (get d s.reliable_control.deletions)))
          && not (text_eq c d && (text_eq remote p && Set.contains k request.deletion_acks))))
unfolding ack_attachments ack_deletions
apply_control_acks-awaits s c remote request d k p ha hd = (
  rw (control-attachments s c remote request) (
      awaits-conversation attachment_peers set_attachment_peers (λ ps e. refl)
        (ack_attachments remote request.attachment_acks) remote request.attachment_acks
        s.reliable_control.attachments c d k p (λ m. refl) ha),
  rw (control-deletions s c remote request) (
      awaits-conversation deletion_peers set_deletion_peers (λ ps e. refl)
        (ack_deletions remote request.deletion_acks) remote request.deletion_acks
        s.reliable_control.deletions c d k p (λ m. refl) hd),
)
