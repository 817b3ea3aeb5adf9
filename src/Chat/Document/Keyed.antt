-- ===== src/Chat/Document/Keyed.antt =====
-- The messages of a document stand by their ids, each id once.
use wire_app.Common.{
  ◌≡◌, ◌≢◌, refl, sym, ◌∙◌, true, false, ◌&&◌, ◌||◌, List, [], ◌∷◌, arith, Text, text_eq, text_lt,
  text_eq_iff, text_lt_asym, map, any, All, Bool-cases, inl, inr,
}
use wire_app.Common.Map.{get, insert, alter, values, is_some, contains_key}
use wire_app.Common.Map.Ascending.{IsAscending, IsAbove, IsAscending-insert, IsAscending-alter}
use wire_app.Common.Set.{Set}
use wire_app.Chat.Message.{ChatMessage, Externals, validate}
use wire_app.Chat.Message.Order.{HasDistinctIds}
use wire_app.Chat.Records.{StoredConversation, ReplicatedDeletion, deletion_is_valid}
use wire_app.Chat.Service.{ChatService}
use wire_app.Chat.Deletions.Effect.{find}
use wire_app.Chat.Document.{
  DocumentEntry, FileReceipt, Loaded, Sharing, take_message, take_deletion, deleted_by,
  take_file_receipt, received_by, file_receipt_key, mark_stopped, mark_each, hide, hide_each,
}
use wire_app.Chat.Document.Contents.{Contents, fold_each}
use wire_app.Chat.Document.Shown.{sharing_of, hidden, by_id, of_entry, map_some}

-- Each message stands under its own id.
abbrev pub IsKeyed : Loaded → Type 0
IsKeyed [] = Unit
IsKeyed ((k, p) ∷ loaded) = (p.0.message_id ≡ k) × IsKeyed loaded

pub record IsLoaded (loaded : Loaded) : Type 0 where
  pub keyed : IsKeyed loaded
  pub ascending : IsAscending loaded

IsKeyed-insert :
    (p : ChatMessage × Text) (loaded : Loaded)
    → IsKeyed loaded
    → IsKeyed (insert p.0.message_id p loaded)
unfolding insert
IsKeyed-insert p [] h = (refl, tt)
IsKeyed-insert p ((j, q) ∷ loaded) h = elim (Bool-cases (text_eq j p.0.message_id)) [
  | inl e ↦ rw e (refl, h.1)
  | inr e ↦ elim (Bool-cases (text_lt p.0.message_id j)) [
    | inl l ↦ rw (e, l) (refl, h)
    | inr l ↦ rw (e, l) (h.0, IsKeyed-insert p loaded h.1)
  ]
]

IsKeyed-alter :
    (k : Text) (f : ChatMessage × Text → ChatMessage × Text) (loaded : Loaded)
    → ((p : ChatMessage × Text) → (f p).0.message_id ≡ p.0.message_id)
    → IsKeyed loaded
    → IsKeyed (alter k f loaded)
unfolding alter
IsKeyed-alter k f [] g h = tt
IsKeyed-alter k f ((j, p) ∷ loaded) g h = elim (Bool-cases (text_eq j k)) [
  | inl e ↦ rw e (g p ∙ h.0, IsKeyed-alter k f loaded g h.1)
  | inr e ↦ rw e (h.0, IsKeyed-alter k f loaded g h.1)
]

IsLoaded-alter :
    (k : Text) (f : ChatMessage × Text → ChatMessage × Text) (loaded : Loaded)
    → ((p : ChatMessage × Text) → (f p).0.message_id ≡ p.0.message_id)
    → IsLoaded loaded
    → IsLoaded (alter k f loaded)
IsLoaded-alter k f loaded g h = record {
  keyed = IsKeyed-alter k f loaded g h.keyed;
  ascending = IsAscending-alter k f loaded h.ascending;
}

IsLoaded-fold_each :
    {A : Type 0} (f : Loaded → DocumentEntry → A → Loaded)
    → ((loaded : Loaded) (e : DocumentEntry) (a : A) → IsLoaded loaded → IsLoaded (f loaded e a))
    → (xs : List (DocumentEntry × A)) (loaded : Loaded) → IsLoaded loaded
    → IsLoaded (fold_each f xs loaded)
IsLoaded-fold_each f g [] loaded h = h
IsLoaded-fold_each f g ((e, a) ∷ xs) loaded h =
    IsLoaded-fold_each f g xs (f loaded e a) (g loaded e a h)

IsLoaded-take_message :
    (ext : Externals) (loaded : Loaded) (e : DocumentEntry) (m : ChatMessage)
    → IsLoaded loaded
    → IsLoaded (take_message ext loaded e m)
unfolding take_message
IsLoaded-take_message ext loaded e m h =
    elim (Bool-cases (is_some (validate ext m) || contains_key m.message_id loaded)) [
      | inl b ↦ rw b h
      | inr b ↦ rw b (record {
        keyed = IsKeyed-insert (m, e.author) loaded h.keyed;
        ascending = IsAscending-insert m.message_id (m, e.author) loaded h.ascending;
      })
    ]

deleted_by-message_id :
    (e : DocumentEntry) (d : ReplicatedDeletion) (p : ChatMessage × Text)
    → (deleted_by e d p).0.message_id ≡ p.0.message_id
unfolding deleted_by
deleted_by-message_id e d (m, author) = ground arith

IsLoaded-take_deletion :
    (loaded : Loaded) (e : DocumentEntry) (d : ReplicatedDeletion)
    → IsLoaded loaded
    → IsLoaded (take_deletion loaded e d)
unfolding take_deletion
IsLoaded-take_deletion loaded e d h = elim (Bool-cases (deletion_is_valid d)) [
  | inl b ↦ rw b (IsLoaded-alter d.message_id (deleted_by e d) loaded (deleted_by-message_id e d) h)
  | inr b ↦ rw b h
]

received_by-message_id :
    (r : FileReceipt) (p : ChatMessage × Text) → (received_by r p).0.message_id ≡ p.0.message_id
unfolding received_by
received_by-message_id r (m, author) = ground arith

IsLoaded-take_file_receipt :
    (members : List Text) (loaded : Loaded) (e : DocumentEntry) (r : FileReceipt)
    → IsLoaded loaded
    → IsLoaded (take_file_receipt members loaded e r)
unfolding take_file_receipt
IsLoaded-take_file_receipt members loaded e r h =
    elim (Bool-cases (
      text_eq (file_receipt_key r) e.key
      && any (λ (member : Text). text_eq member r.receiver_id) members)) [
        | inl b ↦
            rw b (IsLoaded-alter r.message_id (received_by r) loaded (received_by-message_id r) h)
        | inr b ↦ rw b h
      ]

IsAbove-mark_each :
    (s : ChatService) (sharing : Sharing) (k : Text) (loaded : Loaded)
    → IsAbove k loaded
    → IsAbove k (mark_each s sharing loaded)
unfolding mark_each
IsAbove-mark_each s sharing k [] h = tt
IsAbove-mark_each s sharing k ((j, (m, author)) ∷ loaded) h =
    (h.0, IsAbove-mark_each s sharing k loaded h.1)

IsLoaded-mark_each :
    (s : ChatService) (sharing : Sharing) (loaded : Loaded)
    → IsLoaded loaded
    → IsLoaded (mark_each s sharing loaded)
unfolding mark_each mark_stopped
IsLoaded-mark_each s sharing [] h = h
IsLoaded-mark_each s sharing ((j, (m, author)) ∷ loaded) h =
    let rest =
      IsLoaded-mark_each s sharing loaded
        (record { keyed = h.keyed.1; ascending = h.ascending.1 }) in
    record {
      keyed = (h.keyed.0, rest.keyed);
      ascending = (IsAbove-mark_each s sharing j loaded h.ascending.0, rest.ascending);
    }

IsLoaded-hide_each : (ks : Set) (loaded : Loaded) → IsLoaded loaded → IsLoaded (hide_each ks loaded)
unfolding hide_each
IsLoaded-hide_each [] loaded h = h
IsLoaded-hide_each (k ∷ ks) loaded h =
    IsLoaded-hide_each ks (alter k hide loaded) (IsLoaded-alter k hide loaded (λ p. refl) h)

pub by_id-IsLoaded :
    (s : ChatService) (stored : StoredConversation) (c : Contents) → IsLoaded (by_id s stored c)
by_id-IsLoaded s stored c =
    let members = stored.conversation.members in
    let h1 =
      IsLoaded-fold_each (take_message s.externals) (IsLoaded-take_message s.externals) c.messages
        [] (record { keyed = tt; ascending = tt }) in
    let h2 = IsLoaded-fold_each take_deletion IsLoaded-take_deletion c.deletions _ h1 in
    let h3 =
      IsLoaded-fold_each (take_file_receipt members) (IsLoaded-take_file_receipt members) c.receipts
        _ h2 in
    IsLoaded-hide_each (hidden s stored) _
      (IsLoaded-mark_each s (sharing_of s.externals stored c) _ h3)

pub find-values :
    (k : Text) (loaded : Loaded)
    → IsKeyed loaded
    → find k (map of_entry (values loaded)) ≡ map_some of_entry (get k loaded)
unfolding find get
find-values k [] h = refl
find-values k ((j, p) ∷ loaded) h =
    ground (arith, find-values k loaded h.1, h.0, text_eq_iff j k, text_eq_iff p.0.message_id k)

above-ne : (k j : Text) → text_lt k j ≡ true → k ≢ j
above-ne k j h e = let g : text_lt j k ≡ false = text_lt_asym k j h in cc

above_all :
    (k : Text) (m : ChatMessage) (loaded : Loaded)
    → m.message_id ≡ k
    → IsKeyed loaded
    → IsAbove k loaded
    → All (λ (y : ChatMessage). m.message_id ≢ y.message_id) (map of_entry (values loaded))
above_all k m [] e h a = tt
above_all k m ((j, p) ∷ loaded) e h a =
    (λ same. above-ne k j a.0 (sym e ∙ same ∙ h.0), above_all k m loaded e h.1 a.1)

pub values-HasDistinctIds :
    (loaded : Loaded)
    → IsKeyed loaded
    → IsAscending loaded
    → HasDistinctIds (map of_entry (values loaded))
values-HasDistinctIds [] h a = tt
values-HasDistinctIds ((k, p) ∷ loaded) h a =
    (above_all k p.0 loaded h.0 h.1 a.0, values-HasDistinctIds loaded h.1 a.1)
