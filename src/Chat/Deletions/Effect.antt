-- ===== src/Chat/Deletions/Effect.antt =====
-- What the staged deletions make of a timeline, message by message.
use wire_app.Common.{
  ◌≡◌, refl, sym, ◌∙◌, Bool, true, false, List, [], ◌∷◌, Option, none, some, arith, Text, text_eq,
  text_eq_iff, text_eq_refl, if◌then◌else◌, Option-cases, Bool-cases, inl, inr, subst,
}
use wire_app.Common.Map.{Map, get, get-insert, get-remove, contains_key, map_option}
use wire_app.Chat.Message.{ChatMessage}
use wire_app.Chat.Records.{ReplicatedDeletion}
use wire_app.Chat.Service.{ChatService}
use wire_app.Chat.Control.Acks.{IsMap}
use wire_app.Chat.Deletions.{
  Staged, staged_or_default, staged_again, merge_deletion, merge_into, merge_each,
  merge_staged_deletions,
}

-- The first message with the id.
unfoldable pub find : Text → List ChatMessage → Option ChatMessage
find k [] = none
find k (m ∷ ms) = let rest = find k ms in if text_eq m.message_id k then some m else rest

-- What a staged deletion, if there is one, makes of a message, and whether it stays.
abbrev pub merged_by : Option (Text × ReplicatedDeletion) → ChatMessage → ChatMessage
merged_by none m = m
merged_by (some (a, d)) m = (merge_deletion a d m).1

abbrev pub stays_with : Option ChatMessage → Text × ReplicatedDeletion → Bool
stays_with none e = true
stays_with (some m) (a, d) = (merge_deletion a d m).0

merge_deletion-message_id :
    (a : Text) (d : ReplicatedDeletion) (m : ChatMessage)
    → (merge_deletion a d m).1.message_id ≡ m.message_id
unfolding merge_deletion
merge_deletion-message_id a d m = ground arith

find-merge_into :
    (k a : Text) (d : ReplicatedDeletion) (ms : List ChatMessage) (j : Text)
    → find j (merge_into k a d ms).1
      ≡ (if text_eq k j then map_option (merged_by (some (a, d))) (find j ms) else find j ms)
unfolding merge_into find
find-merge_into k a d [] j = ground arith
find-merge_into k a d (m ∷ ms) j = ground (
  arith,
  find-merge_into k a d ms j,
  merge_deletion-message_id a d m,
  text_eq_iff m.message_id k,
  text_eq_iff m.message_id j,
  text_eq_iff k j,
)

merge_into-stays :
    (k a : Text) (d : ReplicatedDeletion) (ms : List ChatMessage)
    → (merge_into k a d ms).0 ≡ stays_with (find k ms) (a, d)
unfolding merge_into find
merge_into-stays k a d [] = refl
merge_into-stays k a d (m ∷ ms) = ground (arith, merge_into-stays k a d ms)

absent : (k : Text) (m : Staged) → contains_key k m ≡ false → get k m ≡ none
absent k m h = elim (Option-cases (get k m)) [
  | inl e ↦ e
  | inr (v, e) ↦ absurd (let f : true ≡ false = (rw e at h) in cc)
]

map_option-none : (o : Option ChatMessage) → map_option (merged_by none) o ≡ o
map_option-none none = refl
map_option-none (some m) = refl

find-merge_each :
    (staged : Staged) (ms : List ChatMessage) (j : Text)
    → IsMap staged
    → find j (merge_each staged ms).1 ≡ map_option (merged_by (get j staged)) (find j ms)
unfolding merge_each get
find-merge_each [] ms j h = sym (map_option-none (find j ms))
find-merge_each ((k, (a, d)) ∷ staged) ms j h = elim (Bool-cases (text_eq k j)) [
  | inl e ↦
      let gone : get j staged ≡ none =
        subst (λ i. get i staged ≡ none) ((text_eq_iff k j).0 e) (absent k staged h.0) in
      rw
        (
          e,
          find-merge_each staged (merge_into k a d ms).1 j h.1,
          gone,
          map_option-none (find j (merge_into k a d ms).1),
          find-merge_into k a d ms j,
          e,
        )
        refl
  | inr e ↦
      rw (e, find-merge_each staged (merge_into k a d ms).1 j h.1, find-merge_into k a d ms j, e)
        refl
]

-- What stays staged for a message.
abbrev pub staying :
    Option ChatMessage → Option (Text × ReplicatedDeletion) → Option (Text × ReplicatedDeletion)
staying o none = none
staying o (some e) = if stays_with o e then some e else none

get-merge_each :
    (staged : Staged) (ms : List ChatMessage) (j : Text)
    → IsMap staged
    → get j (merge_each staged ms).0 ≡ staying (find j ms) (get j staged)
unfolding merge_each get
get-merge_each [] ms j h = refl
get-merge_each ((k, (a, d)) ∷ staged) ms j h = elim (Bool-cases (text_eq k j)) [
  | inl e ↦
      let gone : get j staged ≡ none =
        subst (λ i. get i staged ≡ none) ((text_eq_iff k j).0 e) (absent k staged h.0) in
      let rest : get j (merge_each staged (merge_into k a d ms).1).0 ≡ none =
        get-merge_each staged (merge_into k a d ms).1 j h.1 ∙ (rw gone) in
      ground (arith, merge_into-stays k a d ms, text_eq_iff k j)
  | inr e ↦
      ground
        (arith, get-merge_each staged (merge_into k a d ms).1 j h.1, find-merge_into k a d ms j)
]

get-nil : (j : Text) → get {V = Text × ReplicatedDeletion} j [] ≡ none
unfolding get
get-nil j = refl

get-staged_again :
    (c : Text) (staged : Staged) (all : Map Staged) (j : Text)
    → get j (staged_or_default (get c (staged_again c staged all))) ≡ get j staged
get-staged_again c [] all j = rw (get-remove c c all, text_eq_refl c) refl
get-staged_again c (e ∷ staged) all j = rw (get-insert c c (e ∷ staged) all, text_eq_refl c) refl

-- Each message of a timeline, and each staged deletion, is dealt with on its own: the first message with an id
-- becomes what the deletion that is staged for the id, if there is one, makes of it, and this deletion stays
-- staged exactly if there is no such message or it still has to wait. No id is staged twice.
pub merge_staged_deletions-find :
    (s : ChatService) (c : Text) (ms : List ChatMessage) (j : Text)
    → IsMap (staged_or_default (get c s.staged_deletions))
    → let staged = staged_or_default (get c s.staged_deletions) in
      let merged = merge_staged_deletions s c ms in
      (find j merged.1 ≡ map_option (merged_by (get j staged)) (find j ms))
      × (get j (staged_or_default (get c merged.0.staged_deletions))
          ≡ staying (find j ms) (get j staged))
unfolding merge_staged_deletions
merge_staged_deletions-find s c ms j h = elim (Option-cases (get c s.staged_deletions)) [
  | inl e ↦
      rw (e, merge_staged_deletions)
        (rw (get-nil j, e, get-nil j) (sym (map_option-none (find j ms)), refl))
  | inr (staged, e) ↦
      rw
        (
          e,
          merge_staged_deletions,
          get-staged_again c (merge_each staged ms).0 s.staged_deletions j,
        )
        (find-merge_each staged ms j (rw e at h), get-merge_each staged ms j (rw e at h))
]
