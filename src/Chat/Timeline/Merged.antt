-- ===== src/Chat/Timeline/Merged.antt =====
-- The timeline has each message once: as the document has it, or else as it is staged.
use wire_app.Common.{
  ◌≡◌, ◌≢◌, refl, sym, ap, ◌∙◌, true, false, List, [], ◌∷◌, ◌++◌, Option, none, some, arith, Text,
  text_lt, text_eq_iff, text_eq_refl, text_lt_asym, All, All-append, Option-cases, Bool-cases, inl,
  inr,
}
use mathlib.Core.List.{Permᴰ}
use mathlib.Core.List.Permᴰ
use mathlib.Core.List.Permᴰ.{nil, cons, swap, trans}
use wire_app.Common.Map.{Map, get, insert, values}
use wire_app.Common.Map
use wire_app.Common.Map.Ascending.{IsAscending, IsAbove}
use wire_app.Chat.Message.{ChatMessage}
use wire_app.Chat.Message.Order.{HasDistinctIds, HasDistinctIds-perm, sorted-perm}
use wire_app.Chat.Service.{ChatService}
use wire_app.Chat.Deletions.Effect.{find}
use wire_app.Chat.Timeline.{messages_or_default, is_present, still_staged, merge_staged_inbound}

-- Each message stands under its own id.
abbrev pub IsKeyed : Map ChatMessage → Type 0
IsKeyed [] = Unit
IsKeyed ((k, m) ∷ staged) = (m.message_id ≡ k) × IsKeyed staged

find_swap :
    (k : Text) (x y : ChatMessage) (xs : List ChatMessage)
    → x.message_id ≢ y.message_id
    → find k (x ∷ y ∷ xs) ≡ find k (y ∷ x ∷ xs)
unfolding find
find_swap k x y xs d = ground (arith, text_eq_iff x.message_id k, text_eq_iff y.message_id k)

pub find-perm :
    (k : Text) {xs ys : List ChatMessage} → Permᴰ xs ys → HasDistinctIds xs → find k xs ≡ find k ys
unfolding find
find-perm k nil h = refl
find-perm k {xs = x ∷ xs} {ys = y ∷ ys} (cons e p) h = rw (e, find-perm k p h.1) refl
find-perm k {xs = x ∷ y ∷ xs} {ys = y' ∷ x' ∷ ys} (swap e f) h =
    find_swap k x y xs h.0.0 ∙ ap (λ z. find k (z ∷ x ∷ xs)) f ∙ ap (λ z. find k (y' ∷ z ∷ xs)) e
find-perm k (trans p q) h = find-perm k p h ∙ find-perm k q (HasDistinctIds-perm p h)

abbrev pub or_else : Option ChatMessage → Option ChatMessage → Option ChatMessage
or_else none o = o
or_else (some m) o = some m

find-append :
    (k : Text) (xs ys : List ChatMessage) → find k (xs ++ ys) ≡ or_else (find k xs) (find k ys)
unfolding find
find-append k [] ys = refl
find-append k (x ∷ xs) ys = ground (arith, find-append k xs ys)

is_present-find : (k : Text) (xs : List ChatMessage) → is_present k xs ≡ false → find k xs ≡ none
unfolding find
is_present-find k [] h = refl
is_present-find k (x ∷ xs) h = ground (arith, is_present-find k xs)

present-find :
    (k : Text) (xs : List ChatMessage) (o : Option ChatMessage)
    → is_present k xs ≡ true
    → or_else (find k xs) o ≡ find k xs
unfolding find
present-find k [] o h = cc
present-find k (x ∷ xs) o h = ground (arith, present-find k xs o)

-- What stays staged, message by message.
find-still_staged :
    (k : Text) (messages : List ChatMessage) (staged : Map ChatMessage)
    → IsKeyed staged
    → or_else (find k messages) (find k (values (still_staged messages staged)))
      ≡ or_else (find k messages) (get k staged)
unfolding find get Map.retain
find-still_staged k messages [] h = refl
find-still_staged k messages ((j, m) ∷ staged) h = elim (Bool-cases (is_present j messages)) [
  | inl e ↦ rw e (
      ground (
        arith,
        find-still_staged k messages staged h.1,
        present-find k messages (some m),
        present-find k messages (get k staged),
        text_eq_iff j k,
      ))
  | inr e ↦ rw e (
      ground (
        arith,
        find-still_staged k messages staged h.1,
        h.0,
        text_eq_iff j k,
        text_eq_iff m.message_id k,
      ))
]

above-ne : (k j : Text) → text_lt k j ≡ true → k ≢ j
above-ne k j h e = let g : text_lt j k ≡ false = text_lt_asym k j h in cc

-- The messages that stay staged have other ids than those of the document, and one another.
above-all :
    (k : Text) (messages : List ChatMessage) (staged : Map ChatMessage) (x : ChatMessage)
    → x.message_id ≡ k
    → IsKeyed staged
    → IsAbove k staged
    → All (λ (y : ChatMessage). x.message_id ≢ y.message_id) (values (still_staged messages staged))
unfolding Map.retain
above-all k messages [] x e h a = tt
above-all k messages ((j, m) ∷ staged) x e h a = elim (Bool-cases (is_present j messages)) [
  | inl p ↦ rw p (above-all k messages staged x e h.1 a.1)
  | inr p ↦
      rw p (λ same. above-ne k j a.0 (sym e ∙ same ∙ h.0), above-all k messages staged x e h.1 a.1)
]

still_staged-HasDistinctIds :
    (messages : List ChatMessage) (staged : Map ChatMessage)
    → IsKeyed staged
    → IsAscending staged
    → HasDistinctIds (values (still_staged messages staged))
unfolding Map.retain
still_staged-HasDistinctIds messages [] h a = tt
still_staged-HasDistinctIds messages ((j, m) ∷ staged) h a =
    elim (Bool-cases (is_present j messages)) [
      | inl p ↦ rw p (still_staged-HasDistinctIds messages staged h.1 a.1)
      | inr p ↦ rw p (
        above-all j messages staged m h.0 h.1 a.0,
        still_staged-HasDistinctIds messages staged h.1 a.1,
      )
    ]

absent-all :
    (x : ChatMessage) (messages : List ChatMessage) (staged : Map ChatMessage)
    → is_present x.message_id messages ≡ true
    → IsKeyed staged
    → All (λ (y : ChatMessage). x.message_id ≢ y.message_id) (values (still_staged messages staged))
unfolding Map.retain
absent-all x messages [] e h = tt
absent-all x messages ((j, m) ∷ staged) e h = elim (Bool-cases (is_present j messages)) [
  | inl p ↦ rw p (absent-all x messages staged e h.1)
  | inr p ↦ rw p (
    λ same.
        absurd
          (let f : true ≡ false = sym e ∙ ap (λ i. is_present i messages) (same ∙ h.0) ∙ p in cc),
    absent-all x messages staged e h.1,
  )
]

HasDistinctIds-append :
    (xs ys : List ChatMessage)
    → HasDistinctIds xs
    → HasDistinctIds ys
    → All (λ (x : ChatMessage). All (λ (y : ChatMessage). x.message_id ≢ y.message_id) ys) xs
    → HasDistinctIds (xs ++ ys)
HasDistinctIds-append [] ys h g a = g
HasDistinctIds-append (x ∷ xs) ys h g a = (
  All-append (λ (y : ChatMessage). x.message_id ≢ y.message_id) xs ys (h.0, a.0),
  HasDistinctIds-append xs ys h.1 g a.1,
)

present_each :
    (xs messages : List ChatMessage) (staged : Map ChatMessage)
    → All (λ (x : ChatMessage). is_present x.message_id messages ≡ true) xs
    → IsKeyed staged
    → All
        (λ (x : ChatMessage).
          All
            (λ (y : ChatMessage). x.message_id ≢ y.message_id)
            (values (still_staged messages staged)))
        xs
present_each [] messages staged e h = tt
present_each (x ∷ xs) messages staged e h =
    (absent-all x messages staged e.0 h, present_each xs messages staged e.1 h)

present_weaken :
    (y : ChatMessage) (xs messages : List ChatMessage)
    → All (λ (x : ChatMessage). is_present x.message_id messages ≡ true) xs
    → All (λ (x : ChatMessage). is_present x.message_id (y ∷ messages) ≡ true) xs
present_weaken y [] messages h = tt
present_weaken y (x ∷ xs) messages h = (ground arith, present_weaken y xs messages h.1)

present_all :
    (xs : List ChatMessage) → All (λ (x : ChatMessage). is_present x.message_id xs ≡ true) xs
present_all [] = tt
present_all (x ∷ xs) =
    (ground (arith, text_eq_refl x.message_id), present_weaken x xs xs (present_all xs))

with_staged-HasDistinctIds :
    (messages : List ChatMessage) (staged : Map ChatMessage)
    → HasDistinctIds messages
    → IsKeyed staged
    → IsAscending staged
    → HasDistinctIds (messages ++ values (still_staged messages staged))
with_staged-HasDistinctIds messages staged d h a =
    HasDistinctIds-append messages (values (still_staged messages staged)) d
      (still_staged-HasDistinctIds messages staged h a)
      (present_each messages messages staged (present_all messages) h)

get-nil : (k : Text) → get {V = ChatMessage} k [] ≡ none
unfolding get
get-nil k = refl

or_else-none : (o : Option ChatMessage) → or_else o none ≡ o
or_else-none none = refl
or_else-none (some m) = refl

pub merge_staged_inbound-find :
    (s : ChatService) (c : Text) (messages : List ChatMessage) (k : Text)
    → HasDistinctIds messages
    → IsKeyed (messages_or_default (get c s.staged_inbound))
    → IsAscending (messages_or_default (get c s.staged_inbound))
    → HasDistinctIds (merge_staged_inbound s c messages).1
      × (find k (merge_staged_inbound s c messages).1
          ≡ or_else (find k messages) (get k (messages_or_default (get c s.staged_inbound))))
unfolding merge_staged_inbound
merge_staged_inbound-find s c messages k d h a = elim (Option-cases (get c s.staged_inbound)) [
  | inl e ↦ rw (e, merge_staged_inbound) (rw (get-nil k) (d, sym (or_else-none (find k messages))))
  | inr (staged, e) ↦
      let all = messages ++ values (still_staged messages staged) in
      let distinct : HasDistinctIds all =
        with_staged-HasDistinctIds messages staged d (rw e at h) (rw e at a) in
      let back = Permᴰ.symm (sorted-perm all) in
      rw (e, merge_staged_inbound)
        (
          HasDistinctIds-perm back distinct,
          sym (find-perm k back distinct)
              ∙ find-append k messages (values (still_staged messages staged))
              ∙ find-still_staged k messages staged (rw e at h),
        )
]
