-- ===== src/Chat/Message/Order.antt =====
-- The timeline's order is strict and tells any two messages apart, and the timeline does not depend
-- on the order in which messages come in.
use wire_app.Common.{
  ◌≡◌, ◌≢◌, refl, subst, ap, sym, ◌∙◌, true, false, List, [], ◌∷◌, ◌++◌, arith, Text, text_lt,
  text_lt_asym, text_lt_trans, text_lt_total, text_lt_trans_false, All, Bool-cases, inl, inr,
}
use mathlib.Core.List.{Permᴰ}
use mathlib.Core.List.Permᴰ
use mathlib.Core.List.Permᴰ.{nil, cons, swap, trans}
use wire_app.Common.Int.{ℤ, ltb_ℤ}
use wire_app.Chat.Message.{ChatMessage, precedes, insert_sorted, sort}

precedes_asym : (a b : ChatMessage) → precedes a b ≡ true → precedes b a ≡ false
unfolding precedes
precedes_asym a b h = ground (
  arith,
  text_lt_asym a.author_id b.author_id,
  text_lt_asym b.author_id a.author_id,
  text_lt_asym a.message_id b.message_id,
)

precedes_total :
    (a b : ChatMessage) → precedes a b ≡ false → precedes b a ≡ false → a.message_id ≡ b.message_id
unfolding precedes
precedes_total a b h g = ground (
  arith,
  text_lt_asym a.author_id b.author_id,
  text_lt_asym b.author_id a.author_id,
  text_lt_total a.message_id b.message_id,
)

-- The authors of the messages compare transitively, whichever way they compare.
data Authors (a b c : Text) : Type 0 where
  rising : text_lt a c ≡ true → Authors a b c
  first : text_lt b a ≡ true → text_lt a b ≡ false → Authors a b c
  second : text_lt c b ≡ true → text_lt b c ≡ false → Authors a b c
  level :
      text_lt a b ≡ false
      → text_lt b c ≡ false
      → text_lt a c ≡ false
      → text_lt c a ≡ false
      → Authors a b c

Authors-cases : (a b c : Text) → Authors a b c
Authors-cases a b c = elim (Bool-cases (text_lt b a)) [
  | inl ba ↦ first ba (text_lt_asym b a ba)
  | inr ba ↦ elim (Bool-cases (text_lt c b)) [
    | inl cb ↦ second cb (text_lt_asym c b cb)
    | inr cb ↦ elim (Bool-cases (text_lt a c)) [
      | inl ac ↦ rising ac
      | inr ac ↦
          level (text_lt_trans_false a c b ac cb) (text_lt_trans_false b a c ba ac) ac
            (text_lt_trans_false c b a cb ba)
    ]
  ]
]

precedes-time : (a b : ChatMessage) → precedes a b ≡ true → ltb_ℤ b.sent_at a.sent_at ≡ false
unfolding precedes
precedes-time a b h = ground arith

earlier-precedes : (a b : ChatMessage) → ltb_ℤ a.sent_at b.sent_at ≡ true → precedes a b ≡ true
unfolding precedes
earlier-precedes a b h = ground arith

author-precedes :
    (a b : ChatMessage)
    → ltb_ℤ b.sent_at a.sent_at ≡ false
    → text_lt a.author_id b.author_id ≡ true
    → precedes a b ≡ true
unfolding precedes
author-precedes a b h g = ground arith

-- Against the order of the authors only an earlier message precedes.
precedes-earlier :
    (a b : ChatMessage)
    → text_lt b.author_id a.author_id ≡ true
    → text_lt a.author_id b.author_id ≡ false
    → precedes a b ≡ true
    → ltb_ℤ a.sent_at b.sent_at ≡ true
unfolding precedes
precedes-earlier a b f g h = ground arith

level_trans :
    (a b c : ChatMessage)
    → text_lt a.author_id b.author_id ≡ false
    → text_lt b.author_id c.author_id ≡ false
    → text_lt a.author_id c.author_id ≡ false
    → text_lt c.author_id a.author_id ≡ false
    → precedes a b ≡ true
    → precedes b c ≡ true
    → precedes a c ≡ true
unfolding precedes
level_trans a b c ab bc ac ca h g =
    ground (arith, text_lt_trans a.message_id b.message_id c.message_id)

ltb_ℤ_trans : (s t u : ℤ) → ltb_ℤ t s ≡ false → ltb_ℤ u t ≡ false → ltb_ℤ u s ≡ false
ltb_ℤ_trans s t u h g = ground arith

ltb_ℤ_left : (s t u : ℤ) → ltb_ℤ s t ≡ true → ltb_ℤ u t ≡ false → ltb_ℤ s u ≡ true
ltb_ℤ_left s t u h g = ground arith

ltb_ℤ_right : (s t u : ℤ) → ltb_ℤ t s ≡ false → ltb_ℤ t u ≡ true → ltb_ℤ s u ≡ true
ltb_ℤ_right s t u h g = ground arith

-- Preceding is transitive.
pub precedes_trans :
    (a b c : ChatMessage) → precedes a b ≡ true → precedes b c ≡ true → precedes a c ≡ true
precedes_trans a b c h g = elim (Authors-cases a.author_id b.author_id c.author_id) [
  | rising ac ↦
      author-precedes a c
        (ltb_ℤ_trans a.sent_at b.sent_at c.sent_at (precedes-time a b h) (precedes-time b c g)) ac
  | first ba ab ↦ earlier-precedes a c (
      ltb_ℤ_left a.sent_at b.sent_at c.sent_at (precedes-earlier a b ba ab h) (precedes-time b c g))
  | second cb bc ↦ earlier-precedes a c (
      ltb_ℤ_right a.sent_at b.sent_at c.sent_at (precedes-time a b h)
        (precedes-earlier b c cb bc g))
  | level ab bc ac ca ↦ level_trans a b c ab bc ac ca h g
]

insert_sorted_comm :
    (a b : ChatMessage) (xs : List ChatMessage)
    → precedes a b ≡ true
    → insert_sorted a (insert_sorted b xs) ≡ insert_sorted b (insert_sorted a xs)
unfolding insert_sorted
insert_sorted_comm a b [] h = ground (arith, precedes_asym a b)
insert_sorted_comm a b (x ∷ xs) h =
    ground (arith, precedes_asym a b, precedes_trans x a b, insert_sorted_comm a b xs)

-- No two messages of the list have one id.
abbrev pub HasDistinctIds : List ChatMessage → Type 0
HasDistinctIds [] = Unit
HasDistinctIds (x ∷ xs) =
    All (λ (y : ChatMessage). x.message_id ≢ y.message_id) xs × HasDistinctIds xs

pub All-perm :
    (P : ChatMessage → Type 0) {xs ys : List ChatMessage} → Permᴰ xs ys → All P xs → All P ys
All-perm P nil h = h
All-perm P (cons e p) h = (subst P e h.0, All-perm P p h.1)
All-perm P (swap e f) h = (subst P f h.1.0, (subst P e h.0, h.1.1))
All-perm P (trans p q) h = All-perm P q (All-perm P p h)

pub HasDistinctIds-perm :
    {xs ys : List ChatMessage} → Permᴰ xs ys → HasDistinctIds xs → HasDistinctIds ys
HasDistinctIds-perm nil h = h
HasDistinctIds-perm {xs = x ∷ xs} {ys = y ∷ ys} (cons e p) h = (
  subst (λ (z : ChatMessage). All (λ (w : ChatMessage). z.message_id ≢ w.message_id) ys) e
      (All-perm (λ w. x.message_id ≢ w.message_id) p h.0),
  HasDistinctIds-perm p h.1,
)
HasDistinctIds-perm {xs = x ∷ y ∷ xs} {ys = y' ∷ x' ∷ _} (swap e f) h =
    subst (λ z. HasDistinctIds (z ∷ x' ∷ xs)) f
      (subst (λ z. HasDistinctIds (y ∷ z ∷ xs)) e
        ((λ same. h.0.0 (sym same), h.1.0), (h.0.1, h.1.1)))
HasDistinctIds-perm (trans p q) h = HasDistinctIds-perm q (HasDistinctIds-perm p h)

insert_sorted_swap :
    (a b : ChatMessage) (xs : List ChatMessage)
    → a.message_id ≢ b.message_id
    → insert_sorted a (insert_sorted b xs) ≡ insert_sorted b (insert_sorted a xs)
insert_sorted_swap a b xs d = elim (Bool-cases (precedes a b)) [
  | inl ab ↦ insert_sorted_comm a b xs ab
  | inr ab ↦ elim (Bool-cases (precedes b a)) [
    | inl ba ↦ sym (insert_sorted_comm b a xs ba)
    | inr ba ↦ absurd (d (precedes_total a b ab ba))
  ]
]

sort-perm : {xs ys : List ChatMessage} → Permᴰ xs ys → HasDistinctIds xs → sort xs ≡ sort ys
unfolding sort
sort-perm nil h = refl
sort-perm {xs = x ∷ xs} {ys = y ∷ ys} (cons e p) h =
    ap (insert_sorted x) (sort-perm p h.1) ∙ ap (λ z. insert_sorted z (sort ys)) e
sort-perm {xs = x ∷ y ∷ xs} {ys = y' ∷ x' ∷ _} (swap e f) h =
    insert_sorted_swap x y (sort xs) h.0.0
    ∙ ap (λ z. insert_sorted z (insert_sorted x (sort xs))) f
    ∙ ap (λ z. insert_sorted y' (insert_sorted z (sort xs))) e
sort-perm (trans p q) h = sort-perm p h ∙ sort-perm q (HasDistinctIds-perm p h)

insert_sorted-perm : (m : ChatMessage) (xs : List ChatMessage) → Permᴰ (insert_sorted m xs) (m ∷ xs)
unfolding insert_sorted
insert_sorted-perm m [] = Permᴰ.refl (m ∷ [])
insert_sorted-perm m (x ∷ xs) = elim (Bool-cases (precedes x m)) [
  | inl e ↦ rw e (trans (cons refl (insert_sorted-perm m xs)) (swap refl refl))
  | inr e ↦ rw e (Permᴰ.refl (m ∷ x ∷ xs))
]

pub sorted-perm : (xs : List ChatMessage) → Permᴰ (sort xs) xs
unfolding sort
sorted-perm [] = nil
sorted-perm (x ∷ xs) = trans (insert_sorted-perm x (sort xs)) (cons refl (sorted-perm xs))

-- The timeline does not depend on the order in which messages come in, and loses none: two lists of
-- the same messages, no two with one id, are sorted to the same list, which has these messages.
pub sort-order :
    {xs ys : List ChatMessage}
    → Permᴰ xs ys
    → HasDistinctIds xs
    → (sort xs ≡ sort ys) × Permᴰ (sort xs) ys
sort-order {xs} p h = (sort-perm p h, trans (sorted-perm xs) p)

-- A list in the order of the timeline: no message precedes one that stands before it.
abbrev pub IsInOrder : List ChatMessage → Type 0
IsInOrder [] = Unit
IsInOrder (x ∷ xs) = All (λ (y : ChatMessage). precedes y x ≡ false) xs × IsInOrder xs

not_precedes_trans :
    (x y z : ChatMessage) → precedes x y ≡ true → precedes z y ≡ false → precedes z x ≡ false
not_precedes_trans x y z h g = elim (Bool-cases (precedes z x)) [
  | inr e ↦ e
  | inl e ↦ absurd (let f : precedes z y ≡ true = precedes_trans z x y e h in cc)
]

All-not_precedes :
    (x y : ChatMessage) (xs : List ChatMessage)
    → precedes x y ≡ true
    → All (λ (z : ChatMessage). precedes z y ≡ false) xs
    → All (λ (z : ChatMessage). precedes z x ≡ false) xs
All-not_precedes x y [] h a = tt
All-not_precedes x y (z ∷ xs) h a = (not_precedes_trans x y z h a.0, All-not_precedes x y xs h a.1)

All-insert_sorted :
    (P : ChatMessage → Type 0) (m : ChatMessage) (xs : List ChatMessage)
    → P m
    → All P xs
    → All P (insert_sorted m xs)
unfolding insert_sorted
All-insert_sorted P m [] p h = (p, tt)
All-insert_sorted P m (x ∷ xs) p h = elim (Bool-cases (precedes x m)) [
  | inl e ↦ rw e (h.0, All-insert_sorted P m xs p h.1)
  | inr e ↦ rw e (p, h)
]

All-right : (P : ChatMessage → Type 0) (xs ys : List ChatMessage) → All P (xs ++ ys) → All P ys
All-right P [] ys h = h
All-right P (x ∷ xs) ys h = All-right P xs ys h.1

insert_sorted-IsInOrder :
    (m : ChatMessage) (xs : List ChatMessage)
    → All (λ (y : ChatMessage). m.message_id ≢ y.message_id) xs
    → IsInOrder xs
    → IsInOrder (insert_sorted m xs)
unfolding insert_sorted
insert_sorted-IsInOrder m [] d h = (tt, tt)
insert_sorted-IsInOrder m (x ∷ xs) d h = elim (Bool-cases (precedes x m)) [
  | inl e ↦ rw e (
    All-insert_sorted (λ (y : ChatMessage). precedes y x ≡ false) m xs (precedes_asym x m e) h.0,
    insert_sorted-IsInOrder m xs d.1 h.1,
  )
  | inr e ↦ elim (Bool-cases (precedes m x)) [
    | inl f ↦ rw e ((e, All-not_precedes m x xs f h.0), h)
    | inr f ↦ absurd (d.0 (precedes_total m x f e))
  ]
]

-- Sorted messages, no two with one id, stand in order.
pub sort-IsInOrder : (xs : List ChatMessage) → HasDistinctIds xs → IsInOrder (sort xs)
unfolding sort
sort-IsInOrder [] d = tt
sort-IsInOrder (x ∷ xs) d =
    insert_sorted-IsInOrder x (sort xs)
      (All-perm (λ (y : ChatMessage). x.message_id ≢ y.message_id) (Permᴰ.symm (sorted-perm xs))
        d.0)
      (sort-IsInOrder xs d.1)

pub IsInOrder-append :
    (xs ys : List ChatMessage)
    → IsInOrder (xs ++ ys)
    → All (λ (x : ChatMessage). All (λ (y : ChatMessage). precedes y x ≡ false) ys) xs
IsInOrder-append [] ys h = tt
IsInOrder-append (x ∷ xs) ys h =
    (All-right (λ (y : ChatMessage). precedes y x ≡ false) xs ys h.0, IsInOrder-append xs ys h.1)
