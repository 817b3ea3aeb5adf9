-- ===== src/Notifications/Valid.antt =====
-- What holds of the store through its operations.
use wire_app.Common.{
  ℕ, ◌+◌, ◌-◌, ◌≤◌, ◌≡◌, ◌⊎◌, inl, inr, refl, arith, Bool, Bool-cases, true, not, ltb,
  if◌then◌else◌, List, [], ◌∷◌, Option, none, some, length, All, All-append, Text,
}
use wire_app.Notifications.{
  Kind, message, transfer, kind_eq, can_fuse, Group, Store, Spec, entry_of, key_eq, fuse_visible,
  fuses_with, fused, new_group, add_group, with_visible, push, is_transfer_of, updated_transfer,
  with_pending, upsert_transfer, leave, dismiss_key, max_visible, max_fused_rows, pop_back,
}
use wire_app.Notifications.Groups.{
  occurrences, occurrences-append, occurrences-keep_if, All-keep_if, length-map, All-map, Search,
  missing, found, update_first-Search, OneChanged-length, OneChanged-occurrences, OneChanged-All,
  occurrences-map,
}

-- One to four messages are shown; more are hidden only behind four rows of a fused group.
abbrev pub GroupIsValid : Group → Type 0
GroupIsValid g =
    (1 ≤ length g.entries)
    × (length g.entries ≤ max_fused_rows)
    × ((g.hidden_entries ≡ 0) ⊎ ((length g.entries ≡ max_fused_rows) × (g.kind ≡ message)))

abbrev pub Waits : Group → Type 0
Waits g = GroupIsValid g × (g.leaving_at ≡ none)

-- At most four groups are on the screen; a number stands on one group at most, on the screen or
-- waiting, and none from `next_id` on; a group that waits is not leaving.
pub record IsValid (s : Store) : Type 0 where
  pub room : length s.visible ≤ max_visible
  pub numbers :
      (n : ℕ)
      → occurrences n s.visible + occurrences n s.pending ≤ (if ltb n s.next_id then 1 else 0)
  pub visible_valid : All GroupIsValid s.visible
  pub pending_valid : All Waits s.pending

pub length-pop_back : {A : Type 0} (xs : List A) → length (pop_back xs) ≡ length xs - 1
length-pop_back [] = refl
length-pop_back (x ∷ []) = refl
length-pop_back (x ∷ y ∷ ys) = omega (arith, length-pop_back (y ∷ ys))

fusable : (a b : Kind) → kind_eq a b ≡ true → can_fuse b ≡ true → a ≡ message
fusable a b e c = ground arith

transfer_only : (a : Kind) → kind_eq a transfer ≡ true → a ≡ transfer
transfer_only a e = ground arith

fused-id : (spec : Spec) (now : ℕ) (g : Group) → (fused spec now g).id ≡ g.id
unfolding fused
fused-id spec now g = refl

fused-GroupIsValid :
    (spec : Spec) (now : ℕ) (key : Text) (g : Group)
    → fuses_with key spec.kind now g ≡ true
    → can_fuse spec.kind ≡ true
    → GroupIsValid g
    → GroupIsValid (fused spec now g)
unfolding fused
fused-GroupIsValid spec now key g p c h =
    ground (arith, length-pop_back (entry_of spec ∷ g.entries), fusable g.kind spec.kind)

add_group-IsValid : (spec : Spec) (now : ℕ) (s : Store) → IsValid s → IsValid (add_group spec now s)
unfolding add_group new_group
add_group-IsValid spec now s v = elim (Bool-cases (ltb (length s.visible) max_visible)) [
  | inl e ↦ rw e (record {
    room = ground arith;
    numbers = λ n. ground (arith, v.numbers n);
    visible_valid = ((omega arith, omega arith, inl refl), v.visible_valid);
    pending_valid = v.pending_valid;
  })
  | inr e ↦ rw e (record {
    room = v.room;
    numbers = λ n.
        ground
          (arith, v.numbers n, occurrences-append n s.pending (new_group s.next_id spec now ∷ []));
    visible_valid = v.visible_valid;
    pending_valid =
        All-append Waits s.pending _
          (v.pending_valid, (((omega arith, omega arith, inl refl), refl), tt));
  })
]

-- A change of one visible group, or something else.
pub with_visible-IsValid :
    (p : Group → Bool) (f : Group → Group) (s other : Store) (r : Option (List Group))
    → ((g : Group) → (f g).id ≡ g.id)
    → ((g : Group) → p g ≡ true → GroupIsValid g → GroupIsValid (f g))
    → Search p f s.visible r
    → IsValid s
    → IsValid other
    → IsValid (with_visible r s other)
unfolding with_visible
with_visible-IsValid p f s other none same ok missing v w = w
with_visible-IsValid p f s other (some gs) same ok (found c) v w = record {
  room = omega (arith, v.room, OneChanged-length c);
  numbers = λ n. omega (arith, v.numbers n, OneChanged-occurrences same n c);
  visible_valid = OneChanged-All GroupIsValid ok c v.visible_valid;
  pending_valid = v.pending_valid;
}

with_pending-IsValid :
    (p : Group → Bool) (f : Group → Group) (s other : Store) (r : Option (List Group))
    → ((g : Group) → (f g).id ≡ g.id)
    → ((g : Group) → p g ≡ true → Waits g → Waits (f g))
    → Search p f s.pending r
    → IsValid s
    → IsValid other
    → IsValid (with_pending r s other)
unfolding with_pending
with_pending-IsValid p f s other none same ok missing v w = w
with_pending-IsValid p f s other (some gs) same ok (found c) v w = record {
  room = v.room;
  numbers = λ n. omega (arith, v.numbers n, OneChanged-occurrences same n c);
  visible_valid = v.visible_valid;
  pending_valid = OneChanged-All Waits ok c v.pending_valid;
}

fuse-IsValid :
    (spec : Spec) (now : ℕ) (key : Option Text) (s : Store)
    → can_fuse spec.kind ≡ true
    → IsValid s
    → IsValid (with_visible (fuse_visible spec now key s.visible) s (add_group spec now s))
unfolding with_visible
fuse-IsValid spec now none s c v = add_group-IsValid spec now s v
fuse-IsValid spec now (some key) s c v =
    with_visible-IsValid (fuses_with key spec.kind now) (fused spec now) s (add_group spec now s) _
      (fused-id spec now) (λ g e h. fused-GroupIsValid spec now key g e c h)
      (update_first-Search (fuses_with key spec.kind now) (fused spec now) s.visible) v
      (add_group-IsValid spec now s v)

pub push-IsValid : (spec : Spec) (now : ℕ) (s : Store) → IsValid s → IsValid (push spec now s)
unfolding push
push-IsValid spec now s v = elim (Bool-cases (can_fuse spec.kind)) [
  | inl e ↦ rw e (fuse-IsValid spec now spec.group_key s e v)
  | inr e ↦ rw e (add_group-IsValid spec now s v)
]

updated-GroupIsValid :
    (spec : Spec) (key : Option Text) (g : Group)
    → is_transfer_of key g ≡ true
    → GroupIsValid g
    → GroupIsValid (updated_transfer spec g)
unfolding updated_transfer
updated-GroupIsValid spec key g e h = ground (arith, transfer_only g.kind)

pub upsert_transfer-IsValid :
    (spec : Spec) (now : ℕ) (s : Store) → IsValid s → IsValid (upsert_transfer spec now s)
unfolding upsert_transfer updated_transfer
upsert_transfer-IsValid spec now s v =
    let p = is_transfer_of spec.group_key in
    let f = updated_transfer spec in
    with_visible-IsValid p f s _ _ (λ g. refl) (updated-GroupIsValid spec spec.group_key)
      (update_first-Search p f s.visible) v
      (with_pending-IsValid p f s _ _ (λ g. refl)
        (λ g e h. (updated-GroupIsValid spec spec.group_key g e h.0, refl))
        (update_first-Search p f s.pending) v (push-IsValid spec now s v))

pub leave-GroupIsValid : (now : ℕ) (g : Group) → GroupIsValid g → GroupIsValid (leave now g)
leave-GroupIsValid now g h = ground arith

pub dismiss_key-IsValid :
    (key : Text) (now : ℕ) (s : Store) → IsValid s → IsValid (dismiss_key key now s)
unfolding dismiss_key
dismiss_key-IsValid key now s v =
    let f : Group → Group = λ g. if key_eq g.key (some key) then leave now g else g in
    let p : Group → Bool = λ g. not (key_eq g.key (some key)) in
    record {
      room = omega (arith, v.room, length-map f s.visible);
      numbers = λ n. omega (
        arith,
        v.numbers n,
        occurrences-map f (λ g. ground arith) n s.visible,
        occurrences-keep_if n p s.pending,
      );
      visible_valid =
          All-map GroupIsValid GroupIsValid f (λ g h. ground arith) s.visible v.visible_valid;
      pending_valid = All-keep_if Waits p s.pending v.pending_valid;
    }
