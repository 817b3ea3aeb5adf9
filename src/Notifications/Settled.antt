-- ===== src/Notifications/Settled.antt =====
-- The messages of a store, which no push loses, and what a frame leaves on the screen.
use wire_app.Common.{
  ℕ, ◌+◌, ◌≤◌, ◌≡◌, ◌⊎◌, inl, inr, arith, Bool, Bool-cases, false, not, List, [], ◌∷◌, ◌++◌, map,
  Option, none, some, length, keep_if, All, Text,
}
use wire_app.Notifications.{
  Group, Store, Spec, entry_of, fuse_visible, fuses_with, fused, new_group, add_group, with_visible,
  push, can_fuse, expire, has_left, is_due, is_none, default_lifetime, shown, advance, max_visible,
}
use wire_app.Notifications.Groups.{
  OneChanged, here, there, Search, missing, found, update_first-Search, fill-All, fill-settles,
}
use wire_app.Notifications.Valid.{Waits, IsValid, length-pop_back}

abbrev messages : List Group → ℕ
messages [] = 0
messages (g ∷ gs) = length g.entries + g.hidden_entries + messages gs

-- The messages that are shown, hidden behind a group, or waiting.
abbrev pub total : Store → ℕ
total s = messages s.visible + messages s.pending

messages-append : (xs ys : List Group) → messages (xs ++ ys) ≡ messages xs + messages ys
messages-append [] ys = omega arith
messages-append (x ∷ xs) ys = omega (arith, messages-append xs ys)

OneChanged-messages :
    {p : Group → Bool} {f : Group → Group}
    → ((g : Group)
        → length (f g).entries + (f g).hidden_entries ≡ length g.entries + g.hidden_entries + 1)
    → {gs hs : List Group} → OneChanged p f gs hs
    → messages hs ≡ messages gs + 1
OneChanged-messages more (here g gs e) = omega (arith, more g)
OneChanged-messages more (there g c) = omega (arith, OneChanged-messages more c)

fused-messages :
    (spec : Spec) (now : ℕ) (g : Group)
    → length (fused spec now g).entries + (fused spec now g).hidden_entries
      ≡ length g.entries + g.hidden_entries + 1
unfolding fused
fused-messages spec now g = ground (arith, length-pop_back (entry_of spec ∷ g.entries))

add_group-total : (spec : Spec) (now : ℕ) (s : Store) → total (add_group spec now s) ≡ total s + 1
unfolding add_group new_group
add_group-total spec now s =
    ground (arith, messages-append s.pending (new_group s.next_id spec now ∷ []))

with_visible-total :
    (p : Group → Bool) (f : Group → Group) (s other : Store) (r : Option (List Group))
    → ((g : Group)
        → length (f g).entries + (f g).hidden_entries ≡ length g.entries + g.hidden_entries + 1)
    → total other ≡ total s + 1
    → Search p f s.visible r
    → total (with_visible r s other) ≡ total s + 1
unfolding with_visible
with_visible-total p f s other none more o missing = o
with_visible-total p f s other (some gs) more o (found c) =
    omega (arith, OneChanged-messages more c)

fuse-total :
    (spec : Spec) (now : ℕ) (key : Option Text) (s : Store)
    → total (with_visible (fuse_visible spec now key s.visible) s (add_group spec now s))
      ≡ total s + 1
unfolding with_visible
fuse-total spec now none s = add_group-total spec now s
fuse-total spec now (some key) s =
    with_visible-total (fuses_with key spec.kind now) (fused spec now) s (add_group spec now s) _
      (fused-messages spec now) (add_group-total spec now s)
      (update_first-Search (fuses_with key spec.kind now) (fused spec now) s.visible)

-- A push adds one message to those that are shown, hidden or waiting, whether it is fused with a
-- group, opens one on the screen or waits: none is lost, not even the row that fusing takes away.
pub push-total : (spec : Spec) (now : ℕ) (s : Store) → total (push spec now s) ≡ total s + 1
unfolding push
push-total spec now s = elim (Bool-cases (can_fuse spec.kind)) [
  | inl e ↦ rw e (fuse-total spec now spec.group_key s)
  | inr e ↦ rw e (add_group-total spec now s)
]

-- A group that a frame leaves on the screen: it is not at the end of its leaving, and if it is due it
-- is leaving.
abbrev pub Stays : ℕ → Group → Type 0
Stays now g =
    (has_left now g.leaving_at ≡ false)
    × ((is_due now g.expires_at ≡ false) ⊎ (is_none g.leaving_at ≡ false))

pub record Settled (now : ℕ) (s : Store) : Type 0 where
  pub full_or_none_waits : (max_visible ≤ length s.visible) ⊎ (s.pending ≡ [])
  pub all_stay : All (Stays now) s.visible

expire-leaves :
    (now : ℕ) (g : Group)
    → (is_due now (expire now g).expires_at ≡ false) ⊎ (is_none (expire now g).leaving_at ≡ false)
expire-leaves now g = ground arith

kept-Stays :
    (now : ℕ) (gs : List Group)
    → All (Stays now) (keep_if (λ g. not (has_left now g.leaving_at)) (map (expire now) gs))
kept-Stays now [] = tt
kept-Stays now (g ∷ gs) = ground (arith, kept-Stays now gs, expire-leaves now g)

shown-Stays : (now : ℕ) (g : Group) → Waits g → Stays now (shown now g)
unfolding default_lifetime
shown-Stays now g h = ground (arith, h.1)

-- A frame of a valid store: the screen is full or no group waits any more; no group stays that
-- has been leaving for 320 ms; and each that is due is leaving.
pub advance-Settled : (now : ℕ) (s : Store) → IsValid s → Settled now (advance now s)
unfolding advance
advance-Settled now s v =
    let gs = keep_if (λ g. not (has_left now g.leaving_at)) (map (expire now) s.visible) in
    record {
      full_or_none_waits = fill-settles now s.pending gs;
      all_stay =
          (fill-All (Stays now) Waits now (shown-Stays now) s.pending gs v.pending_valid
            (kept-Stays now s.visible)).0;
    }
