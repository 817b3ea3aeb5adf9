-- ===== src/Notifications/Leaving.antt =====
-- A notification that is due goes away.
use wire_app.Common.{
  ℕ, ◌+◌, ◌≤◌, ◌≡◌, ◌⊎◌, inl, inr, refl, sym, ap, subst, arith, Bool, true, false, not, ◌&&◌, ◌||◌,
  leb, ◌==◌, List, [], ◌∷◌, ◌++◌, map, Option, none, some, keep_if, All, All-append,
}
use wire_app.Notifications.{Group, Store, expire, has_left, is_due, is_none, advance, leave_time}
use wire_app.Notifications.Groups.{occurrences, occurrences-append, All-keep_if, All-map, fill-All}
use wire_app.Notifications.Valid.{IsValid}

abbrev leaving_by : ℕ → Option ℕ → Bool
leaving_by now none = false
leaving_by now (some t) = leb t now

-- It has begun to leave, or it is due.
abbrev pub is_going : ℕ → Group → Bool
is_going now g = leaving_by now g.leaving_at || (is_none g.leaving_at && is_due now g.expires_at)

abbrev Other : ℕ → Group → Type 0
Other n g = (g.id == n) ≡ false

All-Other : (n : ℕ) (gs : List Group) → occurrences n gs ≡ 0 → All (Other n) gs
All-Other n [] h = tt
All-Other n (g ∷ gs) h = ground (arith, All-Other n gs)

no_others : (n : ℕ) (gs : List Group) → All (Other n) gs → occurrences n gs ≡ 0
no_others n [] h = refl
no_others n (g ∷ gs) h = ground (arith, no_others n gs)

abbrev Leaves : ℕ → ℕ → Group → Type 0
Leaves n now g = Other n g ⊎ (leaving_by now g.leaving_at ≡ true)

abbrev Goes : ℕ → ℕ → Group → Type 0
Goes n now g = Other n g ⊎ (is_going now g ≡ true)

expire-Leaves : (n now : ℕ) (g : Group) → Goes n now g → Leaves n now (expire now g)
expire-Leaves n now g h = ground arith

left-Other :
    (n now later : ℕ) (g : Group)
    → now + leave_time ≤ later
    → Leaves n now (expire later g)
    → (Other n (expire later g)) ⊎ (has_left later (expire later g).leaving_at ≡ true)
left-Other n now later g h l = ground arith

still-Leaves :
    (n now later : ℕ) (g : Group) → now ≤ later → Leaves n now g → Leaves n now (expire later g)
still-Leaves n now later g h l = ground arith

kept-Other :
    (n now later : ℕ) (gs : List Group)
    → now + leave_time ≤ later
    → All (Leaves n now) gs
    → All (Other n) (keep_if (λ g. not (has_left later g.leaving_at)) (map (expire later) gs))
kept-Other n now later [] h l = tt
kept-Other n now later (g ∷ gs) h l = ground (
  arith,
  kept-Other n now later gs h l.1,
  left-Other n now later g h (still-Leaves n now later g (omega arith) l.0),
)

advance-Leaves :
    (n now : ℕ) (s : Store)
    → All (Goes n now) s.visible
    → All (Other n) s.pending
    → All (Leaves n now) (advance now s).visible × All (Other n) (advance now s).pending
unfolding advance
advance-Leaves n now s g o =
    fill-All (Leaves n now) (Other n) now (λ g h. inl h) s.pending _ o
      (All-keep_if (Leaves n now) (λ g. not (has_left now g.leaving_at))
        (map (expire now) s.visible)
        (All-map (Goes n now) (Leaves n now) (expire now) (expire-Leaves n now) s.visible g))

advance-Other :
    (n now later : ℕ) (s : Store)
    → now + leave_time ≤ later
    → All (Leaves n now) s.visible
    → All (Other n) s.pending
    → All (Other n) (advance later s).visible × All (Other n) (advance later s).pending
unfolding advance
advance-Other n now later s h l o =
    fill-All (Other n) (Other n) later (λ g h. h) s.pending _ o
      (kept-Other n now later s.visible h l)

All-weaken :
    (P Q : Group → Type 0) → ((g : Group) → P g → Q g) → (gs : List Group) → All P gs → All Q gs
All-weaken P Q h [] a = tt
All-weaken P Q h (g ∷ gs) a = (h g a.0, All-weaken P Q h gs a.1)

-- The groups of a list around this one have other numbers, where a number stands once at most.
going-Goes :
    (now : ℕ) (xs ys : List Group) (g : Group)
    → occurrences g.id (xs ++ g ∷ ys) ≤ 1
    → is_going now g ≡ true
    → All (Goes g.id now) (xs ++ g ∷ ys)
going-Goes now xs ys g once going =
    let o = occurrences-append g.id xs (g ∷ ys) in
    All-append (Goes g.id now) xs (g ∷ ys) (
      All-weaken (Other g.id) (Goes g.id now) (λ h o. inl o) xs
          (All-Other g.id xs (ground (arith, o))),
      (
        inr going,
        All-weaken (Other g.id) (Goes g.id now) (λ h o. inl o) ys
            (All-Other g.id ys (ground (arith, o))),
      ),
    )

-- A group on the screen of a valid store that is due, or has begun to leave, is gone after a frame at
-- that time and a frame at least 320 ms later, with nothing between them: its number is on no group.
pub advance-leaves :
    (s : Store) (xs ys : List Group) (g : Group) (now later : ℕ)
    → IsValid s
    → s.visible ≡ xs ++ g ∷ ys
    → is_going now g ≡ true
    → now + leave_time ≤ later
    → occurrences g.id (advance later (advance now s)).visible
        + occurrences g.id (advance later (advance now s)).pending
      ≡ 0
advance-leaves s xs ys g now later v e going h =
    let n = g.id in
    let once : occurrences n (xs ++ g ∷ ys) + occurrences n s.pending ≤ 1 =
      ground (arith, v.numbers n, ap (occurrences n) e) in
    let one : 1 ≤ occurrences n (xs ++ g ∷ ys) = ground (arith, occurrences-append n xs (g ∷ ys)) in
    let goes = subst (All (Goes n now)) (sym e) (going-Goes now xs ys g (omega arith) going) in
    let a = advance-Leaves n now s goes (All-Other n s.pending (omega arith)) in
    let b = advance-Other n now later (advance now s) h a.0 a.1 in
    omega (
      arith,
      no_others n (advance later (advance now s)).visible b.0,
      no_others n (advance later (advance now s)).pending b.1,
    )
