-- ===== src/Notifications/Groups.antt =====
-- Lists of groups under the changes that the store makes: how often a number occurs, what holds of
-- every group, and how many messages there are.
use wire_app.Common.{
  ℕ, suc, ◌+◌, ◌≤◌, ◌≡◌, ◌⊎◌, inl, inr, refl, ap, arith, Bool, Bool-cases, true, ltb, ◌==◌,
  if◌then◌else◌, List, [], ◌∷◌, ◌++◌, map, Option, none, some, length, keep_if, All,
}
use wire_app.Notifications.{Group, update_first, behind, fill, shown, max_visible}

-- How many groups have this number.
abbrev pub occurrences : ℕ → List Group → ℕ
occurrences n [] = 0
occurrences n (g ∷ gs) = let rest = occurrences n gs in if g.id == n then suc rest else rest

pub occurrences-append :
    (n : ℕ) (xs ys : List Group) → occurrences n (xs ++ ys) ≡ occurrences n xs + occurrences n ys
occurrences-append n [] ys = omega arith
occurrences-append n (x ∷ xs) ys = ground (arith, occurrences-append n xs ys)

pub occurrences-keep_if :
    (n : ℕ) (p : Group → Bool) (gs : List Group) → occurrences n (keep_if p gs) ≤ occurrences n gs
occurrences-keep_if n p [] = omega arith
occurrences-keep_if n p (g ∷ gs) = ground (arith, occurrences-keep_if n p gs)

pub length-keep_if : (p : Group → Bool) (gs : List Group) → length (keep_if p gs) ≤ length gs
length-keep_if p [] = omega arith
length-keep_if p (g ∷ gs) = ground (arith, length-keep_if p gs)

pub All-keep_if :
    (P : Group → Type 0) (p : Group → Bool) (gs : List Group) → All P gs → All P (keep_if p gs)
All-keep_if P p [] h = tt
All-keep_if P p (g ∷ gs) h = ground (arith, All-keep_if P p gs h.1)

pub length-map : (f : Group → Group) (gs : List Group) → length (map f gs) ≡ length gs
length-map f [] = refl
length-map f (g ∷ gs) = ap suc (length-map f gs)

pub All-map :
    (P Q : Group → Type 0) (f : Group → Group)
    → ((g : Group) → P g → Q (f g))
    → (gs : List Group) → All P gs
    → All Q (map f gs)
All-map P Q f h [] a = tt
All-map P Q f h (g ∷ gs) a = (h g a.0, All-map P Q f h gs a.1)

-- One group of the list is changed.
pub data OneChanged (p : Group → Bool) (f : Group → Group) : List Group → List Group → Type 0 where
  here : (g : Group) (gs : List Group) → p g ≡ true → OneChanged p f (g ∷ gs) (f g ∷ gs)
  there : (g : Group) {gs hs : List Group} → OneChanged p f gs hs → OneChanged p f (g ∷ gs) (g ∷ hs)

pub data Search (p : Group → Bool) (f : Group → Group) (gs : List Group)
    : Option (List Group) → Type 0 where
  missing : Search p f gs none
  found : {hs : List Group} → OneChanged p f gs hs → Search p f gs (some hs)

after-Search :
    (p : Group → Bool) (f : Group → Group) (g : Group) (gs : List Group) (r : Option (List Group))
    → Search p f gs r
    → Search p f (g ∷ gs) (behind g r)
after-Search p f g gs none missing = missing
after-Search p f g gs (some hs) (found c) = found (there g c)

pub update_first-Search :
    (p : Group → Bool) (f : Group → Group) (gs : List Group) → Search p f gs (update_first p f gs)
update_first-Search p f [] = missing
update_first-Search p f (g ∷ gs) = elim (Bool-cases (p g)) [
  | inl e ↦ rw e (found (here g gs e))
  | inr e ↦ rw e (after-Search p f g gs (update_first p f gs) (update_first-Search p f gs))
]

module _ {p : Group → Bool} {f : Group → Group} where
  pub OneChanged-length : {gs hs : List Group} → OneChanged p f gs hs → length hs ≡ length gs
  OneChanged-length (here g gs e) = refl
  OneChanged-length (there g c) = ap suc (OneChanged-length c)

  pub OneChanged-occurrences :
      ((g : Group) → (f g).id ≡ g.id)
      → (n : ℕ) {gs hs : List Group} → OneChanged p f gs hs
      → occurrences n hs ≡ occurrences n gs
  OneChanged-occurrences same n (here g gs e) = rw (same g) refl
  OneChanged-occurrences same n (there g c) = rw (OneChanged-occurrences same n c) refl

  pub OneChanged-All :
      (P : Group → Type 0)
      → ((g : Group) → p g ≡ true → P g → P (f g))
      → {gs hs : List Group} → OneChanged p f gs hs
      → All P gs
      → All P hs
  OneChanged-All P h (here g gs e) a = (h g e a.0, a.1)
  OneChanged-All P h (there g c) a = (a.0, OneChanged-All P h c a.1)

-- A change that leaves the number of a group alone.
pub occurrences-map :
    (f : Group → Group)
    → ((g : Group) → (f g).id ≡ g.id)
    → (n : ℕ) (gs : List Group) → occurrences n (map f gs) ≡ occurrences n gs
occurrences-map f same n [] = refl
occurrences-map f same n (g ∷ gs) = rw (same g, occurrences-map f same n gs) refl

-- The loop of `advance`.
pub fill-occurrences :
    (n now : ℕ) (ps vs : List Group)
    → let r = fill now ps vs in
      occurrences n r.0 + occurrences n r.1 ≡ occurrences n vs + occurrences n ps
fill-occurrences n now [] vs = refl
fill-occurrences n now (g ∷ ps) vs = ground (arith, fill-occurrences n now ps (shown now g ∷ vs))

pub fill-length :
    (now : ℕ) (ps vs : List Group)
    → length vs ≤ max_visible
    → length (fill now ps vs).0 ≤ max_visible
fill-length now [] vs h = h
fill-length now (g ∷ ps) vs h = ground (arith, fill-length now ps (shown now g ∷ vs))

pub fill-All :
    (P Q : Group → Type 0) (now : ℕ)
    → ((g : Group) → Q g → P (shown now g))
    → (ps vs : List Group) → All Q ps
    → All P vs
    → All P (fill now ps vs).0 × All Q (fill now ps vs).1
fill-All P Q now h [] vs q a = (a, tt)
fill-All P Q now h (g ∷ ps) vs q a =
    let rest = fill-All P Q now h ps (shown now g ∷ vs) q.1 (h g q.0, a) in
    elim (Bool-cases (ltb (length vs) max_visible)) [ inl e ↦ rw e rest | inr e ↦ rw e (a, q) ]

-- The loop ends with a full screen or with none waiting.
pub fill-settles :
    (now : ℕ) (ps vs : List Group)
    → let r = fill now ps vs in (max_visible ≤ length r.0) ⊎ (r.1 ≡ [])
fill-settles now [] vs = inr refl
fill-settles now (g ∷ ps) vs = ground (arith, fill-settles now ps (shown now g ∷ vs))
