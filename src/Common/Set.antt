-- ===== src/Common/Set.antt =====
-- `BTreeSet<String>`: the members in ascending order.
use wire_app.Common.{
  ◌≡◌, refl, Bool, true, false, ◌&&◌, List, [], ◌∷◌, arith, Text, text_eq, text_lt, text_eq_iff,
  if◌then◌else◌,
}

abbrev pub Set : Type 0
Set = List Text

unfoldable pub contains : Text → Set → Bool
contains k [] = false
contains k (j ∷ s) = if text_eq j k then true else contains k s

unfoldable pub insert : Text → Set → Set
insert k [] = k ∷ []
insert k (j ∷ s) =
    let rest = insert k s in
    if text_eq j k then j ∷ s else if text_lt k j then k ∷ j ∷ s else j ∷ rest

unfoldable pub remove : Text → Set → Set
remove k [] = []
remove k (j ∷ s) = let rest = remove k s in if text_eq j k then rest else j ∷ rest

unfoldable pub retain : (Text → Bool) → Set → Set
retain p [] = []
retain p (j ∷ s) = let rest = retain p s in if p j then j ∷ rest else rest

pub contains-insert :
    (j k : Text) (s : Set) → contains j (insert k s) ≡ (if text_eq k j then true else contains j s)
unfolding contains insert
contains-insert j k [] = refl
contains-insert j k (i ∷ s) =
    ground (arith, text_eq_iff k j, text_eq_iff i k, text_eq_iff i j, contains-insert j k s)

pub contains-remove :
    (j k : Text) (s : Set) → contains j (remove k s) ≡ (if text_eq k j then false else contains j s)
unfolding contains remove
contains-remove j k [] = ground arith
contains-remove j k (i ∷ s) =
    ground (arith, text_eq_iff k j, text_eq_iff i k, text_eq_iff i j, contains-remove j k s)

pub contains-retain :
    (j : Text) (p : Text → Bool) (s : Set) → contains j (retain p s) ≡ (contains j s && p j)
unfolding contains retain
contains-retain j p [] = refl
contains-retain j p (i ∷ s) = ground (arith, text_eq_iff i j, contains-retain j p s)
