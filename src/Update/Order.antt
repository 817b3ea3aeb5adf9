-- ===== src/Update/Order.antt =====
-- Versions are ordered, and the tests on version texts agree with each other.
use wire_app.Common.{◌≡◌, refl, ◌↔◌, Bool, true, false, Option, none, some, arith, Text}
use wire_app.Update.{
  Version, newer, parse_version, is_version_newer, Ordering, less, equal, greater, ordering,
  compare_versions,
}

pub newer_asym : (a b : Version) → newer a b ≡ true → newer b a ≡ false
unfolding newer
newer_asym a b h = ground arith

pub newer_trans : (a b c : Version) → newer a b ≡ true → newer b c ≡ true → newer a c ≡ true
unfolding newer
newer_trans a b c h g = ground arith

pub newer_irrefl : (a : Version) → newer a a ≡ false
unfolding newer
newer_irrefl a = ground arith

-- Not being newer is transitive too.
pub newer_trans_false :
    (a b c : Version) → newer a b ≡ false → newer b c ≡ false → newer a c ≡ false
unfolding newer
newer_trans_false a b c h g = ground arith

-- Of two versions that are not newer than each other, each has the numbers of the other.
pub newer_total :
    (a b : Version)
    → newer a b ≡ false
    → newer b a ≡ false
    → (a.major ≡ b.major) × ((a.minor ≡ b.minor) × (a.patch ≡ b.patch))
unfolding newer
newer_total a b h g = (ground arith, (ground arith, ground arith))

abbrev newer_option : Option Version → Option Version → Bool
newer_option (some v) (some w) = newer v w
newer_option v w = false

is_version_newer-parse :
    (a b : Text) → is_version_newer a b ≡ newer_option (parse_version a) (parse_version b)
unfolding is_version_newer
is_version_newer-parse a b = ground arith

option_trans :
    (a b c : Option Version)
    → newer_option a b ≡ true
    → newer_option b c ≡ true
    → newer_option a c ≡ true
option_trans (some a) (some b) (some c) h g = newer_trans a b c h g
option_trans none b c h g = ground arith
option_trans (some a) none c h g = ground arith
option_trans (some a) (some b) none h g = ground arith

option_asym : (a b : Option Version) → newer_option a b ≡ true → newer_option b a ≡ false
option_asym none b h = absurd (let f : false ≡ true = h in cc)
option_asym (some a) none h = refl
option_asym (some a) (some b) h = newer_asym a b h

-- Updates from one version text to a newer one never come back: what is newer than a newer one is
-- newer, and never the other way round.
pub is_version_newer_trans :
    (a b c : Text)
    → is_version_newer a b ≡ true
    → is_version_newer b c ≡ true
    → (is_version_newer a c ≡ true) × (is_version_newer c a ≡ false)
is_version_newer_trans a b c h g =
    let ac =
      option_trans (parse_version a) (parse_version b) (parse_version c)
        (rw (is_version_newer-parse a b) at h) (rw (is_version_newer-parse b c) at g) in
    (
      rw (is_version_newer-parse a c) ac,
      rw (is_version_newer-parse c a) (option_asym (parse_version a) (parse_version c) ac),
    )

abbrev ordering_option : Option Version → Option Version → Ordering
ordering_option (some v) (some w) = ordering v w
ordering_option v w = equal

compare_versions-parse :
    (a b : Text) → compare_versions a b ≡ ordering_option (parse_version a) (parse_version b)
unfolding compare_versions
compare_versions-parse a b = ground arith

ordering_iff :
    (a b : Option Version)
    → ((ordering_option a b ≡ greater) ↔ (newer_option a b ≡ true))
      × ((ordering_option a b ≡ less) ↔ (newer_option b a ≡ true))
ordering_iff none none = ((λ h. cc, λ h. cc), (λ h. cc, λ h. cc))
ordering_iff none (some b) = ((λ h. cc, λ h. cc), (λ h. cc, λ h. cc))
ordering_iff (some a) none = ((λ h. cc, λ h. cc), (λ h. cc, λ h. cc))
ordering_iff (some a) (some b) = (
  (λ h. ground (arith, newer_asym a b), λ h. ground arith),
  (λ h. ground (arith, newer_asym a b), λ h. ground (arith, newer_asym b a)),
)

-- Comparing two version texts gives greater exactly if the first is newer, and less exactly if the
-- second is.
pub compare_versions_iff :
    (a b : Text)
    → ((compare_versions a b ≡ greater) ↔ (is_version_newer a b ≡ true))
      × ((compare_versions a b ≡ less) ↔ (is_version_newer b a ≡ true))
compare_versions_iff a b =
    rw (compare_versions-parse a b, is_version_newer-parse a b, is_version_newer-parse b a)
      (ordering_iff (parse_version a) (parse_version b))
