-- ===== src/Update/Tests.antt =====
-- Versions and the choice of a release at concrete inputs.
use wire_app.Common.{
  ◌≡◌, refl, ◌↔◌, Bool, true, false, List, [], ◌∷◌, Option, none, some, Text, text,
}
use wire_app.Update.{
  Version, newer, digits, parse_u64, split_dot, version_of_parts, parse_version, FileEntry,
  release_from_file, strip_suffix, candidates, greatest, latest_newer_release,
}
use wire_app.Update.Choice.{Choice, latest_newer_release-Choice}

abbrev file : Text → FileEntry
file name = record { id = text "id"; original_name = name; sha256 = text "hash" }

abbrev listed : List FileEntry
listed =
    file (text "wire-app-v0.1.2.zip")
    ∷ file (text "wire-app-v0.2.0.zip")
    ∷ file (text "unrelated.zip")
    ∷ []

abbrev running : Version
running = record { major = 0; minor = 1; patch = 2 }

offered :
    latest_newer_release listed running
    ≡ some (record { id = text "id"; version = text "0.2.0"; sha256 = text "hash" })
unfolding latest_newer_release candidates greatest release_from_file strip_suffix parse_version
    version_of_parts split_dot parse_u64 digits newer wire_app.Common.text_eq
    wire_app.Common.strip_prefix
offered = refl

latest_newer_release-Choice_example : Choice listed running (latest_newer_release listed running)
latest_newer_release-Choice_example = latest_newer_release-Choice listed running
