-- ===== src/Recording/Session/Tests.antt =====
-- A recording session of three speakers.
use wire_app.Common.{
  Text, ℕ, ◌≡◌, refl, arith, Bool, true, false, ◌&&◌, List, [], ◌∷◌, none, text, text_eq, leb,
}
use wire_app.Recording.Session.{
  Stopped, started, finish, sanitize_file_stem, words, join, trim_front, trim_back,
}
use wire_app.Recording.Session.Directory.{IsSearch, create_session_dir, create_session_dir-IsSearch}
use wire_app.Recording.Session.Files.{Attach, run, HasDistinctFiles, finish-HasDistinctFiles}
use wire_app.Recording.Session.Stem.{IsSafe, sanitize_file_stem-IsSafe}

abbrev is_letter : ℕ → Bool
is_letter c = leb 0x61 c && leb c 0x7a

-- Two speakers of one name, and one who could not be attached at first.
abbrev calls : List Attach
calls =
    record { node = text "a"; name = text "ada"; starts = true }
    ∷ record { node = text "b"; name = text "bob"; starts = false }
    ∷ record { node = text "c"; name = text "ada"; starts = true }
    ∷ record { node = text "b"; name = text "bob"; starts = true }
    ∷ []

abbrev full : Stopped
full = record { created = true; frames = 9; dropped_frames = 0; error = none }

finish-HasDistinctFiles_example : HasDistinctFiles (
    finish is_letter
      (λ t. t)
      (λ a b. text_eq a (text "00-ada.wav"))
      ((text "a", text "ada l.") ∷ [])
      (λ t. full)
      (run is_letter calls started))
finish-HasDistinctFiles_example =
    finish-HasDistinctFiles is_letter (λ t. t) (λ a b. text_eq a (text "00-ada.wav"))
      ((text "a", text "ada l.") ∷ []) (λ t. full) calls (omega arith)

sanitize_file_stem-IsSafe_example :
    IsSafe is_letter (sanitize_file_stem is_letter (text " ../ada/bob "))
sanitize_file_stem-IsSafe_example =
    sanitize_file_stem-IsSafe is_letter (text " ../ada/bob ") (λ c l h. ground arith)

cleaned : sanitize_file_stem is_letter (text " ../ada/bob ") ≡ text "-ada-bob"
unfolding sanitize_file_stem words join trim_front trim_back
cleaned = refl

create_session_dir-IsSearch_example :
    let here = λ (t : Text). text_eq t (text "2026") in
    IsSearch here (λ t. false) (text "2026") (create_session_dir here (λ t. false) (text "2026"))
create_session_dir-IsSearch_example =
    create_session_dir-IsSearch (λ t. text_eq t (text "2026")) (λ t. false) (text "2026")
