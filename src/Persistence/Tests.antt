-- ===== src/Persistence/Tests.antt =====
-- Writes of a state file at concrete inputs. The stored values are numbers; a file is good if it is
-- a number between brackets.
use wire_app.Common.{ℕ, ◌≡◌, refl, List, [], ◌∷◌, Option, none, some, ◌==◌, ◌&&◌, if◌then◌else◌}
use wire_app.Persistence.{
  Disk, load, calls, stopped, perform, interrupted, done, fails, Endings, ok, attempt, write_json,
}
use wire_app.Persistence.Crash.{Written, write_json-Written}
use wire_app.Persistence.Register.{Fate, ends, cut_off, Register, final, reports, final-Register}

abbrev encode : ℕ → List ℕ
encode n = 91 ∷ n ∷ 93 ∷ []

abbrev decode : List ℕ → Option ℕ
decode (a ∷ n ∷ c ∷ []) = if (a == 91) && (c == 93) then some n else none
decode bytes = none

abbrev saved : Disk
saved = record { primary = some (encode 4); backup = some (encode 3); temporary = none }

-- The process stops while the new bytes go to the temporary file.
cut : stopped 1 2 (calls (encode 5)) saved ≡ record saved { temporary = some (91 ∷ 5 ∷ []) }
unfolding stopped perform interrupted
cut = refl

abbrev all_done : Endings
all_done = record { creation = done; writing = done; replacing = done; copying = done }

abbrev lost_copy : Endings
lost_copy = record { creation = done; writing = done; replacing = done; copying = fails 1 }

torn_backup :
    write_json lost_copy (some (encode 5)) saved
    ≡ (record { primary = some (encode 5); backup = some (91 ∷ []); temporary = none }, ok)
unfolding write_json attempt perform interrupted
torn_backup = refl

write_json-Written_example :
    Written decode (encode 5) 5 refl saved (write_json lost_copy (some (encode 5)) saved)
write_json-Written_example = write_json-Written decode (encode 5) 5 refl lost_copy saved

abbrev writes : List (ℕ × Fate)
writes = (5, ends all_done) ∷ (6, cut_off 1 2) ∷ (7, ends lost_copy) ∷ (8, cut_off 3 0) ∷ []

final-Register_example :
    Register
      (reports encode decode writes saved)
      (load decode saved)
      (load decode (final encode decode writes saved))
final-Register_example = final-Register encode decode (λ v. refl) writes saved
