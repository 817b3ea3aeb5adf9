-- ===== src/Persistence.antt =====
-- wire-app/src/persistence.rs: the state files, each with a recovery copy. Bytes of a file are
-- numbers. A path and its two sidecars are three different files, since the suffixes differ.
pub mod Crash
pub mod Register
mod Tests
use wire_app.Common.{ℕ, zero, suc, List, [], ◌∷◌, Option, none, some, take}

-- The file at the path, `<name>.bak` and `<name>.tmp`.
pub record Disk : Type 0 where
  pub primary : Option (List ℕ)
  pub backup : Option (List ℕ)
  pub temporary : Option (List ℕ)

-- What `fs::read` gives: the bytes, the error `NotFound`, or another error.
pub data Reading : Type 0 where
  bytes : List ℕ → Reading
  not_found other_error : Reading

abbrev pub reading : Option (List ℕ) → Reading
reading none = not_found
reading (some b) = bytes b

-- What `read_json` gives: `Ok(Some(_))`, `Ok(None)`, or one of its errors.
pub data Loaded (V : Type 0) : Type 0 where
  value : V → Loaded V
  absent : Loaded V
  invalid : Loaded V
  no_backup : Loaded V
  unreadable : Loaded V

-- `serde_json` on the stored type.
module _ {V : Type 0} (decode : List ℕ → Option V) where
  unfoldable pub from_slice : Option V → Loaded V
  from_slice none = invalid
  from_slice (some v) = value v

  -- The primary file has invalid JSON: the backup has to be there.
  unfoldable pub read_backup_for_invalid : Reading → Loaded V
  unfolding from_slice
  read_backup_for_invalid (bytes b) = from_slice (decode b)
  read_backup_for_invalid not_found = no_backup
  read_backup_for_invalid other_error = no_backup

  -- There is no primary file.
  unfoldable pub read_backup_for_missing : Reading → Loaded V
  unfolding from_slice
  read_backup_for_missing (bytes b) = from_slice (decode b)
  read_backup_for_missing not_found = absent
  read_backup_for_missing other_error = unreadable

  unfoldable pub primary_or_backup : Option V → Reading → Loaded V
  unfolding read_backup_for_invalid
  primary_or_backup (some v) backup = value v
  primary_or_backup none backup = read_backup_for_invalid backup

  -- The readings of the path and of the backup; the second is made only where it is needed.
  unfoldable pub read_json : Reading → Reading → Loaded V
  unfolding primary_or_backup read_backup_for_missing
  read_json (bytes b) backup = primary_or_backup (decode b) backup
  read_json not_found backup = read_backup_for_missing backup
  read_json other_error backup = unreadable

  abbrev pub load : Disk → Loaded V
  load d = read_json (reading d.primary) (reading d.backup)

-- The calls of `write_json` that change files, in their order. Directories and the flushing of files
-- have no counterpart: a completed call is taken to be on the disk.
pub data Call : Type 0 where
  create_temporary : Call
  write_temporary : List ℕ → Call
  replace_file : Call
  copy_to_backup : Call

unfoldable pub perform : Call → Disk → Disk
perform create_temporary d = record d { temporary = some [] }
perform (write_temporary b) d = record d { temporary = some b }
perform replace_file d = record d { primary = d.temporary; temporary = none }
perform copy_to_backup d = record d { backup = d.primary }

-- The same calls when they stop early: a file that was being written has its first `n` bytes. A
-- rename is done or not done.
abbrev first : ℕ → Option (List ℕ) → Option (List ℕ)
first n none = none
first n (some b) = some (take n b)

unfoldable pub interrupted : ℕ → Call → Disk → Disk
interrupted n create_temporary d = d
interrupted n (write_temporary b) d = record d { temporary = some (take n b) }
interrupted n replace_file d = d
interrupted n copy_to_backup d = record d { backup = first n d.primary }

abbrev pub calls : List ℕ → List Call
calls b = create_temporary ∷ write_temporary b ∷ replace_file ∷ copy_to_backup ∷ []

-- The process stops in the call with this index, or has ended before.
unfoldable pub stopped : ℕ → ℕ → List Call → Disk → Disk
stopped i n [] d = d
stopped zero n (c ∷ cs) d = interrupted n c d
stopped (suc i) n (c ∷ cs) d = stopped i n cs (perform c d)

-- How a call ends. `flush_failed` is the failure of the flush behind it: of the file after
-- `write_all`, of the directory after the rename.
pub data Ending : Type 0 where
  done : Ending
  fails : ℕ → Ending
  flush_failed : Ending

pub record Endings : Type 0 where
  pub creation : Ending
  pub writing : Ending
  pub replacing : Ending
  pub copying : Ending

pub data Outcome : Type 0 where
  ok err : Outcome

unfoldable pub attempt : Ending → Call → Disk → Disk × Outcome
attempt done c d = (perform c d, ok)
attempt (fails n) c d = (interrupted n c d, err)
attempt flush_failed c d = (perform c d, err)

-- `?`: the next calls are made only after a success.
abbrev pub and_then : Disk × Outcome → (Disk → Disk × Outcome) → Disk × Outcome
and_then (d, ok) next = next d
and_then (d, err) next = (d, err)

-- The end of the copy does not matter to the result.
abbrev pub ignored : Disk × Outcome → Disk × Outcome
ignored (d, o) = (d, ok)

-- `write_json` of these bytes, or of a value that does not serialise.
unfoldable pub write_json : Endings → Option (List ℕ) → Disk → Disk × Outcome
write_json e none d = (d, err)
write_json e (some b) d = and_then (attempt e.creation create_temporary d) (λ d1.
    and_then (attempt e.writing (write_temporary b) d1) (λ d2.
      and_then (attempt e.replacing replace_file d2)
        (λ d3. ignored (attempt e.copying copy_to_backup d3))))
