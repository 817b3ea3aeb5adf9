-- ===== src/Persistence/Crash.antt =====
-- What a write leaves on the disk, however it ends.
use wire_app.Common.{ℕ, zero, suc, ◌≡◌, ◌⊎◌, inl, inr, refl, List, [], Option, none, some, arith}
use wire_app.Persistence.{
  Disk, bytes, reading, value, from_slice, read_backup_for_invalid, read_backup_for_missing,
  primary_or_backup, read_json, load, perform, interrupted, calls, stopped, Ending, done, fails,
  flush_failed, Endings, Outcome, ok, err, attempt, and_then, ignored, write_json, create_temporary,
  write_temporary, replace_file, copy_to_backup,
}

module _ {V : Type 0} (decode : List ℕ → Option V) (b : List ℕ) (v : V)
    (decodes : decode b ≡ some v) where
  -- If the process stops at any point of a write, the next start reads what it would have read
  -- before the write, or the value written; never a mixture, and never an error that was not there.
  pub stopped-load :
      (i n : ℕ) (d : Disk)
      → (load decode (stopped i n (calls b) d) ≡ load decode d)
        ⊎ (load decode (stopped i n (calls b) d) ≡ value v)
  unfolding stopped perform interrupted read_json primary_or_backup
  stopped-load zero n d = inl refl
  stopped-load (suc zero) n d = inl refl
  stopped-load (suc (suc zero)) n d = inl refl
  stopped-load (suc (suc (suc zero))) n d = inr (rw decodes refl)
  stopped-load (suc (suc (suc (suc i)))) n d = inr (rw decodes refl)

  -- A write is done, or it was reported as failed and changed nothing that is read.
  pub data Written (d : Disk) : Disk × Outcome → Type 0 where
    committed : {d' : Disk} {o : Outcome} → load decode d' ≡ value v → Written d (d', o)
    unchanged : {d' : Disk} → load decode d' ≡ load decode d → Written d (d', err)

  copying-Written :
      (e : Ending) (d d' : Disk)
      → d'.primary ≡ some b
      → Written d (ignored (attempt e copy_to_backup d'))
  unfolding attempt perform interrupted read_json primary_or_backup
  copying-Written done d d' h = committed (rw (h, decodes) refl)
  copying-Written (fails n) d d' h = committed (rw (h, decodes) refl)
  copying-Written flush_failed d d' h = committed (rw (h, decodes) refl)

  replacing-Written :
      (r c : Ending) (d d' : Disk)
      → load decode d' ≡ load decode d
      → d'.temporary ≡ some b
      → Written d
          (and_then (attempt r replace_file d') (λ d3. ignored (attempt c copy_to_backup d3)))
  unfolding attempt perform interrupted
  replacing-Written done c d d' same h =
      copying-Written c d (record d' { primary = d'.temporary; temporary = none }) h
  replacing-Written (fails n) c d d' same h = unchanged same
  replacing-Written flush_failed c d d' same h =
      committed {d' = record d' { primary = d'.temporary; temporary = none }}
        (unfold read_json primary_or_backup in rw (h, decodes) refl)

  writing-Written :
      (w r c : Ending) (d d' : Disk)
      → load decode d' ≡ load decode d
      → Written d (
          and_then (attempt w (write_temporary b) d') (λ d2.
            and_then (attempt r replace_file d2) (λ d3. ignored (attempt c copy_to_backup d3))))
  unfolding attempt perform interrupted
  writing-Written done r c d d' same =
      replacing-Written r c d (record d' { temporary = some b }) same refl
  writing-Written (fails n) r c d d' same = unchanged same
  writing-Written flush_failed r c d d' same = unchanged same

  creating-Written :
      (a w r c : Ending) (d : Disk)
      → Written d (
          and_then (attempt a create_temporary d) (λ d1.
            and_then (attempt w (write_temporary b) d1) (λ d2.
              and_then (attempt r replace_file d2) (λ d3. ignored (attempt c copy_to_backup d3)))))
  unfolding attempt perform interrupted
  creating-Written done w r c d = writing-Written w r c d (record d { temporary = some [] }) refl
  creating-Written (fails n) w r c d = unchanged refl
  creating-Written flush_failed w r c d = unchanged refl

  -- However its calls end, `write_json` has put the value in place, or it returns an error and what
  -- is read is what was read before.
  pub write_json-Written : (e : Endings) (d : Disk) → Written d (write_json e (some b) d)
  unfolding write_json
  write_json-Written e d = creating-Written e.creation e.writing e.replacing e.copying d

write_json-backup :
    (e : Endings) (b : List ℕ) (d : Disk)
    → (write_json e (some b) d).1 ≡ ok
    → e.copying ≡ done
    → (write_json e (some b) d).0.backup ≡ some b
unfolding write_json attempt perform interrupted
write_json-backup e b d succeeded copied = ground arith

module _ {V : Type 0} (decode : List ℕ → Option V) (b : List ℕ) (v : V)
    (decodes : decode b ≡ some v) where
  -- What becomes of the primary file by another hand.
  pub data IsLost : Option (List ℕ) → Type 0 where
    missing : IsLost none
    torn : (rubbish : List ℕ) → decode rubbish ≡ none → IsLost (some rubbish)

  lost-read :
      (lost : Option (List ℕ)) → IsLost lost → read_json decode (reading lost) (bytes b) ≡ value v
  unfolding read_json read_backup_for_missing read_backup_for_invalid primary_or_backup from_slice
  lost-read none missing = rw decodes refl
  lost-read (some _) (torn rubbish t) = rw t (rw decodes refl)

  -- After a successful write with its copy the value survives the loss of the primary file: with
  -- the file missing or filled with bytes that do not decode, it is read from the backup.
  pub write_json-recovers :
      (e : Endings) (d : Disk) (lost : Option (List ℕ))
      → (write_json e (some b) d).1 ≡ ok
      → e.copying ≡ done
      → IsLost lost
      → load decode (record (write_json e (some b) d).0 { primary = lost }) ≡ value v
  write_json-recovers e d lost succeeded copied l =
      rw (write_json-backup e b d succeeded copied) (lost-read lost l)
