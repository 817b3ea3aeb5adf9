-- ===== src/Update/Peer/Download.antt =====
-- `download_update` of peer_update.rs, and `run_peer_update_download` with the checks before it, of
-- runtime/worker.rs and update.rs. The stream, the disk and the digest are parameters, and so is whether
-- the staging path can be planned, a file be read or removed, and the task that verifies come to its end.
pub mod Body
pub mod Staged
use wire_app.Common.{
  ℕ, zero, suc, ◌+◌, ◌-◌, ◌≤◌, ◌≡◌, min, Bool, true, false, not, ◌&&◌, ◌||◌, ltb, leb, ◌==◌,
  if◌then◌else◌, List, [], ◌∷◌, ◌++◌, Option, none, some, Text, text_eq, length, map,
}
use wire_app.Update.Peer.{
  UpdateHeader, UpdateOffer, Result, ok, err, OfferError, into_offer, is_runnable_here,
  is_usable_for,
}

abbrev pub chunk_bytes : ℕ
chunk_bytes = 262_144

-- `RecvStream::read` under its timeout.
pub data Read : Type 0 where
  got : List ℕ → Read
  ended stalled broken : Read

-- The writes of the file: whether the write at an offset succeeds, and the last flush.
pub record Disk : Type 0 where
  pub creates : Bool
  pub writes : ℕ → Bool
  pub flushes : Bool

pub data DownloadError : Type 0 where
  not_answered : DownloadError
  not_offered : OfferError → DownloadError
  foreign not_created closed_early timed_out lost not_written : DownloadError

-- The bytes that were written, and how the transfer ended. `unfinished` is a loop that has no fuel.
pub data Transfer : Type 0 where
  finished : List ℕ → Transfer
  fails : DownloadError → List ℕ → Transfer
  unfinished : Transfer

module _ {Stream : Type 0} (read : ℕ → Stream → Read × Stream) (disk : Disk) where
  -- What follows a read, with the rest of the loop.
  unfoldable pub after_read : (List ℕ → Stream → Transfer) → List ℕ → Read × Stream → Transfer
  after_read continue content (ended, s) = fails closed_early content
  after_read continue content (stalled, s) = fails timed_out content
  after_read continue content (broken, s) = fails lost content
  after_read continue content (got [], s) = fails closed_early content
  after_read continue content (got (b ∷ bytes), s) =
      if disk.writes (length content)
      then continue (content ++ b ∷ bytes) s
      else fails not_written content

  unfoldable pub receive_body : ℕ → ℕ → List ℕ → Stream → Transfer
  unfolding after_read
  receive_body zero total content s = unfinished
  receive_body (suc fuel) total content s =
      let next =
        after_read (receive_body fuel total) content
          (read (min (total - length content) chunk_bytes) s) in
      if ltb (length content) total
      then next
      else (if disk.flushes then finished content else fails not_written content)

  -- The destination afterwards: nothing where it was not created.
  unfoldable pub destination : Transfer → Option (List ℕ)
  destination (finished b) = some b
  destination (fails e b) = some b
  destination unfinished = none

  unfoldable pub outcome : UpdateOffer → Transfer → Result DownloadError UpdateOffer
  outcome o (finished b) = ok o
  outcome o (fails e b) = err e
  outcome o unfinished = err lost

  -- The loop runs at most once for each byte, and once more to see the end.
  unfoldable pub fetch_body :
      UpdateOffer → Stream → Result DownloadError UpdateOffer × Option (List ℕ)
  unfolding receive_body destination outcome
  fetch_body o s =
      let t = receive_body (suc o.total_bytes) o.total_bytes [] s in (outcome o t, destination t)

  unfoldable pub with_offer :
      Text
      → Result OfferError UpdateOffer
      → Stream
      → Option (List ℕ)
      → Result DownloadError UpdateOffer × Option (List ℕ)
  unfolding fetch_body
  with_offer here (err e) s file = (err (not_offered e), file)
  with_offer here (ok o) s file =
      if not (is_runnable_here here o)
      then (err foreign, file)
      else if not disk.creates
      then (err not_created, file)
      else fetch_body o s

  -- The header that the friend sent, if it came; the file that stands at the destination before.
  unfoldable pub download_update :
      Text
      → Option UpdateHeader
      → Stream
      → Option (List ℕ)
      → Result DownloadError UpdateOffer × Option (List ℕ)
  unfolding with_offer into_offer
  download_update here none s file = (err not_answered, file)
  download_update here (some h) s file = with_offer here (into_offer h) s file

-- `eq_ignore_ascii_case`.
abbrev pub lower : ℕ → ℕ
lower c = if leb 65 c && leb c 90 then c + 32 else c

unfoldable pub eq_ignore_ascii_case : Text → Text → Bool
eq_ignore_ascii_case a b = text_eq (map lower a) (map lower b)

-- `StagedUpdate::verify`: the file can be read, and its digest is the expected one.
unfoldable pub verify : (List ℕ → Text) → Bool → Text → Option (List ℕ) → Bool
unfolding eq_ignore_ascii_case
verify digest reads expected none = false
verify digest reads expected (some b) = reads && eq_ignore_ascii_case (digest b) expected

-- The end of a command: the staged file is announced as ready with this version, or the command failed.
pub data Announced : Type 0 where
  ready : Text → Announced
  not_ready : Announced

-- What else the host does: whether the staging path is planned, what stands there before, whether the staged
-- file is read, the verification ends, and a file is removed.
pub record Host : Type 0 where
  pub plans : Bool
  pub before : Option (List ℕ)
  pub reads : Bool
  pub verification_ends : Bool
  pub removes : Bool

-- `let _ = remove_file(..)`.
unfoldable pub after_removal : Host → Option (List ℕ) → Option (List ℕ)
after_removal host file = if host.removes then none else file

module _ {Stream : Type 0} (digest : List ℕ → Text) (read : ℕ → Stream → Read × Stream)
    (disk : Disk) (host : Host) where
  -- A failed transfer and a wrong checksum remove the staged file, if it can be removed; where the task that
  -- verifies does not end, it stays.
  unfoldable pub verified :
      UpdateOffer → Result DownloadError UpdateOffer × Option (List ℕ) → Announced × Option (List ℕ)
  unfolding verify
  verified offer (err e, file) = (not_ready, after_removal host file)
  verified offer (ok received, file) =
      if not host.verification_ends
      then (not_ready, file)
      else if verify digest host.reads offer.sha256 file
      then (ready received.version, file)
      else (not_ready, after_removal host file)

  unfoldable pub run_peer_update_download :
      Text → UpdateOffer → Option UpdateHeader → Stream → Announced × Option (List ℕ)
  unfolding verified download_update
  run_peer_update_download here offer header s =
      if host.plans
      then verified offer (download_update read disk here header s host.before)
      else (not_ready, none)

  -- `DownloadPeerUpdate`, without the set of pending peers: the offer that was fetched first, and the header
  -- and body of the second connection.
  unfoldable pub download_peer_update :
      Text
      → Text
      → Option (Result OfferError UpdateOffer)
      → Option UpdateHeader
      → Stream
      → Announced × Option (List ℕ)
  unfolding run_peer_update_download
  download_peer_update current here none header s = (not_ready, none)
  download_peer_update current here (some (err e)) header s = (not_ready, none)
  download_peer_update current here (some (ok offer)) header s =
      if is_usable_for current offer && is_runnable_here here offer
      then run_peer_update_download here offer header s
      else (not_ready, none)
