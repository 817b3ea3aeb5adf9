-- ===== src/Update/Peer/Download/Staged.antt =====
-- What stands at the staging path when a peer update is announced.
use wire_app.Common.{
  ℕ, ◌≡◌, false, if◌then◌else◌, Bool-cases, inl, inr, true, ◌&&◌, List, Option, none, some, Text,
  arith,
}
use wire_app.Update.Peer.{
  UpdateHeader, UpdateOffer, Result, ok, err, OfferError, is_runnable_here, is_usable_for,
}
use wire_app.Update.Peer.Download.{
  Read, Disk, DownloadError, eq_ignore_ascii_case, verify, Announced, ready, not_ready, verified,
  Host, after_removal, download_update, run_peer_update_download, download_peer_update,
}

module _ {Stream : Type 0} (digest : List ℕ → Text) (read : ℕ → Stream → Read × Stream)
    (disk : Disk) (host : Host) where
  -- The file that is ready has the digest of the offer; a failure leaves a file only where the host kept it.
  pub data Verified (offer : UpdateOffer) : Announced × Option (List ℕ) → Type 0 where
    good :
        (v : Text) (b : List ℕ)
        → eq_ignore_ascii_case (digest b) offer.sha256 ≡ true
        → Verified offer (ready v, some b)
    nothing : Verified offer (not_ready, none)
    left :
        (b : List ℕ)
        → (host.verification_ends && host.removes) ≡ false
        → Verified offer (not_ready, some b)

  not_removed-Verified :
      (offer : UpdateOffer) (file : Option (List ℕ))
      → host.removes ≡ false
      → Verified offer (not_ready, file)
  not_removed-Verified offer none e = nothing
  not_removed-Verified offer (some b) e = left b (ground arith)

  unended-Verified :
      (offer : UpdateOffer) (file : Option (List ℕ))
      → host.verification_ends ≡ false
      → Verified offer (not_ready, file)
  unended-Verified offer none e = nothing
  unended-Verified offer (some b) e = left b (ground arith)

  after_removal-Verified :
      (offer : UpdateOffer) (file : Option (List ℕ))
      → Verified offer (not_ready, after_removal host file)
  unfolding after_removal
  after_removal-Verified offer file = elim (Bool-cases host.removes) [
    | inl e ↦ simp e nothing
    | inr e ↦ simp e (not_removed-Verified offer file e)
  ]

  ended-Verified :
      (offer o : UpdateOffer) (file : Option (List ℕ))
      → Verified offer (
          if verify digest host.reads offer.sha256 file
          then (ready o.version, file)
          else (not_ready, after_removal host file))
  unfolding verify
  ended-Verified offer o none = after_removal-Verified offer none
  ended-Verified offer o (some b) =
      elim (Bool-cases (verify digest host.reads offer.sha256 (some b))) [
        | inl e ↦ rw e (good o.version b (ground arith))
        | inr e ↦ rw e (after_removal-Verified offer (some b))
      ]

  verified-Verified :
      (offer : UpdateOffer) (r : Result DownloadError UpdateOffer) (file : Option (List ℕ))
      → Verified offer (verified digest read disk host offer (r, file))
  unfolding verified verify
  verified-Verified offer (err e) file = after_removal-Verified offer file
  verified-Verified offer (ok o) file = elim (Bool-cases host.verification_ends) [
    | inr e ↦ simp e (unended-Verified offer file e)
    | inl e ↦ simp e (ended-Verified offer o file)
  ]

  -- The same for the command, with what was checked of the first offer.
  pub data Staged (current here : Text)
      : Option (Result OfferError UpdateOffer) → Announced × Option (List ℕ) → Type 0 where
    installable :
        (offer : UpdateOffer) (v : Text) (b : List ℕ)
        → is_usable_for current offer ≡ true
        → is_runnable_here here offer ≡ true
        → eq_ignore_ascii_case (digest b) offer.sha256 ≡ true
        → Staged current here (some (ok offer)) (ready v, some b)
    removed : {o : Option (Result OfferError UpdateOffer)} → Staged current here o (not_ready, none)
    left_behind :
        {o : Option (Result OfferError UpdateOffer)} (b : List ℕ)
        → (host.verification_ends && host.removes) ≡ false
        → Staged current here o (not_ready, some b)

  Verified-Staged :
      (current here : Text) (offer : UpdateOffer) (r : Announced × Option (List ℕ))
      → is_usable_for current offer ≡ true
      → is_runnable_here here offer ≡ true
      → Verified offer r
      → Staged current here (some (ok offer)) r
  Verified-Staged current here offer (ready v, some b) u h (good _ _ d) =
      installable offer v b u h d
  Verified-Staged current here offer (ready v, none) u h x = elim x [ ]
  Verified-Staged current here offer (not_ready, some b) u h (left _ e) = left_behind b e
  Verified-Staged current here offer (not_ready, none) u h nothing = removed

  -- Whatever the friend sends on either connection, and whatever the stream and the host do: a file is
  -- announced as ready only if the first offer was of a newer version for this platform and the file has
  -- the checksum of that offer, up to the case of its letters; otherwise a file is left at the staging path
  -- only where it could not be removed or the task that verifies did not come to its end.
  pub download_peer_update-Staged :
      (current here : Text) (offer : Option (Result OfferError UpdateOffer))
      (header : Option UpdateHeader) (s : Stream)
      → Staged current here offer
          (download_peer_update digest read disk host current here offer header s)
  unfolding download_peer_update run_peer_update_download
  download_peer_update-Staged current here none header s = removed
  download_peer_update-Staged current here (some (err e)) header s = removed
  download_peer_update-Staged current here (some (ok offer)) header s =
      elim (Bool-cases (is_usable_for current offer && is_runnable_here here offer)) [
        | inr e ↦ rw e removed
        | inl e ↦ elim (Bool-cases host.plans) [
          | inr p ↦ simp (e, p) removed
          | inl p ↦
              simp (e, p)
                (Verified-Staged current here offer _ (ground arith) (ground arith) (
                  verified-Verified offer (download_update read disk here header s host.before).0
                    (download_update read disk here header s host.before).1))
        ]
      ]
