-- ===== src/Update/Peer/Tests.antt =====
-- Peer updates at concrete inputs. The stream is a list of bytes that comes three at a time; a
-- digest is 64 times the letter a.
use wire_app.Common.{
  false, none, ℕ, zero, suc, ◌≡◌, ◌≤◌, refl, sym, arith, min, true, List, [], ◌∷◌, ◌++◌, some, Text,
  text, length, take, drop, take-append-drop,
}
use wire_app.Update.{
  is_version_newer, parse_version, split_dot, version_of_parts, parse_u64, digits, newer,
}
use wire_app.Update.Peer.{
  UpdateOffer, ok, for_offer, for_download, is_checksum, Executable, build_header, accept,
  header_of, is_usable_for, is_runnable_here,
}
use wire_app.Update.Peer.Serve.{Served, accept-Served, offer_from, fetch-offer}
use wire_app.Update.Peer.Download.{
  Read, got, ended, Disk, finished, receive_body, download_peer_update, Host,
}
use wire_app.Update.Peer.Download.Body.{Ends, receive_body-Ends, Delivers}
use wire_app.Update.Peer.Download.Staged.{Staged, download_peer_update-Staged}

abbrev digest : List ℕ → Text
digest bytes = text "aaaaaaaaaaaaaaaaaaaaaaaaaaaaaaaaaaaaaaaaaaaaaaaaaaaaaaaaaaaaaaaa"

abbrev windows : Text
windows = text "windows-x86_64"

abbrev program : Executable
program = record { name = some (text "wire-app.exe"); bytes = 77 ∷ 90 ∷ 1 ∷ 2 ∷ 3 ∷ [] }

newer_here : is_version_newer (text "0.7.5") (text "0.7.4") ≡ true
unfolding is_version_newer parse_version version_of_parts split_dot parse_u64 digits newer
newer_here = refl

accept-Served_example :
    Served
      (text "0.7.5")
      windows
      (build_header digest (text "0.7.5") windows (some program))
      true
      (some (for_download (text "0.7.4") windows))
      (accept
        (text "0.7.5")
        windows
        (build_header digest (text "0.7.5") windows (some program))
        true
        (some (for_download (text "0.7.4") windows)))
accept-Served_example =
    accept-Served (text "0.7.5") windows (build_header digest (text "0.7.5") windows (some program))
      true (some (for_download (text "0.7.4") windows))

checksum_here : is_checksum (digest (77 ∷ 90 ∷ 1 ∷ 2 ∷ 3 ∷ [])) ≡ true
unfolding is_checksum
checksum_here = refl

abbrev offered : UpdateOffer
offered = record {
  version = text "0.7.5";
  platform = windows;
  executable_name = text "wire-app.exe";
  sha256 = digest program.bytes;
  total_bytes = 5;
}

fetch-offer_example :
    (offer_from (
        header_of (
          accept
            (text "0.7.5")
            windows
            (build_header digest (text "0.7.5") windows (some program))
            true
            (some (for_offer (text "0.7.4") windows))))
      ≡ some (ok offered))
    × (is_usable_for (text "0.7.4") offered ≡ true)
    × (is_runnable_here windows offered ≡ true)
fetch-offer_example =
    fetch-offer digest (text "0.7.5") (text "0.7.4") windows program newer_here (omega arith)
      (omega arith) refl checksum_here

-- Three bytes at most for each read, and the end behind them.
abbrev given : ℕ → List ℕ → List ℕ → Read × List ℕ
given k [] rest = (ended, rest)
given k (b ∷ bytes) rest = (got (b ∷ bytes), rest)

abbrev threes : ℕ → List ℕ → Read × List ℕ
threes k s = given k (take (min k 3) s) (drop (min k 3) s)

abbrev healthy : Disk
healthy = record { creates = true; writes = λ n. true; flushes = true }

length-take_bound : (n : ℕ) (s : List ℕ) → length (take n s) ≤ n
length-take_bound zero s = omega arith
length-take_bound (suc n) [] = omega arith
length-take_bound (suc n) (x ∷ s) = omega (arith, length-take_bound n s)

given-Delivers :
    (k n : ℕ) (s bytes rest : List ℕ)
    → bytes ++ rest ≡ s
    → length bytes ≤ n
    → n ≤ k
    → Delivers threes healthy (λ s. s) k s (given k bytes rest)
given-Delivers k n s [] rest e l h = tt
given-Delivers k n s (b ∷ bytes) rest e l h = (sym e, omega arith)

threes-Delivers : (k : ℕ) (s : List ℕ) → Delivers threes healthy (λ s. s) k s (threes k s)
threes-Delivers k s =
    given-Delivers k (min k 3) s (take (min k 3) s) (drop (min k 3) s)
      (take-append-drop (min k 3) s) (length-take_bound (min k 3) s) (omega arith)

abbrev eight : List ℕ
eight = 77 ∷ 90 ∷ 1 ∷ 2 ∷ 3 ∷ 4 ∷ 5 ∷ 6 ∷ []

five_come : receive_body threes healthy 6 5 [] eight ≡ finished (77 ∷ 90 ∷ 1 ∷ 2 ∷ 3 ∷ [])
unfolding receive_body
five_come = refl

receive_body-Ends_example : Ends (receive_body threes healthy 6 5 [] eight)
receive_body-Ends_example =
    receive_body-Ends threes healthy 6 5 [] eight (omega arith) (omega arith)

-- A host that cannot remove files.
abbrev host : Host
host = record {
  plans = true;
  before = none;
  reads = true;
  verification_ends = true;
  removes = false;
}

download_peer_update-Staged_example :
    Staged digest threes healthy host (text "0.7.4") windows (some (ok offered)) (
      download_peer_update digest threes healthy host
        (text "0.7.4")
        windows
        (some (ok offered))
        (build_header digest (text "0.7.5") windows (some program))
        eight)
download_peer_update-Staged_example =
    download_peer_update-Staged digest threes healthy host (text "0.7.4") windows
      (some (ok offered)) (build_header digest (text "0.7.5") windows (some program)) eight
