-- ===== src/Update/Peer/Serve.antt =====
-- Which requests get the executable, and what the requester makes of the answer.
use wire_app.Common.{
  ℕ, ◌≤◌, ◌≡◌, inl, inr, refl, arith, Bool, Bool-cases, true, false, leb, List, Option, none, some,
  Text, text, text_eq_refl, length,
}
use wire_app.Update.{is_version_newer}
use wire_app.Update.Peer.{
  UpdateRequest, UpdateHeader, UpdateOffer, Result, ok, OfferError, for_offer, validate, can_serve,
  is_checksum, is_usable_size, or_default, into_offer, is_runnable_here, is_usable_for, Executable,
  build_header, Reason, unsupported_request, not_older, foreign_build, no_header, Answer, closes,
  refuses, describes, sends, with_header, is_older, answer_request, accept, header_of,
}

-- A request that is answered with the header of the executable.
pub record Granted (ours here : Text) (header : Option UpdateHeader) (r : UpdateRequest)
    (h : UpdateHeader) : Type 0 where
  pub is_valid : validate r ≡ true
  pub older : is_older ours r.current_version ≡ true
  pub same_platform : can_serve here r ≡ true
  pub is_header : header ≡ some h

pub data Served (ours here : Text) (header : Option UpdateHeader)
    : Bool → Option UpdateRequest → Answer → Type 0 where
  not_friend : {request : Option UpdateRequest} → Served ours here header false request closes
  not_read : Served ours here header true none closes
  turned_down :
      (r : UpdateRequest) (reason : Reason) → Served ours here header true (some r) (refuses reason)
  described :
      {r : UpdateRequest} {h : UpdateHeader}
      → Granted ours here header r h
      → r.metadata_only ≡ true
      → Served ours here header true (some r) (describes h)
  sent_whole :
      {r : UpdateRequest} {h : UpdateHeader}
      → Granted ours here header r h
      → r.metadata_only ≡ false
      → Served ours here header true (some r) (sends h)

with_header-Served :
    (ours here : Text) (r : UpdateRequest) (m : Bool) (header : Option UpdateHeader)
    → r.metadata_only ≡ m
    → validate r ≡ true
    → is_older ours r.current_version ≡ true
    → can_serve here r ≡ true
    → Served ours here header true (some r) (with_header m header)
unfolding with_header
with_header-Served ours here r m none e v o s = turned_down r no_header
with_header-Served ours here r true (some h) e v o s =
    described (record { is_valid = v; older = o; same_platform = s; is_header = refl }) e
with_header-Served ours here r false (some h) e v o s =
    sent_whole (record { is_valid = v; older = o; same_platform = s; is_header = refl }) e

answer_request-Served :
    (ours here : Text) (header : Option UpdateHeader) (r : UpdateRequest)
    → Served ours here header true (some r) (answer_request ours here header r)
unfolding answer_request
answer_request-Served ours here header r = elim (Bool-cases (validate r)) [
  | inr e ↦ rw e (turned_down r unsupported_request)
  | inl v ↦ elim (Bool-cases (is_older ours r.current_version)) [
    | inr e ↦ rw (v, e) (turned_down r not_older)
    | inl o ↦ elim (Bool-cases (can_serve here r)) [
      | inr e ↦ rw (v, o, e) (turned_down r foreign_build)
      | inl s ↦ rw (v, o, s) (with_header-Served ours here r r.metadata_only header refl v o s)
    ]
  ]
]

-- Every connection is closed, refused or served. Only a saved friend with a valid request, whose version is
-- older than ours or unknown, and whose platform is ours or unknown, gets the header; and the
-- executable follows it only where the request wants more than the header.
pub accept-Served :
    (ours here : Text) (header : Option UpdateHeader) (friend : Bool)
    (request : Option UpdateRequest)
    → Served ours here header friend request (accept ours here header friend request)
unfolding accept
accept-Served ours here header false request = not_friend
accept-Served ours here header true none = not_read
accept-Served ours here header true (some r) = answer_request-Served ours here header r

-- `fetch_offer` behind the frames: the connection may give no header.
unfoldable pub offer_from : Option UpdateHeader → Option (Result OfferError UpdateOffer)
unfolding into_offer
offer_from none = none
offer_from (some h) = some (into_offer h)

-- Both ends run this code, on one platform, and the friend's version is newer. The texts fit the limits of
-- the protocol, the executable has a usable size, and a digest is 64 hexadecimal digits. Then the
-- question is answered with an offer of exactly that version, size and checksum, and the requester
-- takes it for usable and runnable.
pub fetch-offer :
    (digest : List ℕ → Text) (ours theirs here : Text) (exe : Executable)
    → is_version_newer ours theirs ≡ true
    → length theirs ≤ 64
    → length here ≤ 32
    → is_usable_size (length exe.bytes) ≡ true
    → is_checksum (digest exe.bytes) ≡ true
    → let o : UpdateOffer = record {
      version = ours;
      platform = here;
      executable_name = or_default (text "wire-app.exe") exe.name;
      sha256 = digest exe.bytes;
      total_bytes = length exe.bytes;
    } in
      (offer_from (
          header_of (
            accept ours here
              (build_header digest ours here (some exe))
              true
              (some (for_offer theirs here))))
        ≡ some (ok o))
      × (is_usable_for theirs o ≡ true)
      × (is_runnable_here here o ≡ true)
unfolding offer_from accept header_of build_header for_offer is_usable_for is_runnable_here
fetch-offer digest ours theirs here exe newer_version short shorter size checksum =
    let a : leb (length theirs) 64 ≡ true = ground arith in
    let b : leb (length here) 32 ≡ true = ground arith in
    (
      rw (size, a, b, newer_version, text_eq_refl here, checksum) (rw size refl),
      newer_version,
      text_eq_refl here,
    )
