-- ===== src/Update/Peer.antt =====
-- wire-app/src/peer_update.rs: a friend hands over its own executable. The metadata frames are
-- records here, since their encoding is serde's; the texts of the errors are left out.
pub mod Serve
pub mod Download
mod Tests
use wire_app.Common.{
  ℕ, zero, suc, ◌+◌, ◌-◌, ◌*◌, min, Bool, true, false, not, ◌&&◌, ◌||◌, ltb, leb, ◌==◌,
  if◌then◌else◌, List, [], ◌∷◌, Option, none, some, Text, text, text_eq, length, all,
}
use wire_app.Update.{is_version_newer}

abbrev pub protocol_version : ℕ
protocol_version = 1

abbrev pub max_executable_bytes : ℕ
max_executable_bytes = 536_870_912

pub record UpdateRequest : Type 0 where
  pub protocol : ℕ
  pub current_version : Option Text
  pub platform : Option Text
  pub metadata_only : Bool

pub record UpdateHeader : Type 0 where
  pub protocol : ℕ
  pub is_ok : Bool
  pub version : Option Text
  pub executable_name : Option Text
  pub sha256 : Option Text
  pub total_bytes : Option ℕ
  pub platform : Option Text

pub record UpdateOffer : Type 0 where
  pub version : Text
  pub platform : Text
  pub executable_name : Text
  pub sha256 : Text
  pub total_bytes : ℕ

pub data Result (E A : Type 0) : Type 0 where
  ok : A → Result E A
  err : E → Result E A

-- `for_offer` and `for_download`, of a build with this version on this platform.
unfoldable pub for_offer : Text → Text → UpdateRequest
for_offer version here = record {
  protocol = protocol_version;
  current_version = some version;
  platform = some here;
  metadata_only = true;
}

unfoldable pub for_download : Text → Text → UpdateRequest
unfolding for_offer
for_download version here = record (for_offer version here) { metadata_only = false }

abbrev pub at_most : ℕ → Option Text → Bool
at_most n none = true
at_most n (some t) = leb (length t) n

unfoldable pub validate : UpdateRequest → Bool
validate r =
    (r.protocol == protocol_version) && at_most 64 r.current_version && at_most 32 r.platform

unfoldable pub can_serve : Text → UpdateRequest → Bool
can_serve here r = elim r.platform [ none ↦ true | some p ↦ text_eq p here ]

pub data OfferError : Type 0 where
  refused other_protocol no_version no_checksum no_size malformed_checksum unusable_size
        no_platform :
      OfferError

abbrev pub is_hexdigit : ℕ → Bool
is_hexdigit c = (leb 48 c && leb c 57) || (leb 65 c && leb c 70) || (leb 97 c && leb c 102)

unfoldable pub is_checksum : Text → Bool
is_checksum t = (length t == 64) && all is_hexdigit t

abbrev pub is_usable_size : ℕ → Bool
is_usable_size n = not (n == 0) && leb n max_executable_bytes

-- `context(_)?` and `ok_or_else(_)?`.
abbrev pub required :
    {A B : Type 0} → OfferError → Option A → (A → Result OfferError B) → Result OfferError B
required e none next = err e
required e (some a) next = next a

abbrev pub or_default : Text → Option Text → Text
or_default t none = t
or_default t (some u) = u

unfoldable pub into_offer : UpdateHeader → Result OfferError UpdateOffer
unfolding is_checksum
into_offer h =
    if not h.is_ok
    then err refused
    else if not (h.protocol == protocol_version)
    then err other_protocol
    else required no_version h.version (λ version. required no_checksum h.sha256 (λ sha256.
      required no_size h.total_bytes (λ total_bytes.
        if not (is_checksum sha256)
        then err malformed_checksum
        else if not (is_usable_size total_bytes)
        then err unusable_size
        else required no_platform h.platform (λ platform. ok (record {
          version = version;
          platform = platform;
          executable_name = or_default (text "wire-app.exe") h.executable_name;
          sha256 = sha256;
          total_bytes = total_bytes;
        })))))

unfoldable pub is_runnable_here : Text → UpdateOffer → Bool
is_runnable_here here o = text_eq o.platform here

unfoldable pub is_usable_for : Text → UpdateOffer → Bool
is_usable_for current o = is_version_newer o.version current

-- The running executable: its name and bytes, where the system gives them.
pub record Executable : Type 0 where
  pub name : Option Text
  pub bytes : List ℕ

-- `build_header` with `sha256_of_file`; none where a file operation fails or the size is unusable.
unfoldable pub build_header :
    (List ℕ → Text) → Text → Text → Option Executable → Option UpdateHeader
build_header digest version here none = none
build_header digest version here (some exe) =
    if is_usable_size (length exe.bytes)
    then some (record {
      protocol = protocol_version;
      is_ok = true;
      version = some version;
      executable_name = some (or_default (text "wire-app.exe") exe.name);
      sha256 = some (digest exe.bytes);
      total_bytes = some (length exe.bytes);
      platform = some here;
    })
    else none

pub data Reason : Type 0 where
  unsupported_request not_older foreign_build no_header : Reason

-- What the handler does with a connection: it closes it, refuses, or sends the header, alone or with
-- the executable behind it.
pub data Answer : Type 0 where
  closes : Answer
  refuses : Reason → Answer
  describes : UpdateHeader → Answer
  sends : UpdateHeader → Answer

unfoldable pub with_header : Bool → Option UpdateHeader → Answer
with_header metadata_only none = refuses no_header
with_header true (some h) = describes h
with_header false (some h) = sends h

abbrev pub is_older : Text → Option Text → Bool
is_older ours none = true
is_older ours (some current) = is_version_newer ours current

unfoldable pub answer_request : Text → Text → Option UpdateHeader → UpdateRequest → Answer
unfolding validate can_serve with_header
answer_request ours here header r =
    if not (validate r)
    then refuses unsupported_request
    else if not (is_older ours r.current_version)
    then refuses not_older
    else if not (can_serve here r)
    then refuses foreign_build
    else with_header r.metadata_only header

-- `accept`, for a peer that is a saved friend or not, and a request that was read or not.
unfoldable pub accept : Text → Text → Option UpdateHeader → Bool → Option UpdateRequest → Answer
unfolding answer_request
accept ours here header false request = closes
accept ours here header true none = closes
accept ours here header true (some r) = answer_request ours here header r

-- The header frame that the requester reads: a refusal carries no metadata.
unfoldable pub header_of : Answer → Option UpdateHeader
header_of closes = none
header_of (refuses reason) = some (record {
  protocol = protocol_version;
  is_ok = false;
  version = none;
  executable_name = none;
  sha256 = none;
  total_bytes = none;
  platform = none;
})
header_of (describes h) = some h
header_of (sends h) = some h
