-- ===== src/Presence/Packet.antt =====
-- What a heartbeat carries, the limits it must keep, and its framing.
pub mod Limits
pub mod Framing
pub mod Expiry
use wire_app.Common.{
  ℕ, ◌*◌, Bool, true, false, not, ◌||◌, List, [], ◌∷◌, Option, none, some, Text, ltb, ◌==◌,
  if◌then◌else◌, length, any, keep_if,
}
use wire_app.Common.Int.{ℤ, pos, ltb_ℤ, saturating_sub}
use wire_app.Profile.{ProfileSnapshot, ProfileError}
use wire_app.Profile

abbrev pub max_packet_bytes : ℕ
max_packet_bytes = 64 * 1024

-- In milliseconds.
abbrev pub missed_group_call_ttl : ℕ
missed_group_call_ttl = 24 * 60 * 60 * 1000

pub data Availability : Type 0 where
  online offline : Availability

pub record GroupCallAnnouncement : Type 0 where
  pub call_id : Text
  pub conversation_id : Text
  pub title : Text
  pub initiator : Text
  pub started_at_ms : ℤ  -- i64
  pub ended_at_ms : Option ℤ
  pub participants : List Text

unfoldable pub group_call_is_advertisable : ℤ → GroupCallAnnouncement → Bool
group_call_is_advertisable now_ms call = elim call.ended_at_ms [
  | none ↦ true
  | some ended_at ↦
      ltb_ℤ now_ms ended_at || ltb_ℤ (saturating_sub now_ms ended_at) (pos missed_group_call_ttl)
]

pub record StatusPacket : Type 0 where
  pub protocol_version : ℕ  -- u8
  pub availability : Availability
  pub client_version : Text
  pub active_group_calls : List GroupCallAnnouncement
  pub display_name : Option Text
  pub avatar_hash : Option Text
  pub accent_color : Option Text

-- `StatusPacket::new` in the build `app_version`.
unfoldable pub new_packet :
    Text → Availability → List GroupCallAnnouncement → ProfileSnapshot → StatusPacket
new_packet app_version availability calls profile = record {
  protocol_version = 2;
  availability = availability;
  client_version = app_version;
  active_group_calls = calls;
  display_name = profile.display_name;
  avatar_hash = profile.avatar_hash;
  accent_color = profile.accent_color;
}

abbrev pub profile_of : StatusPacket → ProfileSnapshot
profile_of p = record {
  display_name = p.display_name;
  avatar_hash = p.avatar_hash;
  accent_color = p.accent_color;
}

pub data PacketError : Type 0 where
  unsupported_version client_version_too_long call_limits : PacketError
  bad_profile : ProfileError → PacketError

-- A call that passes the limits of an advertisement.
unfoldable pub call_too_large : GroupCallAnnouncement → Bool
call_too_large call =
    ltb 160 (length call.call_id)
    || ltb 512 (length call.conversation_id)
    || ltb 256 (length call.title)
    || ltb 128 (length call.initiator)
    || ltb 64 (length call.participants)
    || any (λ peer. ltb 128 (length peer)) call.participants

abbrev check_calls : List GroupCallAnnouncement → Option PacketError
check_calls calls =
    if ltb 32 (length calls) || any call_too_large calls then some call_limits else none

abbrev check_profile : Option ProfileError → List GroupCallAnnouncement → Option PacketError
check_profile none calls = check_calls calls
check_profile (some e) calls = some (bad_profile e)

-- `StatusPacket::validate`: `none` where it returns `Ok(())`.
unfoldable pub validate : StatusPacket → Option PacketError
validate p =
    if not (p.protocol_version == 2)
    then some unsupported_version
    else if ltb 64 (length p.client_version)
    then some client_version_too_long
    else check_profile (Profile.validate (profile_of p)) p.active_group_calls
