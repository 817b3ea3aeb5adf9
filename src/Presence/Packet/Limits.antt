-- ===== src/Presence/Packet/Limits.antt =====
-- Which heartbeats are accepted.
use wire_app.Common.{
  ◌≤◌, ◌≡◌, refl, ◌↔◌, false, List, [], ◌∷◌, none, arith, Text, ltb, length, any, All,
}
use wire_app.Profile
use wire_app.Presence.Packet.{
  GroupCallAnnouncement, StatusPacket, call_too_large, profile_of, validate,
}

-- The limits of one advertised call.
pub record FitsCall (call : GroupCallAnnouncement) : Type 0 where
  pub id_fits : length call.call_id ≤ 160
  pub conversation_fits : length call.conversation_id ≤ 512
  pub title_fits : length call.title ≤ 256
  pub initiator_fits : length call.initiator ≤ 128
  pub participants_fit : length call.participants ≤ 64
  pub peers_fit : All (λ peer. length peer ≤ 128) call.participants

any_long :
    (ps : List Text)
    → any (λ peer. ltb 128 (length peer)) ps ≡ false
    → All (λ peer. length peer ≤ 128) ps
any_long [] h = tt
any_long (p ∷ ps) h = (ground arith, any_long ps (ground arith))

none_long :
    (ps : List Text)
    → All (λ peer. length peer ≤ 128) ps
    → any (λ peer. ltb 128 (length peer)) ps ≡ false
none_long [] h = refl
none_long (p ∷ ps) h = ground (arith, none_long ps h.1)

FitsCall-of : (c : GroupCallAnnouncement) → call_too_large c ≡ false → FitsCall c
unfolding call_too_large
FitsCall-of c h = record {
  id_fits = ground arith;
  conversation_fits = ground arith;
  title_fits = ground arith;
  initiator_fits = ground arith;
  participants_fit = ground arith;
  peers_fit = any_long c.participants (ground arith);
}

call_too_large-of : (c : GroupCallAnnouncement) → FitsCall c → call_too_large c ≡ false
unfolding call_too_large
call_too_large-of c v = ground (arith, none_long c.participants v.peers_fit)

All-fit : (cs : List GroupCallAnnouncement) → any call_too_large cs ≡ false → All FitsCall cs
All-fit [] h = tt
All-fit (c ∷ cs) h = (FitsCall-of c (ground arith), All-fit cs (ground arith))

none_too_large : (cs : List GroupCallAnnouncement) → All FitsCall cs → any call_too_large cs ≡ false
none_too_large [] h = refl
none_too_large (c ∷ cs) h = ground (arith, call_too_large-of c h.0, none_too_large cs h.1)

-- The limits of a whole heartbeat.
pub record FitsPacket (p : StatusPacket) : Type 0 where
  pub version_two : p.protocol_version ≡ 2
  pub client_version_fits : length p.client_version ≤ 64
  pub profile_fits : Profile.validate (profile_of p) ≡ none
  pub calls_fit : length p.active_group_calls ≤ 32
  pub each_fits : All FitsCall p.active_group_calls

-- A heartbeat is accepted exactly when it has protocol version 2, a client version of at most 64
-- bytes, a valid profile, and at most 32 calls, each within the limits of an advertisement.
pub validate_iff : (p : StatusPacket) → (validate p ≡ none) ↔ FitsPacket p
unfolding validate
validate_iff p = (
  λ h. record {
    version_two = ground arith;
    client_version_fits = ground arith;
    profile_fits = ground arith;
    calls_fit = ground arith;
    each_fits = All-fit p.active_group_calls (ground arith);
  },
  λ v. ground (arith, none_too_large p.active_group_calls v.each_fits),
)
