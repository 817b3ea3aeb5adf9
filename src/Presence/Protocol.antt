-- ===== src/Presence/Protocol.antt =====
-- `ClientStatusProtocol` and `AllowedPeers`. A node id stands as its text. The state is what the
-- locks guard, with the updates sent on the channel, oldest first; a full channel makes a sender
-- wait, which loses nothing. A spawned probe is a value that finishes in a later step, so that any
-- interleaving of probes and inbound packets is a sequence of these operations.
pub mod Gate
pub mod Race
use wire_app.Common.{
  ℕ, Bool, true, false, List, [], ◌∷◌, ◌++◌, Option, none, some, Text, if◌then◌else◌, keep_if, map,
}
use wire_app.Common.Int.{ℤ}
use wire_app.Common.Map.{Map}
use wire_app.Common.Map
use wire_app.Common.Set.{Set}
use wire_app.Common.Set
use wire_app.Profile.{ProfileSnapshot}
use wire_app.Presence.Health.{ProbeHealth, default, begin, succeeded, failed, observed_inbound}
use wire_app.Presence.Packet.{
  Availability, online, offline, GroupCallAnnouncement, StatusPacket, group_call_is_advertisable,
  new_packet, profile_of, validate, PacketError,
}

pub record StatusUpdate : Type 0 where
  pub peer : Text
  pub availability : Availability
  pub client_version : Option Text
  pub active_group_calls : List GroupCallAnnouncement
  pub profile : ProfileSnapshot

pub record Protocol : Type 0 where
  pub allowed_peers : Set
  pub active_group_calls : List GroupCallAnnouncement
  pub own_profile : ProfileSnapshot
  pub probe_health : Map ProbeHealth
  pub updates : List StatusUpdate

abbrev pub empty_profile : ProfileSnapshot
empty_profile = record { display_name = none; avatar_hash = none; accent_color = none }

unfoldable pub new : Set → Protocol
new allowed = record {
  allowed_peers = allowed;
  active_group_calls = [];
  own_profile = empty_profile;
  probe_health = [];
  updates = [];
}

-- `AllowedPeers::replace`.
unfoldable pub replace_peers : Protocol → Set → Protocol
replace_peers s peers = record s { allowed_peers = peers }

unfoldable pub set_own_profile : Protocol → ProfileSnapshot → Protocol
set_own_profile s profile = record s { own_profile = profile }

unfoldable pub set_active_group_calls : Protocol → List GroupCallAnnouncement → Protocol
set_active_group_calls s calls = record s { active_group_calls = calls }

-- `active_group_calls()` at the clock reading `now`.
abbrev pub advertised : ℤ → Protocol → List GroupCallAnnouncement
advertised now s = keep_if (group_call_is_advertisable now) s.active_group_calls

-- `entry(peer).or_default()`.
abbrev pub health : Text → Protocol → ProbeHealth
health peer s = elim (Map.get peer s.probe_health) [ none ↦ default | some h ↦ h ]

abbrev put_health : Text → ProbeHealth → Protocol → Protocol
put_health peer h s = record s { probe_health = Map.insert peer h s.probe_health }

abbrev push_update : StatusUpdate → Protocol → Protocol
push_update u s = record s { updates = s.updates ++ u ∷ [] }

abbrev pub update_of : Text → StatusPacket → StatusUpdate
update_of peer p = record {
  peer = peer;
  availability = p.availability;
  client_version = some p.client_version;
  active_group_calls = p.active_group_calls;
  profile = profile_of p;
}

abbrev pub offline_update : Text → StatusUpdate
offline_update peer = record {
  peer = peer;
  availability = offline;
  client_version = none;
  active_group_calls = [];
  profile = empty_profile;
}

-- A probe under way: its peer, its generation and what it sends.
pub record Probe : Type 0 where
  pub peer : Text
  pub generation : ℕ
  pub request : StatusPacket

-- What `accept` does about a connection.
pub data Reply : Type 0 where
  stranger unreadable : Reply
  invalid : PacketError → Reply
  replied : StatusPacket → Reply

abbrev keep_valid : StatusPacket → Option PacketError → Option StatusPacket
keep_valid p none = some p
keep_valid p (some e) = none

-- The end of `exchange`: the response counts only if it is valid.
unfoldable pub exchange_result : Option StatusPacket → Option StatusPacket
exchange_result none = none
exchange_result (some p) = keep_valid p (validate p)

-- A probe has ended with this result; the code behind `exchange` in `announce_online`.
finish_with : Protocol → Probe → Option StatusPacket → Protocol
finish_with s probe (some p) =
    let (h, current) = succeeded (health probe.peer s) probe.generation in
    let s' = put_health probe.peer h s in
    if current then push_update (update_of probe.peer p) s' else s'
finish_with s probe none =
    let (h, confirmed_offline) = failed (health probe.peer s) probe.generation in
    let s' = put_health probe.peer h s in
    if confirmed_offline then push_update (offline_update probe.peer) s' else s'

unfoldable pub probe_finished : Protocol → Probe → Option StatusPacket → Protocol
unfolding finish_with exchange_result
probe_finished s probe response = finish_with s probe (exchange_result response)

-- The running build's version.
module _ (app_version : Text) where
  abbrev own_packet : ℤ → Protocol → StatusPacket
  own_packet now s = new_packet app_version online (advertised now s) s.own_profile

  -- One round of the loop in `announce_online`, at the clock reading `now`.
  unfoldable pub begin_probe : Protocol → Text → ℤ → Protocol × Probe
  begin_probe s peer now =
      let (h, generation) = begin (health peer s) in
      (
        put_health peer h s,
        record { peer = peer; generation = generation; request = own_packet now s },
      )

  -- `announce_online`; each peer comes with the clock reading of its round.
  unfoldable pub announce_online : Protocol → List (Text × ℤ) → Protocol × List Probe
  announce_online s [] = (s, [])
  announce_online s ((peer, now) ∷ peers) =
      let (s', probe) = begin_probe s peer now in
      let (s'', probes) = announce_online s' peers in (s'', probe ∷ probes)

  -- `refresh_allowed_peers`; `clock` gives the reading in each contact's round.
  unfoldable pub refresh_allowed_peers : Protocol → (Text → ℤ) → Protocol × List Probe
  refresh_allowed_peers s clock =
      announce_online s (map (λ peer. (peer, clock peer)) s.allowed_peers)

  -- `broadcast_offline`: what is sent to whom.
  unfoldable pub broadcast_offline : Protocol → List (Text × StatusPacket)
  broadcast_offline s =
      map (λ peer. (peer, new_packet app_version offline [] s.own_profile)) s.allowed_peers

  receive : Protocol → Text → ℤ → StatusPacket → Option PacketError → Protocol × Reply
  receive s peer now p (some e) = (s, invalid e)
  receive s peer now p none =
      let s' =
        push_update (update_of peer p) (put_health peer (observed_inbound (health peer s)) s) in
      (s', replied (own_packet now s'))

  read : Protocol → Text → ℤ → Option StatusPacket → Protocol × Reply
  unfolding receive
  read s peer now none = (s, unreadable)
  read s peer now (some p) = receive s peer now p (validate p)

  -- `accept`: a connection from `peer`, on which `read_packet` gives `packet`. The time `now` is
  -- the clock reading at the answer.
  unfoldable pub accept : Protocol → Text → ℤ → Option StatusPacket → Protocol × Reply
  unfolding read
  accept s peer now packet =
      if Set.contains peer s.allowed_peers then read s peer now packet else (s, stranger)
