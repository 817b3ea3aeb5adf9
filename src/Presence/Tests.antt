-- ===== src/Presence/Tests.antt =====
-- Runs of the presence code, and its theorems at concrete inputs.
use wire_app.Common.{
  ◌≡◌, refl, ◌↔◌, ◌≤◌, ◌+◌, ◌*◌, ◌++◌, true, false, Bool, List, [], ◌∷◌, none, some, Option, arith,
  Text, text, ℕ, length,
}
use wire_app.Common.Int.{pos}
use wire_app.Common.Set
use wire_app.Profile
use wire_app.Profile.{ProfileSnapshot}
use wire_app.Presence.Health.{ProbeHealth, default, begin, failed, observed_inbound}
use wire_app.Presence.Health.Outage.{
  Event, begins, inbound, fails, reports, contacts, failures, reports_bounded, step,
}
use wire_app.Presence.Packet.{
  Availability, online, GroupCallAnnouncement, StatusPacket, group_call_is_advertisable, validate,
  new_packet,
}
use wire_app.Presence.Protocol.{
  Protocol, Probe, accept, begin_probe, probe_finished, health, update_of, empty_profile,
}
use wire_app.Presence.Protocol.Gate.{Outcome, accept-Outcome}
use wire_app.Presence.Protocol.Race.{inbound_beats_probe}

abbrev failing : ProbeHealth
failing = record { generation = 4; consecutive_failures = 1; offline_emitted = false }

abbrev flapping : List Event
flapping =
    begins
    ∷ fails 1
    ∷ begins
    ∷ fails 1
    ∷ fails 2
    ∷ begins
    ∷ fails 3
    ∷ inbound
    ∷ begins
    ∷ fails 5
    ∷ []

one_report : reports default flapping ≡ 1
unfolding reports step default begin failed observed_inbound
one_report = refl

reports_bounded_example :
    (reports default flapping ≤ 1 + contacts default flapping)
    × (3 * reports default flapping ≤ failures default flapping)
reports_bounded_example = reports_bounded flapping

abbrev call : GroupCallAnnouncement
call = record {
  call_id = text "call";
  conversation_id = text "group";
  title = text "Group";
  initiator = text "peer";
  started_at_ms = pos 1;
  ended_at_ms = some (pos 5000);
  participants = text "peer" ∷ [];
}

abbrev packet : StatusPacket
packet = record {
  protocol_version = 2;
  availability = online;
  client_version = text "0.4.7";
  active_group_calls = call ∷ [];
  display_name = none;
  avatar_hash = none;
  accent_color = none;
}

packet_valid : validate packet ≡ none
unfolding validate Profile.validate wire_app.Presence.Packet.call_too_large
packet_valid = refl

-- A coding of one kind of packet, which writes a single byte.
abbrev to_vec : ℕ → Option (List ℕ)
to_vec n = some (n ∷ [])

abbrev from_slice : List ℕ → Option ℕ
from_slice [] = none
from_slice (n ∷ s) = some n

abbrev saved : Protocol
saved = record {
  allowed_peers = text "ada" ∷ [];
  active_group_calls = call ∷ [];
  own_profile = empty_profile;
  probe_health = [];
  updates = [];
}

accept-Outcome_example :
    let (t, r) = accept (text "0.4.7") saved (text "eve") (pos 0) (some packet) in
    Outcome (text "0.4.7") saved (text "eve") (pos 0) (some packet) t r
accept-Outcome_example = accept-Outcome (text "0.4.7") saved (text "eve") (pos 0) (some packet)

ada_known : Set.contains (text "ada") saved.allowed_peers ≡ true
unfolding Set.contains wire_app.Common.text_eq
ada_known = refl

inbound_beats_probe_example :
    let (probing, probe) = begin_probe (text "0.4.7") saved (text "ada") (pos 0) in
    let heard = (accept (text "0.4.7") probing (text "ada") (pos 9) (some packet)).0 in
    let t = probe_finished heard probe none in
    (t.updates ≡ [] ++ update_of (text "ada") packet ∷ [])
    × ((other : Text) → health other t ≡ health other heard)
inbound_beats_probe_example =
    inbound_beats_probe (text "0.4.7") saved (text "ada") (pos 0) (pos 9) packet none ada_known
      packet_valid

abbrev old_probe : Probe
old_probe = record { peer = text "ada"; generation = 9; request = packet }
