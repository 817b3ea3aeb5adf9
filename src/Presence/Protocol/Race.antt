-- ===== src/Presence/Protocol/Race.antt =====
-- Probes against inbound packets.
use wire_app.Common.Set
use wire_app.Common.{
  ap, ◌∙◌, ◌≡◌, ◌≢◌, ◌<◌, refl, true, ◌++◌, [], ◌∷◌, Option, none, some, arith, Text, text_eq,
  text_eq_iff, text_eq_refl, if◌then◌else◌, u64_mod, Bool-cases, inl, inr,
}
use wire_app.Common.Int.{ℤ}
use wire_app.Common.Map.{get-insert}
use wire_app.Common.Map
use wire_app.Presence.Health.{ProbeHealth, begin, succeeded, failed, observed_inbound}
use wire_app.Presence.Health.Stale.{next_generation-ne, next_generation-lt}
use wire_app.Presence.Packet.{StatusPacket, validate}
use wire_app.Presence.Protocol.{
  Protocol, Probe, health, finish_with, probe_finished, exchange_result, begin_probe, accept,
  update_of, receive,
}

health-insert :
    (k j : Text) (h : ProbeHealth) (s : Protocol)
    → health j (record s { probe_health = Map.insert k h s.probe_health })
      ≡ (if text_eq k j then h else health j s)
health-insert k j h s = ground (arith, get-insert j k h s.probe_health)

-- Writing back the health that a peer has changes no peer's health.
health-insert_same :
    (k j : Text) (s : Protocol)
    → health j (record s { probe_health = Map.insert k (health k s) s.probe_health }) ≡ health j s
health-insert_same k j s = rw (health-insert k j (health k s) s) (elim (Bool-cases (text_eq k j)) [
  | inl e ↦ rw e (ap (λ x. health x s) ((text_eq_iff k j).0 e))
  | inr e ↦ rw e
])

finish_stale :
    (s : Protocol) (probe : Probe) (result : Option StatusPacket)
    → probe.generation ≢ (health probe.peer s).generation
    → (finish_with s probe result
        ≡ record s { probe_health = Map.insert probe.peer (health probe.peer s) s.probe_health })
unfolding finish_with succeeded failed
finish_stale s probe none ne = ground arith
finish_stale s probe (some p) ne = ground arith

-- A probe whose generation is no longer its peer's has no effect when it ends, whether it got a
-- response or not: no update is sent, and the health of every peer stays as it is.
pub stale_probe_ignored :
    (s : Protocol) (probe : Probe) (response : Option StatusPacket)
    → probe.generation ≢ (health probe.peer s).generation
    → let t = probe_finished s probe response in
      (t.updates ≡ s.updates) × ((peer : Text) → health peer t ≡ health peer s)
unfolding probe_finished
stale_probe_ignored s probe response ne =
    let e = finish_stale s probe (exchange_result response) ne in
    (
      ap (λ (t : Protocol). t.updates) e,
      λ peer. ap (health peer) e ∙ health-insert_same probe.peer peer s,
    )

accept-health :
    (app_version : Text) (s : Protocol) (peer : Text) (now : ℤ) (p : StatusPacket)
    → Set.contains peer s.allowed_peers ≡ true
    → validate p ≡ none
    → let t = (accept app_version s peer now (some p)).0 in
      (t.updates ≡ s.updates ++ update_of peer p ∷ [])
      × (health peer t ≡ observed_inbound (health peer s))
unfolding accept
accept-health app_version s peer now p known valid =
    rw (known, valid, receive)
      (refl, health-insert peer peer (observed_inbound (health peer s)) s ∙ rw (text_eq_refl peer))

begin_probe-generation :
    (app_version : Text) (s : Protocol) (peer : Text) (now : ℤ)
    → let (t, probe) = begin_probe app_version s peer now in
      (health peer t).generation ≡ probe.generation
unfolding begin_probe begin
begin_probe-generation app_version s peer now =
    rw (health-insert peer peer (begin (health peer s)).0 s, text_eq_refl peer)

begin_probe-lt :
    (app_version : Text) (s : Protocol) (peer : Text) (now : ℤ)
    → (begin_probe app_version s peer now).1.generation < u64_mod
unfolding begin_probe begin
begin_probe-lt app_version s peer now = next_generation-lt (health peer s).generation

observed-ne :
    (h : ProbeHealth) → h.generation < u64_mod → h.generation ≢ (observed_inbound h).generation
unfolding observed_inbound
observed-ne h = next_generation-ne h.generation

-- A probe is under way, and a valid packet of its peer comes in: whatever becomes of the probe
-- later, even a failure, the only update is the one of that packet, and no peer's health changes.
pub inbound_beats_probe :
    (app_version : Text) (s : Protocol) (peer : Text) (before now : ℤ)
    → (packet : StatusPacket) (response : Option StatusPacket)
    → Set.contains peer s.allowed_peers ≡ true
    → validate packet ≡ none
    → let (probing, probe) = begin_probe app_version s peer before in
      let heard = (accept app_version probing peer now (some packet)).0 in
      let t = probe_finished heard probe response in
      (t.updates ≡ s.updates ++ update_of peer packet ∷ [])
      × ((other : Text) → health other t ≡ health other heard)
unfolding begin_probe
inbound_beats_probe app_version s peer before now packet response known valid =
    let (probing, probe) = begin_probe app_version s peer before in
    let (sent, seen) = accept-health app_version probing peer now packet known valid in
    let same = begin_probe-generation app_version s peer before in
    let small = begin_probe-lt app_version s peer before in
    let heard = (accept app_version probing peer now (some packet)).0 in
    let fresh : probe.generation ≢ (health peer heard).generation =
      rw (seen, ← same) (observed-ne (health peer probing) (rw same small)) in
    let (quiet, still) = stale_probe_ignored heard probe response fresh in (quiet ∙ sent, still)
