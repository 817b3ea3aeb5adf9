-- ===== src/Presence/Protocol/Gate.antt =====
-- Who can change what this client believes, and who learns anything of it.
use wire_app.Common.{
  ◌≡◌, refl, Bool, true, false, [], ◌∷◌, ◌++◌, Option, none, some, Text, text_eq, if◌then◌else◌,
  arith,
}
use wire_app.Common.Int.{ℤ}
use wire_app.Common.Map.{get-insert}
use wire_app.Common.Set
use wire_app.Presence.Health.{observed_inbound}
use wire_app.Presence.Packet.{StatusPacket, PacketError, validate, new_packet, online}
use wire_app.Presence.Protocol.{
  Protocol, Reply, stranger, unreadable, invalid, replied, receive, read, update_of, advertised,
  health, accept,
}

-- How a connection ends, by who it is from and what was read on it.
pub data Outcome (app_version : Text) (s : Protocol) (peer : Text) (now : ℤ)
    (packet : Option StatusPacket) (t : Protocol) (r : Reply) : Type 0 where
  unknown :
      Set.contains peer s.allowed_peers ≡ false
      → t ≡ s
      → r ≡ stranger
      → Outcome app_version s peer now packet t r
  garbled :
      Set.contains peer s.allowed_peers ≡ true
      → packet ≡ none
      → t ≡ s
      → r ≡ unreadable
      → Outcome app_version s peer now packet t r
  denied :
      (p : StatusPacket) (e : PacketError)
      → Set.contains peer s.allowed_peers ≡ true
      → packet ≡ some p
      → validate p ≡ some e
      → t ≡ s
      → r ≡ invalid e
      → Outcome app_version s peer now packet t r
  accepted :
      (p : StatusPacket)
      → Set.contains peer s.allowed_peers ≡ true
      → packet ≡ some p
      → validate p ≡ none
      → t.updates ≡ s.updates ++ update_of peer p ∷ []
      → ((other : Text)
          → health other t
            ≡ (if text_eq peer other then observed_inbound (health peer s) else health other s))
      → t.allowed_peers ≡ s.allowed_peers
      → t.own_profile ≡ s.own_profile
      → t.active_group_calls ≡ s.active_group_calls
      → r ≡ replied (new_packet app_version online (advertised now s) s.own_profile)
      → Outcome app_version s peer now packet t r

module _ (app_version : Text) (s : Protocol) (peer : Text) (now : ℤ) where
  receive-Outcome :
      (p : StatusPacket) (e : Option PacketError)
      → Set.contains peer s.allowed_peers ≡ true
      → validate p ≡ e
      → let (t, r) = receive app_version s peer now p e in
        Outcome app_version s peer now (some p) t r
  unfolding receive
  receive-Outcome p (some e) known v = denied p e known refl v refl refl
  receive-Outcome p none known v =
      accepted p known refl v refl
        (λ other.
          ground (arith, get-insert other peer (observed_inbound (health peer s)) s.probe_health))
        refl refl refl refl

  read-Outcome :
      (packet : Option StatusPacket)
      → Set.contains peer s.allowed_peers ≡ true
      → let (t, r) = read app_version s peer now packet in Outcome app_version s peer now packet t r
  unfolding read
  read-Outcome none known = garbled known refl refl refl
  read-Outcome (some p) known = receive-Outcome p (validate p) known refl

  accept_cases :
      (packet : Option StatusPacket) (b : Bool)
      → Set.contains peer s.allowed_peers ≡ b
      → let (t, r) = (if b then read app_version s peer now packet else (s, stranger)) in
        Outcome app_version s peer now packet t r
  accept_cases packet true known = read-Outcome packet known
  accept_cases packet false known = unknown known refl refl

-- A connection from a peer that is not a saved contact changes nothing and is told nothing, and so
-- does one of a contact with an unreadable or an invalid packet. A contact's valid packet adds one
-- update made of it, counts as contact for the health of this peer and of no other, changes nothing
-- else, and is answered with the own profile and the calls that may be advertised at that time.
pub accept-Outcome :
    (app_version : Text) (s : Protocol) (peer : Text) (now : ℤ) (packet : Option StatusPacket)
    → let (t, r) = accept app_version s peer now packet in Outcome app_version s peer now packet t r
unfolding accept
accept-Outcome app_version s peer now packet = accept_cases app_version s peer now packet _ refl
