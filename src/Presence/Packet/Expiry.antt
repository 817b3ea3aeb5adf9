-- ===== src/Presence/Packet/Expiry.antt =====
-- How long a group call is advertised.
use wire_app.Common.{◌≡◌, true, arith}
use wire_app.Common.Int.{ℤ, ◌≤ℤ◌, saturating_sub}
use wire_app.Presence.Packet.{GroupCallAnnouncement, group_call_is_advertisable}

-- A call that is no longer advertised is not advertised later on either, while the clock does not
-- run backwards. No bound on the times is assumed: the subtraction saturates.
pub advertisable_mono :
    (call : GroupCallAnnouncement) (now later : ℤ)
    → now ≤ℤ later
    → group_call_is_advertisable later call ≡ true
    → group_call_is_advertisable now call ≡ true
unfolding group_call_is_advertisable saturating_sub
advertisable_mono call now later h adv = ground arith
