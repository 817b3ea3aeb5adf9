-- ===== src/Chat/Control/Tests.antt =====
-- The reliable control queue at concrete inputs.
use wire_app.Common.{
  ◌≡◌, ◌&&◌, if◌then◌else◌, refl, true, false, [], ◌∷◌, none, some, Option, Text, text,
}
use wire_app.Common.Int.{pos}
use wire_app.Common.Map.{get, contains_key}
use wire_app.Common.Set
use wire_app.Chat.Records.{ReplicatedDeletion, SyncRequest}
use wire_app.Chat.Service.{ChatService, conversation_peer_strings, other_members, other_nodes}
use wire_app.Chat.Tests.{service, m1}
use wire_app.Chat.Control.{
  or_default, apply_control_acks, register_deletion_delivery, schedule_control_retry,
  conversation_has_pending_control, attachment_peers, deletion_peers,
}
use wire_app.Chat.Control.Retry.{control_attempted, retry_due_controls}
use wire_app.Chat.Control.Acks.{awaits, apply_control_acks-awaits}

abbrev deletion : ReplicatedDeletion
deletion = record { version = 1; message_id = m1; deleted_at = pos 4_000 }

abbrev bob_waits : ChatService
bob_waits = record service {
  reliable_control = record {
    attachments = [];
    deletions =
        (text "c", (m1, record { deletion = deletion; pending_peers = text "bob" ∷ [] }) ∷ []) ∷ [];
    invites = [];
  };
}

registered :
    (register_deletion_delivery service 10 (text "c") deletion).reliable_control
    ≡ bob_waits.reliable_control
unfolding register_deletion_delivery schedule_control_retry conversation_peer_strings other_members
    other_nodes get wire_app.Common.Map.insert wire_app.Common.Set.insert wire_app.Common.text_eq
registered = refl

abbrev acks : SyncRequest
acks = record {
  kind = text "sync";
  version = 1;
  conversation_id = text "c";
  ticket = none;
  client_version = none;
  messages = [];
  receipts = [];
  deletions = [];
  attachment_acks = [];
  deletion_acks = m1 ∷ [];
  accepted_history_epoch = none;
}

apply_control_acks-awaits_example :
    let after = (apply_control_acks bob_waits (text "c") (text "bob") acks).reliable_control in
    (awaits attachment_peers (text "bob") (get m1 (or_default (get (text "c") after.attachments)))
      ≡ false)
    × (awaits deletion_peers (text "bob") (get m1 (or_default (get (text "c") after.deletions)))
        ≡ false)
unfolding get Set.contains wire_app.Common.text_eq
apply_control_acks-awaits_example =
    apply_control_acks-awaits bob_waits (text "c") (text "bob") acks (text "c") m1 (text "bob") tt
      (refl, tt)

abbrev bob_due : ChatService
bob_due = record bob_waits {
  control_retries = (text "c", record { attempts = 2; next_attempt = 40 }) ∷ [];
}

retried :
    get (text "c") (retry_due_controls bob_due 50 (pos 5_000)).control_retries
    ≡ some (control_attempted 50 (text "c") (record { attempts = 2; next_attempt = 40 }))
unfolding retry_due_controls conversation_has_pending_control get wire_app.Common.text_eq
    wire_app.Common.Map.alter wire_app.Chat.Service.spawn_wake wire_app.Chat.Service.spawn_wake_with
    other_members other_nodes
retried = refl
