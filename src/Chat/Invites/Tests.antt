-- ===== src/Chat/Invites/Tests.antt =====
-- Invitations at concrete inputs.
use wire_app.Common.{
  ℕ, ◌≡◌, refl, Bool, true, false, ◌||◌, not, List, [], ◌∷◌, ◌++◌, none, some, arith, Text, text,
  text_eq, text_lt, if◌then◌else◌,
}
use wire_app.Common.Int.{pos}
use wire_app.Common.Map.{get, is_some}
use wire_app.Chat.Records.{ConversationKind, ChatConversation, ChatInvite}
use wire_app.Chat.Service.{ChatService, Task, save_control, control_ack}
use wire_app.Chat.Attachments.{Answers}
use wire_app.Chat.Tests.{service, talk}
use wire_app.Chat.Invites.{
  Documents, refused, accept_invite, process_invite, direct_conversation_id,
}
use wire_app.Chat.Invites.Replica.{replica, best, accept_invite-replica}
use wire_app.Chat.Invites.Convergence.{
  Arrivals, accept_each, offers, same_offer, accept_each-converges,
}
use wire_app.Chat.Invites.History.{acceptance, process_invite_cancels}

-- An empty document, and libraries that do what they are asked.
abbrev answers : Answers
answers = record {
  now = 100;
  wall = pos 1;
  library = record {
    open_doc = λ ticket id. some (record {
      messages = λ limit. some [];
      deletions = some [];
      file_receipts = some [];
      file_sharing = some [];
    });
    message_of = λ t. none;
    deletion_of = λ t. none;
    file_receipt_of = λ t. none;
    sharing_of = λ t. none;
  };
  author = text "A";
  hash_of = λ t. some t;
  ticket_nodes = λ t. [];
  starts_sync = true;
  subscribes = true;
  has_blob = λ h. some true;
  reopens = true;
  wrote = λ key. true;
  receipts = λ author. some [];
  receipt_of = λ t. none;
}

abbrev docs : Documents
docs = record {
  is_ticket = λ t. true;
  answers = answers;
  index_saved = true;
  inserted = λ m. true;
  deletion_inserted = λ m. true;
}

abbrev group_talk : ℕ → Text → ChatConversation
group_talk epoch document = record talk.conversation {
  kind = ConversationKind.group;
  document_id = document;
  history_epoch = epoch;
}

abbrev invite : ℕ → Text → ChatInvite
invite epoch document = record {
  version = 1;
  conversation = group_talk epoch document;
  ticket = text "ticket";
  client_version = none;
  inviter_display_name = none;
  inviter_avatar_hash = none;
  inviter_accent_color = none;
}

abbrev node : Text → ℕ → Text → ChatService
node own epoch document = record service {
  our_node_id = own;
  conversations =
      (text "c", record { conversation = group_talk epoch document; ticket = text "ticket" }) ∷ [];
}

direct_ids : direct_conversation_id (text "me") (text "bob") ≡ text "dm/bob/me"
unfolding direct_conversation_id text_lt
direct_ids = refl

accept_invite-replica_example :
    replica
      (text "c")
      (accept_invite (node (text "me") 1 (text "d")) docs (text "bob") (invite 1 (text "a"))).1
    ≡ (if is_some (refused (node (text "me") 1 (text "d")) docs (text "bob") (invite 1 (text "a")))
          || not (text_eq (text "c") (text "c"))
        then replica (text "c") (node (text "me") 1 (text "d"))
        else some (best (replica (text "c") (node (text "me") 1 (text "d"))) (1, text "a")))
accept_invite-replica_example =
    accept_invite-replica (node (text "me") 1 (text "d")) docs (text "bob") (invite 1 (text "a"))
      (text "c")

abbrev at_me : Arrivals
at_me = (docs, text "bob", invite 1 (text "a")) ∷ (docs, text "bob", invite 1 (text "b")) ∷ []

abbrev at_bob : Arrivals
at_bob =
    (docs, text "me", invite 1 (text "b"))
    ∷ (docs, text "me", invite 1 (text "a"))
    ∷ (record docs { index_saved = false }, text "me", invite 1 (text "b"))
    ∷ []

or_again : (p q : Bool) → (p || (q || false)) ≡ (q || (p || (q || false)))
or_again p q = ground arith

accept_each-converges_example :
    replica (text "c") (accept_each (node (text "me") 0 (text "d")) at_me)
    ≡ replica (text "c") (accept_each (node (text "bob") 0 (text "d")) at_bob)
accept_each-converges_example =
    accept_each-converges (node (text "me") 0 (text "d")) (node (text "bob") 0 (text "d"))
      (text "c") at_me at_bob (unfold replica get in refl)
      (unfold offers refused text_eq in
        λ o. or_again (same_offer o (1, text "a")) (same_offer o (1, text "b")))

-- Two messages wait, one of each conversation.
abbrev waiting : ChatService
waiting = record service { pending_deliveries = (text "m1", text "c") ∷ (text "m2", text "d") ∷ [] }

-- An open invitation of epoch 2 that bob has not answered.
abbrev inviting : ChatService
inviting = record (node (text "me") 2 (text "d")) {
  reliable_control = record service.reliable_control {
    invites = (text "c", record { history_epoch = 2; pending_peers = text "bob" ∷ [] }) ∷ [];
  };
}

process_invite_cancels_example :
    let done = process_invite inviting docs 100 (pos 1) (text "bob") (invite 1 (text "e")) in
    (done.0 ≡ none)
    × (done.1.conversations ≡ inviting.conversations)
    × ((d : Text)
        → get d done.1.reliable_control.invites ≡ (
            if text_eq (text "c") d
            then some (record { history_epoch = 1; pending_peers = [] })
            else get d inviting.reliable_control.invites))
    × (more : List Task) × (done.1.tasks
        ≡ inviting.tasks
          ++ save_control ∷ control_ack (text "c") (text "bob") (acceptance 1) ∷ more)
process_invite_cancels_example =
    process_invite_cancels inviting docs 100 (pos 1) (text "bob") (invite 1 (text "e"))
      (record { conversation = group_talk 2 (text "d"); ticket = text "ticket" })
      (unfold refused text_eq in refl) (unfold get text_eq in refl) (omega arith)
