-- ===== src/Notifications.antt =====
-- `NotificationStore` in wire-app/src/notifications.rs: the groups on the screen, those that wait,
-- and the commands that change them. Instants are milliseconds. What only the drawing reads has no
-- counterpart: heights, `render_y`, `last_frame`, and `buttons` beyond their storing.
pub mod Groups
pub mod Valid
pub mod Runs
pub mod Settled
pub mod Leaving
mod Tests
use wire_app.Common.{
  ℕ, zero, suc, ◌+◌, ◌-◌, Bool, true, false, not, ◌&&◌, ltb, leb, ◌==◌, if◌then◌else◌, List, [],
  ◌∷◌, ◌++◌, map, Option, none, some, length, keep_if, Text, text_eq,
}

abbrev pub leave_time : ℕ
leave_time = 320

abbrev pub group_window : ℕ
group_window = 30_000

abbrev pub max_visible : ℕ
max_visible = 4

abbrev pub max_fused_rows : ℕ
max_fused_rows = 4

pub data Kind : Type 0 where
  message incoming_call transfer success error info : Kind

abbrev pub kind_eq : Kind → Kind → Bool
kind_eq message message = true
kind_eq incoming_call incoming_call = true
kind_eq transfer transfer = true
kind_eq success success = true
kind_eq error error = true
kind_eq info info = true
kind_eq _ _ = false

unfoldable pub default_lifetime : Kind → Option ℕ
default_lifetime message = some 7_000
default_lifetime incoming_call = none
default_lifetime transfer = none
default_lifetime success = some 5_000
default_lifetime error = some 9_000
default_lifetime info = some 6_000

abbrev pub can_fuse : Kind → Bool
can_fuse message = true
can_fuse _ = false

pub record Progress : Type 0 where
  pub current : ℕ
  pub total : ℕ

pub data Action : Type 0 where
  open_conversation : Text → Action
  open_calls : Action
  accept_call decline_call : Text → Action
  open_recordings_folder : Action

pub record Button : Type 0 where
  pub label : Text
  pub action : Action
  pub emphasized : Bool

pub record Entry : Type 0 where
  pub title : Text
  pub body : Text
  pub progress : Option Progress
  pub action : Option Action

pub record Group : Type 0 where
  pub id : ℕ
  pub key : Option Text
  pub kind : Kind
  pub entries : List Entry
  pub hidden_entries : ℕ
  pub buttons : List Button
  pub created_at : ℕ
  pub expires_at : Option ℕ
  pub leaving_at : Option ℕ

-- `visible` and `pending` from their front.
pub record Store : Type 0 where
  pub visible : List Group
  pub pending : List Group
  pub next_id : ℕ

pub record Spec : Type 0 where
  pub group_key : Option Text
  pub kind : Kind
  pub title : Text
  pub body : Text
  pub progress : Option Progress
  pub action : Option Action
  pub buttons : List Button

abbrev pub empty_store : Store
empty_store = record { visible = []; pending = []; next_id = 1 }

abbrev pub entry_of : Spec → Entry
entry_of spec = record {
  title = spec.title;
  body = spec.body;
  progress = spec.progress;
  action = spec.action;
}

abbrev pub key_eq : Option Text → Option Text → Bool
key_eq none none = true
key_eq (some a) (some b) = text_eq a b
key_eq _ _ = false

abbrev pub is_none : Option ℕ → Bool
is_none none = true
is_none (some n) = false

-- `now + life`, where the kind has a lifetime.
abbrev pub expiry : ℕ → Option ℕ → Option ℕ
expiry now none = none
expiry now (some life) = some (now + life)

abbrev pub behind : Group → Option (List Group) → Option (List Group)
behind g none = none
behind g (some gs) = some (g ∷ gs)

-- `iter_mut().find(p)`, and the change of what it finds.
abbrev pub update_first : (Group → Bool) → (Group → Group) → List Group → Option (List Group)
update_first p f [] = none
update_first p f (g ∷ gs) =
    let rest = update_first p f gs in if p g then some (f g ∷ gs) else behind g rest

abbrev pub pop_back : {A : Type 0} → List A → List A
pop_back [] = []
pop_back (x ∷ []) = []
pop_back (x ∷ y ∷ ys) = x ∷ pop_back (y ∷ ys)

-- A group that takes another message of its conversation.
abbrev pub fuses_with : Text → Kind → ℕ → Group → Bool
fuses_with key kind now g =
    key_eq g.key (some key)
    && kind_eq g.kind kind
    && leb (now - g.created_at) group_window
    && is_none g.leaving_at

unfoldable pub fused : Spec → ℕ → Group → Group
unfolding default_lifetime
fused spec now g =
    let entries = entry_of spec ∷ g.entries in
    let full = ltb max_fused_rows (length entries) in
    record g {
      entries = if full then pop_back entries else entries;
      hidden_entries = if full then g.hidden_entries + 1 else g.hidden_entries;
      created_at = now;
      expires_at = expiry now (default_lifetime spec.kind);
    }

unfoldable pub new_group : ℕ → Spec → ℕ → Group
unfolding default_lifetime
new_group id spec now = record {
  id = id;
  key = spec.group_key;
  kind = spec.kind;
  entries = entry_of spec ∷ [];
  hidden_entries = 0;
  buttons = spec.buttons;
  created_at = now;
  expires_at = expiry now (default_lifetime spec.kind);
  leaving_at = none;
}

-- The part of `push` that gives the group a number and a place.
unfoldable pub add_group : Spec → ℕ → Store → Store
unfolding new_group
add_group spec now s =
    let g = new_group s.next_id spec now in
    if ltb (length s.visible) max_visible
    then record s { visible = g ∷ s.visible; next_id = s.next_id + 1 }
    else record s { pending = s.pending ++ g ∷ []; next_id = s.next_id + 1 }

abbrev pub fuse_visible : Spec → ℕ → Option Text → List Group → Option (List Group)
fuse_visible spec now none gs = none
fuse_visible spec now (some key) gs =
    update_first (fuses_with key spec.kind now) (fused spec now) gs

unfoldable pub with_visible : Option (List Group) → Store → Store → Store
with_visible (some gs) s other = record s { visible = gs }
with_visible none s other = other

unfoldable pub push : Spec → ℕ → Store → Store
unfolding add_group with_visible fused
push spec now s =
    if can_fuse spec.kind
    then with_visible (fuse_visible spec now spec.group_key s.visible) s (add_group spec now s)
    else add_group spec now s

abbrev pub is_transfer_of : Option Text → Group → Bool
is_transfer_of key g = key_eq g.key key && kind_eq g.kind transfer

unfoldable pub updated_transfer : Spec → Group → Group
updated_transfer spec g = record g {
  entries = entry_of spec ∷ [];
  buttons = spec.buttons;
  expires_at = none;
  leaving_at = none;
}

unfoldable pub with_pending : Option (List Group) → Store → Store → Store
with_pending (some gs) s other = record s { pending = gs }
with_pending none s other = other

unfoldable pub upsert_transfer : Spec → ℕ → Store → Store
unfolding push with_visible with_pending updated_transfer
upsert_transfer spec now s =
    let change = update_first (is_transfer_of spec.group_key) (updated_transfer spec) in
    with_visible (change s.visible) s (with_pending (change s.pending) s (push spec now s))

abbrev pub leave : ℕ → Group → Group
leave now g = if is_none g.leaving_at then record g { leaving_at = some now } else g

unfoldable pub dismiss_key : Text → ℕ → Store → Store
dismiss_key key now s = record s {
  visible = map (λ g. if key_eq g.key (some key) then leave now g else g) s.visible;
  pending = keep_if (λ g. not (key_eq g.key (some key))) s.pending;
}

unfoldable pub dismiss_id : ℕ → ℕ → Store → Store
unfolding with_visible
dismiss_id id now s = with_visible (update_first (λ g. g.id == id) (leave now) s.visible) s s

unfoldable pub clear : Store → Store
clear s = record s { visible = []; pending = [] }

abbrev pub is_due : ℕ → Option ℕ → Bool
is_due now none = false
is_due now (some t) = leb t now

abbrev pub expire : ℕ → Group → Group
expire now g = if is_due now g.expires_at then leave now g else g

abbrev pub has_left : ℕ → Option ℕ → Bool
has_left now none = false
has_left now (some started) = leb leave_time (now - started)

abbrev pub shown : ℕ → Group → Group
shown now g = record g { created_at = now; expires_at = expiry now (default_lifetime g.kind) }

-- The loop of `advance`: groups move from the front of `pending` while there is room.
abbrev pub fill : ℕ → List Group → List Group → List Group × List Group
fill now [] visible = (visible, [])
fill now (g ∷ gs) visible =
    let rest = fill now gs (shown now g ∷ visible) in
    if ltb (length visible) max_visible then rest else (visible, g ∷ gs)

unfoldable pub advance : ℕ → Store → Store
unfolding default_lifetime
advance now s =
    let kept = keep_if (λ g. not (has_left now g.leaving_at)) (map (expire now) s.visible) in
    let (visible, pending) = fill now s.pending kept in
    record s { visible = visible; pending = pending }

pub data Command : Type 0 where
  push_command upsert_command : Spec → Command
  dismiss_command : Text → Command

unfoldable pub apply_command : Command → ℕ → Store → Store
unfolding push upsert_transfer dismiss_key
apply_command (push_command spec) now s = push spec now s
apply_command (upsert_command spec) now s = upsert_transfer spec now s
apply_command (dismiss_command key) now s = dismiss_key key now s

-- The commands that wait in the channel; the Boolean says whether there was one.
unfoldable pub apply_commands : List Command → ℕ → Store → Store × Bool
unfolding apply_command
apply_commands [] now s = (s, false)
apply_commands (c ∷ cs) now s = ((apply_commands cs now (apply_command c now s)).0, true)
