-- ===== src/Chat/Document/Sharing.antt =====
-- Which of the sharing states of a document counts for a file of an owner.
use wire_app.Common.{
  ◌≡◌, refl, sym, subst, ◌∙◌, Bool, true, false, ◌&&◌, ◌||◌, List, [], ◌∷◌, Option, none, some,
  arith, Text, text_eq, text_eq_iff, not, if◌then◌else◌, any, All, ◌⊎◌, Option-cases, Bool-cases,
  inl, inr,
}
use wire_app.Common.Int.{ℤ, leb_ℤ, ltb_ℤ}
use wire_app.Common.Map.{get, insert, get-insert}
use wire_app.Chat.Message.{ChatMessage, ChatAttachment}
use wire_app.Chat.Document.{
  DocumentEntry, FileSharingState, Loaded, Sharing, states_or_default, file_sharing_key,
  newer_state, record_state, take_sharing, is_file_offer,
}
use wire_app.Chat.Document.Contents.{fold_each}

-- The entry is of the author of the message, which is the owner's and offers the file.
abbrev pub speaks_for : Text → DocumentEntry → FileSharingState → Option (ChatMessage × Text) → Bool
speaks_for owner e f none = false
speaks_for owner e f (some (m, author)) =
    text_eq e.author author
    && any (λ (a : ChatAttachment). is_file_offer a.kind && text_eq a.hash f.hash) m.attachments
    && text_eq m.author_id owner

-- A state of the file that the owner recorded, under its own key.
unfoldable pub says : Loaded → Text → Text → DocumentEntry → FileSharingState → Bool
says loaded owner h e f =
    text_eq (file_sharing_key f) e.key
    && text_eq f.hash h
    && speaks_for owner e f (get f.message_id loaded)

abbrev pub state_of : Text → Text → Sharing → Option (ℤ × Bool)
state_of owner h sharing = get h (states_or_default (get owner sharing))

get-record_state :
    (owner h who : Text) (f : FileSharingState) (sharing : Sharing)
    → state_of owner h (record_state who f sharing) ≡ (
        if text_eq who owner && text_eq f.hash h
        then some (newer_state f (state_of owner h sharing))
        else state_of owner h sharing)
unfolding record_state
get-record_state owner h who f sharing =
    let states = states_or_default (get who sharing) in
    ground (
      arith,
      get-insert owner who (insert f.hash (newer_state f (get f.hash states)) states) sharing,
      get-insert h f.hash (newer_state f (get f.hash states)) states,
      text_eq_iff who owner,
      text_eq_iff f.hash h,
    )

state_of-take_sharing :
    (loaded : Loaded) (owner h : Text) (sharing : Sharing) (e : DocumentEntry)
    (f : FileSharingState)
    → state_of owner h (take_sharing loaded sharing e f) ≡ (
        if says loaded owner h e f
        then some (newer_state f (state_of owner h sharing))
        else state_of owner h sharing)
unfolding take_sharing says
state_of-take_sharing loaded owner h sharing e f = elim (Option-cases (get f.message_id loaded)) [
  | inl g ↦ rw (g, take_sharing) (ground arith)
  | inr ((m, author), g) ↦
      rw (g, take_sharing) (ground (arith, get-record_state owner h m.author_id f sharing))
]

-- The state is as new as another, or newer.
abbrev pub covers : Option (ℤ × Bool) → FileSharingState → Bool
covers none f = false
covers (some current) f = leb_ℤ f.changed_at current.0

covers_newer :
    (f g : FileSharingState) (o : Option (ℤ × Bool))
    → covers o g ≡ true
    → covers (some (newer_state f o)) g ≡ true
covers_newer f g none c = absurd (let e : false ≡ true = c in cc)
covers_newer f g (some current) c = ground arith

covers_itself :
    (f : FileSharingState) (o : Option (ℤ × Bool)) → covers (some (newer_state f o)) f ≡ true
covers_itself f none = ground arith
covers_itself f (some current) = ground arith

newer_state-cases :
    (f : FileSharingState) (o : Option (ℤ × Bool))
    → (some (newer_state f o) ≡ o) ⊎ (some (newer_state f o) ≡ some (f.changed_at, f.serving))
newer_state-cases f none = inr refl
newer_state-cases f (some current) = elim (Bool-cases (ltb_ℤ current.0 f.changed_at)) [
  | inl e ↦ inr (rw e refl)
  | inr e ↦ inl (rw e refl)
]

pub data Said (P : DocumentEntry → FileSharingState → Bool)
    : List (DocumentEntry × FileSharingState) → Option (ℤ × Bool) → Type 0 where
  said_here :
      (e : DocumentEntry) (f : FileSharingState) {fs : List (DocumentEntry × FileSharingState)}
      → P e f ≡ true
      → Said P ((e, f) ∷ fs) (some (f.changed_at, f.serving))
  said_there :
      (x : DocumentEntry × FileSharingState) {fs : List (DocumentEntry × FileSharingState)}
      {o : Option (ℤ × Bool)}
      → Said P fs o
      → Said P (x ∷ fs) o

module _ (loaded : Loaded) (owner h : Text) (P : DocumentEntry → FileSharingState → Bool)
    (same : (e : DocumentEntry) (f : FileSharingState) → says loaded owner h e f ≡ P e f) where
  state_of-P :
      (sharing : Sharing) (e : DocumentEntry) (f : FileSharingState)
      → state_of owner h (take_sharing loaded sharing e f) ≡ (
          if P e f
          then some (newer_state f (state_of owner h sharing))
          else state_of owner h sharing)
  state_of-P sharing e f = rw⁻¹ (same e f) (state_of-take_sharing loaded owner h sharing e f)

  covers-fold_each :
      (fs : List (DocumentEntry × FileSharingState)) (sharing : Sharing) (g : FileSharingState)
      → covers (state_of owner h sharing) g ≡ true
      → covers (state_of owner h (fold_each (take_sharing loaded) fs sharing)) g ≡ true
  covers-fold_each [] sharing g c = c
  covers-fold_each ((e, f) ∷ fs) sharing g c =
      covers-fold_each fs (take_sharing loaded sharing e f) g
        (ground (arith, state_of-P sharing e f, covers_newer f g (state_of owner h sharing)))

  pub covered_each :
      (fs : List (DocumentEntry × FileSharingState)) (sharing : Sharing)
      → All
          (λ (x : DocumentEntry × FileSharingState).
            (not (P x.0 x.1)
              || covers (state_of owner h (fold_each (take_sharing loaded) fs sharing)) x.1)
            ≡ true)
          fs
  covered_each [] sharing = tt
  covered_each ((e, f) ∷ fs) sharing = (
    elim (Bool-cases (P e f)) [
      | inl p ↦ rw p (
          covers-fold_each fs (take_sharing loaded sharing e f) f
            (rw (state_of-P sharing e f, p) (covers_itself f (state_of owner h sharing))))
      | inr p ↦ rw p refl
    ],
    covered_each fs (take_sharing loaded sharing e f),
  )

  pub take_sharing-Said :
      (fs : List (DocumentEntry × FileSharingState)) (sharing : Sharing)
      → (state_of owner h (fold_each (take_sharing loaded) fs sharing) ≡ state_of owner h sharing)
        ⊎ Said P fs (state_of owner h (fold_each (take_sharing loaded) fs sharing))
  take_sharing-Said [] sharing = inl refl
  take_sharing-Said ((e, f) ∷ fs) sharing =
      elim (take_sharing-Said fs (take_sharing loaded sharing e f)) [
        | inr s ↦ inr (said_there (e, f) s)
        | inl s ↦ elim (Bool-cases (P e f)) [
          | inr n ↦ inl (s ∙ state_of-P sharing e f ∙ (rw n refl))
          | inl y ↦
              let now = state_of-P sharing e f ∙ (rw y refl) in
              elim (newer_state-cases f (state_of owner h sharing)) [
                | inl k ↦ inl (s ∙ now ∙ k)
                | inr k ↦ inr (subst (Said P ((e, f) ∷ fs)) (sym (s ∙ now ∙ k)) (said_here e f y))
              ]
        ]
      ]
