-- ===== src/Chat/Sessions/Reuse.antt =====
-- Which connection a task gets: a warm one is kept and shared.
use wire_app.Common.{
  ℕ, ◌+◌, ◌-◌, ◌≤◌, ◌<◌, ◌≡◌, ◌⊎◌, subst, refl, ap, Bool, true, false, ◌&&◌, [], ◌∷◌, none, some,
  arith, Text, text_eq, text_eq_iff, text_eq_refl, ltb, if◌then◌else◌, length, Bool-cases,
  Option-cases, inl, inr,
}
use wire_app.Common.Map.{get-insert, get-remove, get-alter, contains_key, map_option}
use wire_app.Common.Map
use wire_app.Chat.Sessions.{
  chat_session_idle, chat_session_pool_cap, HotSession, Sessions, sweep_locked, evict_rounds,
  evict_locked, used_at, is_connection, unwrap_or, insert, touch, get, forget_if, dialled,
}
use wire_app.Chat.Sessions.Bounds.{length-insert}

-- The session stands in the pool under the peer.
abbrev pub IsListed : Text → HotSession → Sessions → Type 0
IsListed p s [] = ⊥
IsListed p s ((j, w) ∷ m) = ((j ≡ p) × (w ≡ s)) ⊎ IsListed p s m

retain_sound :
    (p : HotSession → Bool) (k : Text) (m : Sessions) (s : HotSession)
    → Map.get k (Map.retain (λ _ v. p v) m) ≡ some s
    → (p s ≡ true) × IsListed k s m
unfolding Map.retain Map.get
retain_sound p k [] s h = absurd (let f : none ≡ some s = h in cc)
retain_sound p k ((j, w) ∷ m) s h = elim (Bool-cases (p w)) [
  | inr e ↦ let (f, g) = retain_sound p k m s (rw (e, Map.retain) at h) in (f, inr g)
  | inl e ↦ elim (Bool-cases (text_eq j k)) [
    | inr d ↦ let (f, g) = retain_sound p k m s (rw (e, d, Map.retain, Map.get) at h) in (f, inr g)
    | inl d ↦
        let same : some w ≡ some s = rw (e, d, Map.retain, Map.get) at h in
        let eq : w ≡ s = cc in (subst (λ x. p x ≡ true) eq e, inl ((text_eq_iff j k).0 d, eq))
  ]
]

retain_complete :
    (p : HotSession → Bool) (k : Text) (m : Sessions) (s : HotSession)
    → Map.get k m ≡ some s
    → p s ≡ true
    → Map.get k (Map.retain (λ _ v. p v) m) ≡ some s
unfolding Map.retain Map.get
retain_complete p k [] s h e = h
retain_complete p k ((j, w) ∷ m) s h e = ground (arith, retain_complete p k m s)

-- A session that was used less than a minute ago.
abbrev pub IsWarm : ℕ → Text → Sessions → HotSession → Type 0
IsWarm now peer m s = (Map.get peer m ≡ some s) × (now - s.last_used < chat_session_idle)

warm_sweep :
    (now : ℕ) (p : Text) (m : Sessions) (s : HotSession)
    → IsWarm now p m s
    → Map.get p (sweep_locked now m) ≡ some s
unfolding sweep_locked
warm_sweep now p m s (found, young) =
    retain_complete (λ v. ltb (now - v.last_used) chat_session_idle) p m s found (ground arith)

get-IsWarm :
    (now : ℕ) (p : Text) (m : Sessions) (s : HotSession)
    → IsWarm now p m s
    → (get now p m).1 ≡ some s.connection
unfolding get
get-IsWarm now p m s h = rw (warm_sweep now p m s h) refl

-- A session that is used now can be reused for the next minute: the lookup gives its connection.
pub get-touch :
    (now later : ℕ) (p : Text) (m : Sessions) (s : HotSession)
    → Map.get p m ≡ some s
    → later < now + chat_session_idle
    → (get later p (touch now p m)).1 ≡ some s.connection
unfolding touch
get-touch now later p m s found young =
    get-IsWarm later p (Map.alter p (used_at now) m) (used_at now s)
      (ground (arith, get-alter p p (used_at now) m, text_eq_refl p), omega arith)

warm_insert :
    (now : ℕ) (p : Text) (c : ℕ) (m : Sessions) (s : HotSession)
    → IsWarm now p m s
    → insert now p c m ≡ (Map.alter p (used_at now) (sweep_locked now m), false)
unfolding insert
warm_insert now p c m s h = rw (warm_sweep now p m s h) refl

-- When a dial of a peer ends while a session of the peer is warm, the new connection is not pooled
-- and the caller gets the session's: tasks that dial a peer at the same time share a connection.
pub dialled_shared :
    (now later : ℕ) (p : Text) (c : ℕ) (m : Sessions) (s : HotSession)
    → IsWarm now p m s
    → later < now + chat_session_idle
    → ((insert now p c m).1 ≡ false) × ((dialled now later p c m).1 ≡ s.connection)
unfolding dialled
dialled_shared now later p c m s h young = rw (warm_insert now p c m s h) (
  refl,
  ap (λ o. unwrap_or o c)
      (get-IsWarm later p (Map.alter p (used_at now) (sweep_locked now m)) (used_at now s) (
        ground (
          arith,
          get-alter p p (used_at now) (sweep_locked now m),
          text_eq_refl p,
          warm_sweep now p m s h,
        ),
        omega arith,
      )),
)

-- A lookup gives only a connection of a session that the pool has for the peer and that was used
-- less than a minute ago.
pub get_sound :
    (now : ℕ) (p : Text) (m : Sessions) (c : ℕ)
    → (get now p m).1 ≡ some c
    → (s : HotSession) × (IsListed p s m
        × ((s.connection ≡ c) × (now - s.last_used < chat_session_idle)))
unfolding get sweep_locked
get_sound now p m c h = elim (Option-cases (Map.get p (sweep_locked now m))) [
  | inl e ↦ absurd (let f : none ≡ some c = rw (e, get) at h in cc)
  | inr (s, e) ↦
      let (young, listed) = retain_sound (λ v. ltb (now - v.last_used) chat_session_idle) p m s e in
      (s, (listed, (let f : some s.connection ≡ some c = rw (e, get) at h in cc, ground arith)))
]

-- Forgetting a connection removes the session of the peer if that is its connection, and leaves
-- every other session as it is: a connection that ends late does not drop its successor.
pub forget_if-get :
    (p : Text) (c : ℕ) (m : Sessions) (q : Text)
    → Map.get q (forget_if p c m)
      ≡ (if text_eq p q && is_connection c (Map.get p m) then none else Map.get q m)
unfolding forget_if
forget_if-get p c m q = ground (arith, get-remove q p m)

evict_small : (m : Sessions) → length m ≤ chat_session_pool_cap → evict_locked m ≡ m
unfolding evict_locked evict_rounds
evict_small [] h = refl
evict_small (x ∷ m) h = ground arith

-- A connection to a peer without a warm session is pooled if fewer than eight sessions are warm.
pub insert-get :
    (now later : ℕ) (p : Text) (c : ℕ) (m : Sessions)
    → contains_key p (sweep_locked now m) ≡ false
    → length (sweep_locked now m) < chat_session_pool_cap
    → later < now + chat_session_idle
    → (get later p (insert now p c m).0).1 ≡ some c
unfolding insert
insert-get now later p c m absent room young =
    let warm = sweep_locked now m in
    let fresh : HotSession = record { connection = c; last_used = now } in
    rw absent (
      get-IsWarm later p (evict_locked (Map.insert p fresh warm)) fresh (
        rw (evict_small (Map.insert p fresh warm) (omega (arith, length-insert p fresh warm)))
            (ground (arith, get-insert p p fresh warm, text_eq_refl p)),
        omega arith,
      ))
