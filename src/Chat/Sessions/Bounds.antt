-- ===== src/Chat/Sessions/Bounds.antt =====
-- The pool holds eight sessions at most.
use wire_app.Common.{
  ℕ, zero, suc, ◌+◌, ◌-◌, ◌≤◌, ◌<◌, ◌≡◌, refl, Bool, true, false, List, [], ◌∷◌, arith, Text,
  text_eq, text_eq_iff, text_eq_refl, ltb, length, Bool-cases, inl, inr, ◌⊎◌,
}
use wire_app.Common.Map.{Map, contains_key}
use wire_app.Common.Map
use wire_app.Chat.Sessions.{
  chat_session_pool_cap, HotSession, Sessions, sweep_locked, oldest_from, oldest, evict_rounds,
  evict_locked, used_at, insert, touch, get, forget_if, dialled,
}

length-retain : (p : Text → HotSession → Bool) (m : Sessions) → length (Map.retain p m) ≤ length m
unfolding Map.retain
length-retain p [] = omega arith
length-retain p ((j, w) ∷ m) = ground (arith, length-retain p m)

length-alter :
    (k : Text) (f : HotSession → HotSession) (m : Sessions) → length (Map.alter k f m) ≡ length m
unfolding Map.alter
length-alter k f [] = refl
length-alter k f ((j, w) ∷ m) = ground (arith, length-alter k f m)

length-remove : (k : Text) (m : Sessions) → length (Map.remove k m) ≤ length m
unfolding Map.remove
length-remove k [] = omega arith
length-remove k ((j, w) ∷ m) = ground (arith, length-remove k m)

pub length-insert :
    (k : Text) (v : HotSession) (m : Sessions) → length (Map.insert k v m) ≤ suc (length m)
unfolding Map.insert
length-insert k v [] = omega arith
length-insert k v ((j, w) ∷ m) = ground (arith, length-insert k v m)

length-remove_key :
    (k : Text) (m : Sessions) → contains_key k m ≡ true → length (Map.remove k m) < length m
unfolding Map.remove Map.get
length-remove_key k [] h = absurd (let f : false ≡ true = h in cc)
length-remove_key k ((j, w) ∷ m) h = elim (Bool-cases (text_eq j k)) [
  | inl e ↦ rw e (omega (arith, length-remove k m))
  | inr e ↦ rw e (omega (arith, length-remove_key k m (rw (e, Map.get) at h)))
]

oldest_from-cases :
    (p : Text) (n : ℕ) (m : Sessions)
    → (oldest_from p n m ≡ p) ⊎ (contains_key (oldest_from p n m) m ≡ true)
unfolding oldest_from Map.get
oldest_from-cases p n [] = inl refl
oldest_from-cases p n ((q, s) ∷ m) = ground (
  arith,
  oldest_from-cases q s.last_used m,
  oldest_from-cases p n m,
  text_eq_refl q,
  text_eq_iff q,
)

oldest-listed :
    (p : Text) (s : HotSession) (m : Sessions)
    → contains_key (oldest_from p s.last_used m) ((p, s) ∷ m) ≡ true
unfolding Map.get
oldest-listed p s m =
    ground (arith, oldest_from-cases p s.last_used m, text_eq_iff p (oldest_from p s.last_used m))

evict_rounds-bound :
    (n : ℕ) (m : Sessions)
    → length m ≤ n + chat_session_pool_cap
    → length (evict_rounds n m) ≤ chat_session_pool_cap
unfolding evict_rounds oldest
evict_rounds-bound zero m h = omega arith
evict_rounds-bound (suc n) [] h = omega arith
evict_rounds-bound (suc n) ((p, s) ∷ m) h =
    let peer = oldest_from p s.last_used m in
    ground (
      arith,
      length-remove_key peer ((p, s) ∷ m) (oldest-listed p s m),
      evict_rounds-bound n (Map.remove peer ((p, s) ∷ m)),
    )

evict_locked-bound : (m : Sessions) → length (evict_locked m) ≤ chat_session_pool_cap
unfolding evict_locked
evict_locked-bound m = evict_rounds-bound (length m) m (omega arith)

sweep_locked-bound : (now : ℕ) (m : Sessions) → length (sweep_locked now m) ≤ length m
unfolding sweep_locked
sweep_locked-bound now m = length-retain (λ _ s. ltb (now - s.last_used) 60_000) m

insert-bound :
    (now : ℕ) (p : Text) (c : ℕ) (m : Sessions)
    → length m ≤ chat_session_pool_cap
    → length (insert now p c m).0 ≤ chat_session_pool_cap
unfolding insert
insert-bound now p c m h = ground (
  arith,
  sweep_locked-bound now m,
  length-alter p (used_at now) (sweep_locked now m),
  evict_locked-bound
      (Map.insert p (record { connection = c; last_used = now }) (sweep_locked now m)),
)

-- The calls on the pool. A dial stands here with its end; the lookup before it is a `lookup`.
pub data Call : Type 0 where
  inserted : ℕ → Text → ℕ → Call
  touched : ℕ → Text → Call
  lookup : ℕ → Text → Call
  forgotten : Text → ℕ → Call
  dial_ended : ℕ → ℕ → Text → ℕ → Call

abbrev pub call : Call → Sessions → Sessions
call (inserted now p c) m = (insert now p c m).0
call (touched now p) m = touch now p m
call (lookup now p) m = (get now p m).0
call (forgotten p c) m = forget_if p c m
call (dial_ended now later p c) m = (dialled now later p c m).0

abbrev pub calls : List Call → Sessions → Sessions
calls [] m = m
calls (e ∷ es) m = calls es (call e m)

call-bound :
    (e : Call) (m : Sessions)
    → length m ≤ chat_session_pool_cap
    → length (call e m) ≤ chat_session_pool_cap
unfolding touch get forget_if dialled
call-bound (inserted now p c) m h = insert-bound now p c m h
call-bound (touched now p) m h = omega (arith, length-alter p (used_at now) m)
call-bound (lookup now p) m h = omega (arith, sweep_locked-bound now m)
call-bound (forgotten p c) m h = ground (arith, length-remove p m)
call-bound (dial_ended now later p c) m h =
    omega (arith, insert-bound now p c m h, sweep_locked-bound later (insert now p c m).0)

calls-kept :
    (es : List Call) (m : Sessions)
    → length m ≤ chat_session_pool_cap
    → length (calls es m) ≤ chat_session_pool_cap
calls-kept [] m h = h
calls-kept (e ∷ es) m h = calls-kept es (call e m) (call-bound e m h)

-- Whatever calls are made on a new pool, in whatever order, it holds at most eight sessions after
-- them.
pub calls_bound : (es : List Call) → length (calls es []) ≤ chat_session_pool_cap
calls_bound es = calls-kept es [] (omega arith)
