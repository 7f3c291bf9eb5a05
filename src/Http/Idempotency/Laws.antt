-- ===== src/Http/Idempotency/Laws.antt =====
-- The requests with one idempotency key, in any interleaving, while the key lives in Redis.
use kori.Common.{
  ◌≡◌, refl, sym, ap, subst, ◌∙◌, true, none, some, ℕ, ◌+◌, ◌≤◌, ◌<◌, ◌∷◌, arith, inl, inr, ◌⊎◌,
  Bool-cases, Option-cases,
}
use kori.Common.Result.{Result, ok, err, Exception}
use kori.Common.Text.{Text}
use kori.Schema.{Db}
use kori.Store.{Action}
use kori.Auth.Redis.{Redis, Value}
use kori.Http.Idempotency.{
  Lifetimes, CacheAnswers, Arrival, idempotency_key, processing, arrive, finish, intercept,
  after_arrival, handled,
}

module _ (R : Redis) where
  open R use {State, get, set, del}

  -- The handlers of the key that run, those that have returned, and the state of Redis.
  pub record Progress : Type 0 where
    pub running : ℕ
    pub returned : ℕ
    pub state : State

  abbrev started : Arrival → ℕ
  started (Arrival.refuse e) = 0
  started (Arrival.answer v) = 0
  started Arrival.handle = 1

  -- What happens to the requests with the key: one arrives, a handler returns or throws, or a
  -- request with another key writes.
  pub data Serve (life : Lifetimes) (key : Text) : Progress → Progress → Type 0 where
    arrives :
        (a : CacheAnswers) (p : Progress)
        → Serve life key p (record p {
          running = p.running + started (arrive R life a key p.state).0;
          state = (arrive R life a key p.state).1;
        })
    returns :
        (a : CacheAnswers) (payload : Text) (p : Progress) (n : ℕ)
        → p.running ≡ n + 1
        → Serve life key p (record {
          running = n;
          returned = p.returned + 1;
          state = finish R life a key (ok payload) p.state;
        })
    throws :
        (a : CacheAnswers) (e : Exception) (p : Progress) (n : ℕ)
        → p.running ≡ n + 1
        → Serve life key p (record p { running = n; state = finish R life a key (err e) p.state })
    other :
        (p : Progress) (s : State)
        → get (idempotency_key key) s ≡ get (idempotency_key key) p.state
        → Serve life key p (record p { state = s })

  pub data Served (life : Lifetimes) (key : Text) : Progress → Progress → Type 0 where
    start : (p : Progress) → Served life key p p
    and_then : {p q r : Progress} → Served life key p q → Serve life key q r → Served life key p r

  -- One handler at most runs or has returned, and then the key is there.
  abbrev IsOnce : Text → Progress → Type 0
  IsOnce key p =
      (p.running + p.returned ≡ 0)
      ⊎ ((p.running + p.returned ≡ 1)
          × ((v : Value) × (get (idempotency_key key) p.state ≡ some v)))

  arrive_locked :
      (life : Lifetimes) (a : CacheAnswers) (key : Text) (s : State) (v : Value)
      → get (idempotency_key key) s ≡ some v
      → (started (arrive R life a key s).0 ≡ 0) × ((arrive R life a key s).1 ≡ s)
  unfolding arrive
  arrive_locked life a key s v there = elim (Bool-cases a.get) [
    | inl on ↦ (ground (arith, there), ground (arith, there))
    | inr off ↦ (ground (arith, there), ground (arith, there))
  ]

  arrive_free :
      (life : Lifetimes) (a : CacheAnswers) (key : Text) (s : State)
      → 0 < life.processing_ttl
      → ((started (arrive R life a key s).0 ≡ 0) × ((arrive R life a key s).1 ≡ s))
        ⊎ ((started (arrive R life a key s).0 ≡ 1)
            × (get (idempotency_key key) (arrive R life a key s).1 ≡ some processing))
  unfolding arrive
  arrive_free life a key s alive = elim (Option-cases (get (idempotency_key key) s)) [
    | inr (v, there) ↦ inl (arrive_locked life a key s v there)
    | inl absent ↦ elim (Bool-cases a.lock) [
      | inl on ↦ inr (
        ground (arith, absent),
        reads _ (ground (arith, absent))
            (R.get-set (idempotency_key key) processing life.processing_ttl s alive),
      )
      | inr off ↦ inl (ground (arith, absent), ground (arith, absent))
    ]
  ]
    where
      reads :
          {u : State} (t : State)
          → t ≡ u
          → get (idempotency_key key) u ≡ some processing
          → get (idempotency_key key) t ≡ some processing
      reads t e h = ap (get (idempotency_key key)) e ∙ h

  finish_ok :
      (life : Lifetimes) (a : CacheAnswers) (key payload : Text) (s : State) (v : Value)
      → 0 < life.idempotency_ttl
      → get (idempotency_key key) s ≡ some v
      → (w : Value) × (get (idempotency_key key) (finish R life a key (ok payload) s) ≡ some w)
  unfolding finish
  finish_ok life a key payload s v alive there = elim (Bool-cases a.store) [
    | inl on ↦ (
      Value.response payload,
      ap (get (idempotency_key key)) (rw on)
          ∙ R.get-set (idempotency_key key) (Value.response payload) life.idempotency_ttl s alive,
    )
    | inr off ↦ (v, ap (get (idempotency_key key)) (rw off) ∙ there)
  ]

  only : {n m : ℕ} → n + 1 + m ≡ 1 → (n ≡ 0) × (m ≡ 0)
  only h = (omega arith, omega arith)

  Serve-IsOnce :
      (life : Lifetimes) (key : Text) {p q : Progress}
      → 0 < life.processing_ttl
      → 0 < life.idempotency_ttl
      → Serve life key p q
      → IsOnce key p
      → IsOnce key q
  Serve-IsOnce life key lock store (Serve.arrives a p) (inl none_yet) =
      elim (arrive_free life a key p.state lock) [
        | inl (zero, same) ↦ inl (omega (arith, zero))
        | inr (one, locked) ↦ inr (omega (arith, one), (processing, locked))
      ]
  Serve-IsOnce life key lock store (Serve.arrives a p) (inr (one, (v, there))) =
      let (zero, same) = arrive_locked life a key p.state v there in
      inr (omega (arith, zero), (v, ap (get (idempotency_key key)) same ∙ there))
  Serve-IsOnce life key lock store (Serve.returns a payload p n was) (inl none_yet) =
      absurd (omega arith)
  Serve-IsOnce life key lock store (Serve.returns a payload p n was) (inr (one, (v, there))) =
      inr (omega arith, finish_ok life a key payload p.state v store there)
  Serve-IsOnce life key lock store (Serve.throws a e p n was) (inl none_yet) = absurd (omega arith)
  Serve-IsOnce life key lock store (Serve.throws a e p n was) (inr (one, (v, there))) =
      inl (omega arith)
  Serve-IsOnce life key lock store (Serve.other p s same) (inl none_yet) = inl none_yet
  Serve-IsOnce life key lock store (Serve.other p s same) (inr (one, (v, there))) =
      inr (one, (v, same ∙ there))

  Served-IsOnce :
      (life : Lifetimes) (key : Text) {p q : Progress}
      → 0 < life.processing_ttl
      → 0 < life.idempotency_ttl
      → Served life key p q
      → IsOnce key p
      → IsOnce key q
  Served-IsOnce life key lock store (Served.start p) once = once
  Served-IsOnce life key lock store (Served.and_then before step) once =
      Serve-IsOnce life key lock store step (Served-IsOnce life key lock store before once)

  at_most_one : {m : ℕ} {P : Type 0} → (m ≡ 0) ⊎ ((m ≡ 1) × P) → m ≤ 1
  at_most_one (inl e) = omega arith
  at_most_one (inr (e, p)) = omega arith

  -- Among the requests with one key, however they interleave and whichever calls Redis answers, one
  -- handler at most runs or has returned, as long as the key does not expire.
  pub one_handler :
      (life : Lifetimes) (key : Text) (s : State) (q : Progress)
      → 0 < life.processing_ttl
      → 0 < life.idempotency_ttl
      → Served life key (record { running = 0; returned = 0; state = s }) q
      → q.running + q.returned ≤ 1
  one_handler life key s q lock store served =
      at_most_one (Served-IsOnce life key lock store served (inl refl))

  arrive_first :
      (life : Lifetimes) (a : CacheAnswers) (key : Text) (s : State)
      → a.lock ≡ true
      → get (idempotency_key key) s ≡ none
      → arrive R life a key s
        ≡ (Arrival.handle, set (idempotency_key key) processing life.processing_ttl s)
  unfolding arrive
  arrive_first life a key s lock absent = ground (arith, lock, absent)

  served_first :
      (life : Lifetimes) (a : CacheAnswers) (c : ℕ) (t payload : Text) (handler : Action Text)
      (db db' : Db) (s : State)
      → a.lock ≡ true
      → get (idempotency_key (c ∷ t)) s ≡ none
      → handler db ≡ (ok payload, db')
      → intercept R life a (some (c ∷ t)) handler db s ≡ (
        ok (Value.response payload),
        db',
        finish R life a
            (c ∷ t)
            (ok payload)
            (set (idempotency_key (c ∷ t)) processing life.processing_ttl s),
      )
  unfolding intercept
  served_first life a c t payload handler db db' s lock absent done =
      ap (after_arrival R life a (c ∷ t) handler db) (arrive_first life a (c ∷ t) s lock absent)
      ∙ ap
          (handled R life a (c ∷ t)
            (set (idempotency_key (c ∷ t)) processing life.processing_ttl s))
          done

  stored :
      (life : Lifetimes) (a : CacheAnswers) (key payload : Text) (s : State)
      → 0 < life.idempotency_ttl
      → a.store ≡ true
      → get (idempotency_key key) (finish R life a key (ok payload) s)
        ≡ some (Value.response payload)
  unfolding finish
  stored life a key payload s alive store =
      ap (get (idempotency_key key)) (rw store)
      ∙ R.get-set (idempotency_key key) (Value.response payload) life.idempotency_ttl s alive

  intercept_cached :
      (life : Lifetimes) (b : CacheAnswers) (c : ℕ) (t payload : Text) (handler : Action Text)
      (db : Db) (s : State)
      → b.get ≡ true
      → get (idempotency_key (c ∷ t)) s ≡ some (Value.response payload)
      → intercept R life b (some (c ∷ t)) handler db s ≡ (ok (Value.response payload), db, s)
  unfolding intercept arrive
  intercept_cached life b c t payload handler db s read there = ground (arith, read, there)

  -- A request whose handler returns puts its response into the cache, and the next request with the
  -- key has the response without its handler, and changes nothing.
  pub intercept_replays :
      (life : Lifetimes) (a b : CacheAnswers) (c : ℕ) (t payload : Text)
      (handler other_handler : Action Text) (db db' later : Db) (s : State)
      → 0 < life.idempotency_ttl
      → a.lock ≡ true
      → a.store ≡ true
      → b.get ≡ true
      → get (idempotency_key (c ∷ t)) s ≡ none
      → handler db ≡ (ok payload, db')
      → let served = intercept R life a (some (c ∷ t)) handler db s in
        (served.0 ≡ ok (Value.response payload))
        × (served.1 ≡ db')
        × (intercept R life b (some (c ∷ t)) other_handler later served.2
            ≡ (ok (Value.response payload), later, served.2))
  intercept_replays life a b c t payload handler other_handler db db' later s alive lock store read
        absent done =
      subst
        (λ (r : Result Value × Db × State).
          (r.0 ≡ ok (Value.response payload))
          × (r.1 ≡ db')
          × (intercept R life b (some (c ∷ t)) other_handler later r.2
              ≡ (ok (Value.response payload), later, r.2)))
        (sym (served_first life a c t payload handler db db' s lock absent done))
        (
          refl,
          refl,
          intercept_cached life b c t payload other_handler later _ read (
              stored life a (c ∷ t) payload
                (set (idempotency_key (c ∷ t)) processing life.processing_ttl s) alive store),
        )
