-- ===== src/Http/Idempotency.antt =====
-- backend/src/common/interceptors/idempotency.interceptor.ts on the state of Redis. A handler acts on
-- the database and returns the JSON text of its response; the flags of `CacheAnswers` say which calls
-- Redis answers.
pub mod Laws
use kori.Common.{Bool, true, false, Option, none, some, ℕ, [], ◌∷◌, ◌++◌, not, if◌then◌else◌}
use kori.Common.Result.{Result, ok, err, Exception, bad_request, conflict}
use kori.Common.Text.{Text, text}
use kori.Schema.{Db}
use kori.Store.{Action}
use kori.Auth.Redis.{Redis, Value, is_string}
use kori.Auth.RedisService.{get, set_ex, set_nx, del}

abbrev pub idempotency_key : Text → Text
idempotency_key key = text "idempotency:trx:" ++ key

abbrev pub processing : Value
processing = Value.string (text "PROCESSING")

pub record Lifetimes : Type 0 where
  pub idempotency_ttl : ℕ
  pub processing_ttl : ℕ

pub record CacheAnswers : Type 0 where
  pub get : Bool
  pub lock : Bool
  pub store : Bool
  pub unlock : Bool

abbrev pub key_required : Exception
key_required = bad_request (
    text
      "CRITICAL: The x-idempotency-key header is required for this operation to prevent double-charging.")

abbrev pub in_progress : Exception
in_progress = conflict (text "This request is currently being processed. Please wait.")

-- What an arriving request comes to: an exception, the response in the cache, or its handler.
pub data Arrival : Type 0 where
  refuse : Exception → Arrival
  answer : Value → Arrival
  handle : Arrival

module _ (R : Redis) where
  open R use {State}

  abbrev after_lock : Bool × State → Arrival × State
  after_lock (true, s) = (Arrival.handle, s)
  after_lock (false, s) = (Arrival.refuse in_progress, s)

  -- What is stored at the key is a text or an object, which count as true.
  abbrev after_get : Lifetimes → Bool → Text → State → Option Value → Arrival × State
  after_get life lock key s none =
      after_lock (set_nx R lock (idempotency_key key) processing life.processing_ttl s)
  after_get life lock key s (some v) =
      if is_string v (text "PROCESSING")
      then (Arrival.refuse in_progress, s)
      else (Arrival.answer v, s)

  -- `intercept` up to its handler.
  unfoldable pub arrive : Lifetimes → CacheAnswers → Text → State → Arrival × State
  arrive life a key s = after_get life a.lock key s (get R a.get (idempotency_key key) s)

  -- `tap` and `catchError`, once the handler has returned or thrown.
  unfoldable pub finish : Lifetimes → CacheAnswers → Text → Result Text → State → State
  finish life a key (ok payload) s =
      (set_ex R a.store (idempotency_key key) (Value.response payload) life.idempotency_ttl s).1
  finish life a key (err e) s = del R a.unlock (idempotency_key key) s

  abbrev pub handled :
      Lifetimes → CacheAnswers → Text → State → Result Text × Db → Result Value × Db × State
  handled life a key s (ok payload, db) =
      (ok (Value.response payload), db, finish life a key (ok payload) s)
  handled life a key s (err e, db) = (err e, db, finish life a key (err e) s)

  abbrev pub after_arrival :
      Lifetimes
      → CacheAnswers
      → Text
      → Action Text
      → Db
      → Arrival × State
      → Result Value × Db × State
  after_arrival life a key handler db (Arrival.refuse e, s) = (err e, db, s)
  after_arrival life a key handler db (Arrival.answer v, s) = (ok v, db, s)
  after_arrival life a key handler db (Arrival.handle, s) = handled life a key s (handler db)

  -- A request that no other request overlaps; the header is none unless it is one text.
  unfoldable pub intercept :
      Lifetimes → CacheAnswers → Option Text → Action Text → Db → State → Result Value × Db × State
  unfolding arrive finish
  intercept life a none handler db s = (err key_required, db, s)
  intercept life a (some []) handler db s = (err key_required, db, s)
  intercept life a (some (c ∷ t)) handler db s =
      after_arrival life a (c ∷ t) handler db (arrive life a (c ∷ t) s)
