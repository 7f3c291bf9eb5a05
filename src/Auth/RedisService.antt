-- ===== src/Auth/RedisService.antt =====
-- backend/src/infrastructure/redis/redis.service.ts: each call answers a default, or throws, when
-- the server does not answer (`answers`), and otherwise runs its command.
use kori.Common.{Bool, true, false, Option, none, some, ℕ, ◌+◌, not, ◌&&◌, if◌then◌else◌, is_some}
use kori.Common.Result.{Result, ok, err, error, Exception}
use kori.Common.Text.{Text, text}
use kori.Auth.Redis.{Redis, Value, counter}

abbrev not_connected : Exception
not_connected = error (text "Redis is not connected")

module _ (R : Redis) where
  open R use {State}

  -- `get` answers null when it fails, and `getStrict` throws.
  abbrev pub get : Bool → Text → State → Option Value
  get answers k s = if answers then R.get k s else none

  abbrev pub get_strict : Bool → Text → State → Result (Option Value)
  get_strict answers k s = if answers then ok (R.get k s) else err not_connected

  -- `set` with `ttl`, without and with `nx`.
  abbrev pub set_ex : Bool → Text → Value → ℕ → State → Bool × State
  set_ex answers k v ttl s = if answers then (true, R.set k v ttl s) else (false, s)

  abbrev pub set_nx : Bool → Text → Value → ℕ → State → Bool × State
  set_nx answers k v ttl s =
      if answers && not (is_some (R.get k s)) then (true, R.set k v ttl s) else (false, s)

  abbrev pub del : Bool → Text → State → State
  del answers k s = if answers then R.del k s else s

  -- `incrementWithTtl`: INCR fails at a value that is no number.
  abbrev pub increment_with_ttl : Bool → Text → ℕ → State → Option ℕ × State
  increment_with_ttl answers k ttl s =
      if not answers then (none, s) else elim (counter (R.get k s)) [
        | none ↦ (none, R.expire k ttl s)
        | some n ↦ (some (n + 1), R.expire k ttl (R.incr k s))
      ]
