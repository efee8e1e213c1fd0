-- ===== src/Dispatcher/Redis.antt =====
-- The Redis client as control/dispatcher/publish.py and republish.py use it: an argument of both.
use trail_signal_os.Prelude.{ℕ, ◌≡◌, List, [], ◌∷◌, ◌++◌}
use trail_signal_os.Store.{Payload, StreamName}
use trail_signal_os.Guards.{Result, ok}

-- The fields of a message: the identifier of the event and the payload's.
pub record Message : Type 0 where
  pub outbox_event_id : ℕ
  pub payload : Payload

-- `S` is what the server holds. `xadd` may raise; `xrange` gives a stream from `-` to `+`.
pub record Redis (S : Type 0) : Type 0 where
  pub xadd : StreamName → Message → S → Result S
  pub xrange : StreamName → S → List Message

-- XADD as Redis documents it, without trimming: the message ends its stream, and every stream has
-- what it had.
pub record IsRedis {S : Type 0} (redis : Redis S) : Type 0 where
  pub appends :
      (name : StreamName) (m : Message) (s after : S)
      → redis.xadd name m s ≡ ok after
      → redis.xrange name after ≡ redis.xrange name s ++ m ∷ []
  pub keeps :
      (name other : StreamName) (m : Message) (s after : S)
      → redis.xadd name m s ≡ ok after
      → (more : List Message) × (redis.xrange other after ≡ redis.xrange other s ++ more)
