-- ===== src/Mfa/Store.antt =====
-- packages/backend/src/services/MfaRedisStore.ts: pending secrets and used tokens, in Redis or, when
-- it is unreachable, in process memory. The Redis server is a parameter; times are milliseconds.
use open_archiver.Prelude.{
  ℕ, ◌+◌, ◌*◌, Bool, false, Option, none, some, List, ◌++◌, Text, codes, ltb, lookup, insert,
  remove, is_some, if◌then◌else◌,
}

-- The commands that the store sends, each at a time. `false` and `none` mean that it threw.
pub record Redis (Server : Type 0) : Type 0 where
  pub set_ex : Text → Text → ℕ → ℕ → Server → Server × Bool
  pub get : Text → ℕ → Server → Option (Option Text)
  pub del : Text → Server → Server × Bool
  pub exists : Text → ℕ → Server → Option Bool

pub record MemEntry : Type 0 where
  pub value : Text
  pub expires_at : ℕ

pub record MfaStore (Server : Type 0) : Type 0 where
  pub redis_available : Bool
  pub server : Server
  pub mem_setup : List (Text × MemEntry)
  pub mem_used : List (Text × MemEntry)

abbrev pub setup_secret_ttl_ms : ℕ
setup_secret_ttl_ms = 600000

abbrev pub used_token_ttl_s : ℕ
used_token_ttl_s = 90

abbrev pub setup_key : Text → Text
setup_key user_id = codes "mfa:setup:" ++ user_id

abbrev pub used_key : Text → Text → Text
used_key user_id token = codes "mfa:used:" ++ (user_id ++ (codes ":" ++ token))

-- #memGet: the map after it, with the value. An expired entry is dropped.
unfoldable pub mem_get : Text → ℕ → List (Text × MemEntry) → List (Text × MemEntry) × Option Text
mem_get key now m = elim (lookup key m) [
  | none ↦ (m, none)
  | some e ↦ if ltb e.expires_at now then (remove key m, none) else (m, some e.value)
]

-- #memSet
unfoldable pub mem_set : Text → Text → ℕ → ℕ → List (Text × MemEntry) → List (Text × MemEntry)
mem_set key value ttl_ms now m = insert key (record { value = value; expires_at = now + ttl_ms }) m

module _ {Server : Type 0} (redis : Redis Server) where
  unfoldable pub store_pending_secret : Text → Text → ℕ → ℕ → MfaStore Server → MfaStore Server
  store_pending_secret user_id secret ttl now s =
      let key = setup_key user_id in
      let in_memory = mem_set key secret (ttl * 1000) now s.mem_setup in
      let (server, done) = redis.set_ex key secret ttl now s.server in
      if s.redis_available
      then (if done
          then record s { server = server }
          else record s { server = server; redis_available = false; mem_setup = in_memory })
      else record s { mem_setup = in_memory }

  unfoldable pub get_pending_secret : Text → ℕ → MfaStore Server → MfaStore Server × Option Text
  get_pending_secret user_id now s =
      let key = setup_key user_id in
      let (kept, found) = mem_get key now s.mem_setup in
      if s.redis_available
      then elim (redis.get key now s.server) [
        | some reply ↦ (s, reply)
        | none ↦ (record s { redis_available = false; mem_setup = kept }, found)
      ]
      else (record s { mem_setup = kept }, found)

  unfoldable pub delete_pending_secret : Text → MfaStore Server → MfaStore Server
  delete_pending_secret user_id s =
      let key = setup_key user_id in
      let (server, done) = redis.del key s.server in
      if s.redis_available
      then (if done then record s { server = server } else record s {
        server = server;
        redis_available = false;
        mem_setup = remove key s.mem_setup;
      })
      else record s { mem_setup = remove key s.mem_setup }

  unfoldable pub store_used_token : Text → Text → ℕ → ℕ → MfaStore Server → MfaStore Server
  store_used_token user_id token ttl now s =
      let key = used_key user_id token in
      let in_memory = mem_set key (codes "1") (ttl * 1000) now s.mem_used in
      let (server, done) = redis.set_ex key (codes "1") ttl now s.server in
      if s.redis_available
      then (if done
          then record s { server = server }
          else record s { server = server; redis_available = false; mem_used = in_memory })
      else record s { mem_used = in_memory }

  unfoldable pub is_token_used : Text → Text → ℕ → MfaStore Server → MfaStore Server × Bool
  is_token_used user_id token now s =
      let key = used_key user_id token in
      let (kept, found) = mem_get key now s.mem_used in
      if s.redis_available
      then elim (redis.exists key now s.server) [
        | some reply ↦ (s, reply)
        | none ↦ (record s { redis_available = false; mem_used = kept }, is_some found)
      ]
      else (record s { mem_used = kept }, is_some found)
