-- ===== src/Platform/Env.antt =====
-- internal/platform/env/env.go, and the pool sizes that internal/platform/dbpool/pool.go makes of it. The environment
-- is a function from names to values, empty where a name is not set.
pub mod Pool
use todo_1m.Prelude.{
  ℕ, zero, suc, ◌-◌, ◌%◌, ◌^◌, String, Option, none, some, ℤ, pos, negsuc, ltb, if◌then◌else◌, ◌==◌,
  atoi,
}

abbrev pub Environment : Type 0
Environment = String → String

-- `env.String`
unfoldable pub env_string : Environment → String → String → String
env_string env key fallback = if env key == "" then fallback else env key

abbrev pub or_fallback {ℓ} : {A : Type ℓ} → A → Option A → A
or_fallback fallback none = fallback
or_fallback fallback (some a) = a

-- `env.Int`
unfoldable pub env_int : Environment → String → ℤ → ℤ
env_int env key fallback = if env key == "" then fallback else or_fallback fallback (atoi (env key))

abbrev pub positive_or : ℤ → Option ℤ → ℤ
positive_or fallback (some (pos (suc n))) = pos (suc n)
positive_or fallback _ = fallback

-- `env.Duration`, with `time.ParseDuration` as a parameter.
unfoldable pub env_duration : (String → Option ℤ) → Environment → String → ℤ → ℤ
env_duration parse_duration env key fallback =
    if env key == "" then fallback else positive_or fallback (parse_duration (env key))

-- int32(n), of an int that is not negative.
unfoldable pub to_int32 : ℕ → ℤ
to_int32 n = let m = n % 2 ^ 32 in if ltb m (2 ^ 31) then pos m else negsuc (2 ^ 32 - m - 1)

abbrev pub min_or_default : ℤ → ℕ
min_or_default (pos n) = n
min_or_default (negsuc n) = 2

abbrev pub max_or_default : ℤ → ℕ
max_or_default (pos zero) = 20
max_or_default (pos (suc n)) = suc n
max_or_default (negsuc n) = 20

pub record PoolSize : Type 0 where
  pub min_conns : ℤ
  pub max_conns : ℤ

-- The sizes in `dbpool.New`: the smallest is cut to the largest, and both are cast to int32.
unfoldable pub pool_size : ℤ → ℤ → PoolSize
unfolding to_int32
pool_size min_conns max_conns =
    let least = min_or_default min_conns in
    let most = max_or_default max_conns in
    record {
      min_conns = to_int32 (if ltb most least then most else least);
      max_conns = to_int32 most;
    }

unfoldable pub pool_config : Environment → PoolSize
unfolding env_int pool_size
pool_config env =
    pool_size (env_int env "DB_MIN_CONNS" (pos 2)) (env_int env "DB_MAX_CONNS" (pos 20))
