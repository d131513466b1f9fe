-- ===== src/Platform/Env/Pool.antt =====
-- The sizes of the connection pool of internal/platform/dbpool/pool.go.
use todo_1m.Prelude.{ℕ, zero, suc, ◌^◌, ◌≤◌, ◌<◌, ◌≡◌, ℤ, pos, negsuc, ltb, if◌then◌else◌, arith}
use todo_1m.Platform.Env.{
  Environment, env_int, to_int32, min_or_default, max_or_default, pool_size, pool_config,
}

to_int32-small : (n : ℕ) → n < 2 ^ 31 → to_int32 n ≡ pos n
unfolding to_int32
to_int32-small n h = ground arith

max_positive : (n : ℤ) → 1 ≤ max_or_default n
max_positive (pos zero) = omega arith
max_positive (pos (suc n)) = omega arith
max_positive (negsuc n) = omega arith

cut : (least most : ℕ) → (if ltb most least then most else least) ≤ most
cut least most = ground arith

below : (a b c : ℕ) → a ≤ b → b < c → a < c
below a b c h k = omega arith

-- Where the largest size fits an int32, the pool has sizes 0 ≤ min ≤ max and 1 ≤ max, whatever else the environment says.
pub pool_config-bounded :
    (env : Environment)
    → max_or_default (env_int env "DB_MAX_CONNS" (pos 20)) < 2 ^ 31
    → (least : ℕ) × (most : ℕ) × (pool_config env
        ≡ record { min_conns = pos least; max_conns = pos most })
      × (least ≤ most)
      × (1 ≤ most)
unfolding pool_config pool_size
pool_config-bounded env h =
    let most = max_or_default (env_int env "DB_MAX_CONNS" (pos 20)) in
    let least = min_or_default (env_int env "DB_MIN_CONNS" (pos 2)) in
    let small = cut least most in
    (
      if ltb most least then most else least,
      most,
      (λ i. record {
        min_conns = to_int32-small _ (below _ most (2 ^ 31) small h) i;
        max_conns = to_int32-small most h i;
      }),
      small,
      max_positive _,
    )
