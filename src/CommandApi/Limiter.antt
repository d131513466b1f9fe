-- ===== src/CommandApi/Limiter.antt =====
-- `ipRateLimiter` of internal/app/commandapi/http.go: so many requests of a client in a window. Times are
-- nanoseconds since the zero time, so `now.Add(-2 * window)` is written as a sum.
pub mod Window
use todo_1m.Prelude.{
  ℕ, suc, ◌+◌, ◌-◌, ◌*◌, ◌≤◌, ◌<◌, ◌≡◌, String, Bool, true, false, not, ◌&&◌, List, [], ◌∷◌, Option,
  none, some, ltb, leb, if◌then◌else◌, length, find, select, ◌==◌, arith,
}

-- An entry of `clients` with its key.
pub record ClientWindowState : Type 0 where
  pub key : String
  pub window_start : ℕ
  pub count : ℕ

pub record IpRateLimiter : Type 0 where
  pub limit : ℕ
  pub window : ℕ
  pub clients : List ClientWindowState

unfoldable pub new_ip_rate_limiter : ℕ → ℕ → IpRateLimiter
new_ip_rate_limiter limit window = record { limit = limit; window = window; clients = [] }

abbrev pub has_key : String → ClientWindowState → Bool
has_key key c = c.key == key

-- `clients[key] = …`: one entry for a key.
unfoldable pub store : ClientWindowState → List ClientWindowState → List ClientWindowState
store c cs = c ∷ select (λ d. not (has_key c.key d)) cs

-- Once there are too many entries, those whose window began more than two windows ago go.
unfoldable pub evict : ℕ → ℕ → List ClientWindowState → List ClientWindowState
evict window now cs =
    if ltb 100_000 (length cs)
    then select (λ c. not (ltb (c.window_start + 2 * window) now)) cs
    else cs

abbrev pub set_clients : IpRateLimiter → List ClientWindowState → IpRateLimiter
set_clients l cs = record l { clients = cs }

abbrev pub open_window : IpRateLimiter → String → ℕ → Bool × IpRateLimiter
open_window l key now = (
  true,
  set_clients l
      (evict l.window now (store (record { key = key; window_start = now; count = 1 }) l.clients)),
)

-- `now.Sub(windowStart) >= window`: a clock that went backwards keeps the window.
abbrev pub allow_found :
    IpRateLimiter → String → ℕ → Option ClientWindowState → Bool × IpRateLimiter
allow_found l key now none = open_window l key now
allow_found l key now (some c) =
    if leb c.window_start now && leb l.window (now - c.window_start)
    then open_window l key now
    else if leb l.limit c.count
    then (false, l)
    else (
      true,
      set_clients l (
          store (record { key = key; window_start = c.window_start; count = suc c.count })
            l.clients),
    )

-- `ipRateLimiter.Allow`; a limiter that is nil is none.
unfoldable pub allow : IpRateLimiter → String → ℕ → Bool × IpRateLimiter
unfolding store evict
allow l key now = allow_found l key now (find (has_key key) l.clients)
