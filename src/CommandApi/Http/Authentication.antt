-- ===== src/CommandApi/Http/Authentication.antt =====
-- What a request without a valid token can do (internal/app/commandapi/http.go).
use todo_1m.Prelude.{ℕ, ◌≡◌, refl, ◌⊎◌, inl, inr, String, Bool, true, false, ◌==◌, Bool-cases}
use todo_1m.Errors.{Result, ok, err}
use todo_1m.Contracts.{Json}
use todo_1m.Platform.Auth.{Claims, parse, bearer_token}
use todo_1m.Identity.Service
use todo_1m.CommandApi.Limiter.{IpRateLimiter, allow}
use todo_1m.CommandApi.Origin.{Net, client_rate_key}
use todo_1m.CommandApi.Http.{Response, Server, Handler}
use todo_1m.CommandApi.Http.Command.{authenticated, with_auth}
use todo_1m.CommandApi.Http.Router.{
  HttpRequest, GuardedRoute, guarded, limited, route_guarded, serve_http,
}

-- Nothing but the limiter has changed, and the answer is a refusal.
pub record IsRefused (s : Server) (r : Response × Server) : Type 0 where
  pub status : (r.0.status ≡ 401) ⊎ (r.0.status ≡ 429)
  pub identity : r.1.identity ≡ s.identity
  pub todos : r.1.todos ≡ s.todos
  pub bus : r.1.bus ≡ s.bus

abbrev pub HasToken : Service.Service → HttpRequest → Type 0
HasToken svc r =
    (claims : Claims) × (parse svc.codec svc.auth_token r.at (bearer_token r.authorization)
      ≡ ok claims)

module _ (svc : Service.Service) (j : Json) (command_id : ℕ → String) (net : Net)
    (r : HttpRequest) where
  token-IsRefused :
      (s : Server) (next : Claims → Handler) (l : IpRateLimiter) (token : Result Claims)
      → ((claims : Claims) × (token ≡ ok claims))
        ⊎ IsRefused s (authenticated next token (record s { limiter = l }))
  token-IsRefused s next l (ok claims) = inl (claims, refl)
  token-IsRefused s next l (err e) =
      inr (record { status = inl refl; identity = refl; todos = refl; bus = refl })

  auth-IsRefused :
      (s : Server) (next : Claims → Handler) (l : IpRateLimiter)
      → HasToken svc r
        ⊎ IsRefused s (with_auth svc r.at r.authorization next (record s { limiter = l }))
  unfolding with_auth
  auth-IsRefused s next l = elim (Bool-cases (bearer_token r.authorization == "")) [
    | inl missing ↦
        inr (rw missing (record { status = inl refl; identity = refl; todos = refl; bus = refl }))
    | inr given ↦ rw given (
        token-IsRefused s next l
          (parse svc.codec svc.auth_token r.at (bearer_token r.authorization)))
  ]

  limit-IsRefused :
      (s : Server) (next : Claims → Handler) (a : Bool × IpRateLimiter)
      → HasToken svc r
        ⊎ IsRefused s (limited svc j command_id net (with_auth svc r.at r.authorization next) s a)
  limit-IsRefused s next (true, l) = auth-IsRefused s next l
  limit-IsRefused s next (false, l) =
      inr (record { status = inr refl; identity = refl; todos = refl; bus = refl })

  -- A request to a guarded route has a token that is valid at its time, or it is answered 401 or 429 and leaves the
  -- identity store, the read model and the bus as they were.
  pub guarded_needs_token :
      (g : GuardedRoute) (s : Server)
      → r.route ≡ guarded g
      → HasToken svc r ⊎ IsRefused s (serve_http svc j command_id net r s)
  unfolding serve_http
  guarded_needs_token g s h = rw h (
      limit-IsRefused s (route_guarded svc j command_id net g)
        (allow s.limiter (client_rate_key net r.forwarded_for r.real_ip r.remote_addr) r.at))
