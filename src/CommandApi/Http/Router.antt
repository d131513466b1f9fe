-- ===== src/CommandApi/Http/Router.antt =====
-- `Router` of internal/app/commandapi/http.go: the routes, and the middleware before them. A path and a method that no
-- route has are answered by the router library, and are left out.
use todo_1m.Prelude.{ℕ, String, Bool, true, false, Option}
use todo_1m.Contracts.{Json}
use todo_1m.Platform.Auth.{Claims}
use todo_1m.Identity.Service
use todo_1m.CommandApi.{CreateTodoRequest}
use todo_1m.CommandApi.Limiter.{IpRateLimiter, allow}
use todo_1m.CommandApi.Origin.{Net, client_rate_key}
use todo_1m.CommandApi.Http.{
  Response, Server, Handler, RegisterRequest, MemberRequest, status_text, no_content,
  handle_register, handle_login, handle_refresh, handle_logout, handle_create_group,
  handle_delete_group, handle_add_member, handle_update_member_role,
}
use todo_1m.CommandApi.Http.Command.{handle_create_command, with_auth}

-- The routes without a token, with the body that each decodes.
pub data OpenRoute : Type 0 where
  post_register : Option RegisterRequest → OpenRoute
  post_login : Option RegisterRequest → OpenRoute
  post_refresh : Option String → OpenRoute
  post_logout : Option String → OpenRoute

-- The routes of the group that `authMiddleware` guards, with the group in the path.
pub data GuardedRoute : Type 0 where
  post_group : Option String → GuardedRoute
  delete_group : String → GuardedRoute
  post_member : String → Option MemberRequest → GuardedRoute
  patch_role : String → Option MemberRequest → GuardedRoute
  post_command : Option CreateTodoRequest → GuardedRoute

pub data Route : Type 0 where
  options : Route
  opened : OpenRoute → Route
  guarded : GuardedRoute → Route

-- A request with the headers that are read, the address of the peer, and the time.
pub record HttpRequest : Type 0 where
  pub route : Route
  pub authorization : String
  pub forwarded_for : String
  pub real_ip : String
  pub remote_addr : String
  pub at : ℕ

module _ (svc : Service.Service) (j : Json) (command_id : ℕ → String) (net : Net) where
  unfoldable pub route_open : OpenRoute → Handler
  route_open (post_register body) = handle_register svc body
  route_open (post_login body) = handle_login svc body
  route_open (post_refresh body) = handle_refresh svc body
  route_open (post_logout body) = handle_logout svc body

  unfoldable pub route_guarded : GuardedRoute → Claims → Handler
  route_guarded (post_group body) claims = handle_create_group svc claims body
  route_guarded (delete_group group_id) claims = handle_delete_group claims group_id
  route_guarded (post_member group_id body) claims = handle_add_member claims group_id body
  route_guarded (patch_role group_id body) claims = handle_update_member_role claims group_id body
  route_guarded (post_command body) claims = handle_create_command j command_id claims body

  unfoldable pub dispatch : HttpRequest → Route → Handler
  unfolding route_open route_guarded
  dispatch r options s = (no_content, s)
  dispatch r (opened o) s = route_open o s
  dispatch r (guarded g) s = with_auth svc r.at r.authorization (route_guarded g) s

  abbrev pub limited :
      (Server → Response × Server) → Server → Bool × IpRateLimiter → Response × Server
  limited next s (true, l) = next (record s { limiter = l })
  limited next s (false, l) = (status_text 429 "rate limit exceeded", record s { limiter = l })

  -- `rateLimitMiddleware`: a preflight request is not counted.
  unfoldable pub with_rate_limit : HttpRequest → Route → (Server → Response × Server) → Handler
  with_rate_limit r options next s = next s
  with_rate_limit r _ next s =
      limited next s
        (allow s.limiter (client_rate_key net r.forwarded_for r.real_ip r.remote_addr) r.at)

  unfoldable pub serve_http : HttpRequest → Handler
  unfolding dispatch with_rate_limit
  serve_http r s = with_rate_limit r r.route (dispatch r r.route) s
