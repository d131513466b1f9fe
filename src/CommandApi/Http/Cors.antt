-- ===== src/CommandApi/Http/Cors.antt =====
-- `corsMiddleware` of internal/app/commandapi/http.go before the rest of `Router`.
use todo_1m.Prelude.{
  ℕ, String, true, ◌≡◌, refl, ◌⊎◌, inl, inr, List, [], ◌∷◌, if◌then◌else◌, ◌==◌, eq_iff, trim_space,
  Bool-cases,
}
use todo_1m.Contracts.{Json}
use todo_1m.Identity.Service
use todo_1m.CommandApi.Origin.{Net, allowed_origin_for_request, is_equivalent_loopback_origin}
use todo_1m.CommandApi.Http.{Response, Server, no_content}
use todo_1m.CommandApi.Http.Router.{HttpRequest, options, serve_http}

pub record Header : Type 0 where
  pub name : String
  pub value : String

abbrev pub header : String → String → Header
header name value = record { name = name; value = value }

-- The headers that a request has for it.
pub record Preflight : Type 0 where
  pub origin : String
  pub request_headers : String

abbrev pub or_default : String → String
or_default requested =
    if requested == "" then "Content-Type, Authorization, datastar-request" else requested

unfoldable pub cors_headers : Net → String → Preflight → List Header
cors_headers net configured p =
    header "Vary" "Origin, Access-Control-Request-Headers"
    ∷ header "Access-Control-Allow-Origin" (allowed_origin_for_request net configured p.origin)
    ∷ header "Access-Control-Allow-Methods" "GET, POST, PATCH, DELETE, OPTIONS"
    ∷ header "Access-Control-Allow-Headers" (or_default (trim_space p.request_headers))
    ∷ []

-- The headers that `corsMiddleware` sets, with the answer of what follows it.
unfoldable pub serve_with_cors :
    Service.Service
    → Json
    → (ℕ → String)
    → Net
    → String
    → Preflight
    → HttpRequest
    → Server
    → List Header × (Response × Server)
unfolding cors_headers
serve_with_cors svc j command_id net configured p r s =
    (cors_headers net configured p, serve_http svc j command_id net r s)

-- What a page of another origin may be told: anybody where nothing is configured, and else the configured origin, or the
-- origin of the request where that is the configured one or a loopback of the same scheme and port.
pub record IsPermitted (net : Net) (configured origin answered : String) : Type 0 where
  pub why :
      ((answered ≡ "*") × ((trim_space configured ≡ "") ⊎ (trim_space configured ≡ "*")))
      ⊎ ((answered ≡ trim_space configured)
          ⊎ ((answered ≡ trim_space origin)
              × (is_equivalent_loopback_origin net (trim_space origin) (trim_space configured)
                  ≡ true)))

same : (s t : String) → (s == t) ≡ true → s ≡ t
same s t h = (eq_iff s t).0 h

pub allowed_origin_for_request-IsPermitted :
    (net : Net) (configured origin : String)
    → IsPermitted net configured origin (allowed_origin_for_request net configured origin)
unfolding allowed_origin_for_request
allowed_origin_for_request-IsPermitted net configured origin =
    let allowed = trim_space configured in
    let asked = trim_space origin in
    elim (Bool-cases (allowed == "")) [
      | inl blank ↦ rw blank (record { why = inl (refl, inl (same allowed "" blank)) })
      | inr given ↦ rw given (elim (Bool-cases (allowed == "*")) [
        | inl any ↦ rw any (record { why = inl (same allowed "*" any, inr (same allowed "*" any)) })
        | inr one ↦ rw one (elim (Bool-cases (asked == "")) [
          | inl unnamed ↦ rw unnamed (record { why = inr (inl refl) })
          | inr named ↦ rw named (elim (Bool-cases (asked == allowed)) [
            | inl own ↦ rw own (record { why = inr (inl (same asked allowed own)) })
            | inr other ↦
                rw other (elim (Bool-cases (is_equivalent_loopback_origin net asked allowed)) [
                  | inl loopback ↦ rw loopback (record { why = inr (inr (refl, loopback)) })
                  | inr foreign ↦ rw foreign (record { why = inr (inl refl) })
                ])
          ])
        ])
      ])
    ]

-- A preflight request is answered 204 and changes nothing, even where the limiter would refuse.
pub preflight_unlimited :
    (svc : Service.Service) (j : Json) (command_id : ℕ → String) (net : Net) (configured : String)
    (p : Preflight) (r : HttpRequest) (s : Server)
    → r.route ≡ options
    → (serve_with_cors svc j command_id net configured p r s).1 ≡ (no_content, s)
unfolding serve_with_cors serve_http
preflight_unlimited svc j command_id net configured p r s h = rw h refl
