-- ===== src/Tests/Boundaries.antt =====
-- The theorems on tokens, routes, streams, pools and waiting at concrete inputs.
use todo_1m.Prelude.{
  ℕ, zero, suc, ◌+◌, ◌*◌, ◌≤◌, ◌≡◌, ◌≢◌, refl, ◌⊎◌, String, false, [], none, some, pos, arith,
  split,
}
use todo_1m.Errors.{Result, ok, err}
use todo_1m.Platform.Auth.{Claims, sign, parse}
use todo_1m.Platform.Auth.Authentic.{IsAuthentic, parse-IsAuthentic}
use todo_1m.CommandApi.Origin.{Net}
use todo_1m.CommandApi.Http.Router.{HttpRequest, guarded, delete_group, serve_http}
use todo_1m.CommandApi.Http.Authentication.{HasToken, IsRefused, guarded_needs_token}
use todo_1m.Query.Waiting.{
  Turn, millisecond, next_delay, delay_at, wait_for_command_applied, wait_returns,
}
use todo_1m.Tests.Codecs.{plain}
use todo_1m.Tests.Codecs.Messages.{dotted}
use todo_1m.Tests.Data.{nuid, secret, service, model, server}

abbrev text_of : Result String → String
text_of (ok s) = s
text_of (err e) = ""

abbrev token : String
token = text_of (sign plain secret 100_000_000_000 "u1" "ann")

abbrev read_claims : Claims
read_claims = record { subject = "u1"; username = "ann"; exp = 1000 }

token_read : parse plain secret 200_000_000_000 token ≡ ok read_claims
unfolding parse sign split
token_read = refl

parse-IsAuthentic_example : IsAuthentic plain secret 200_000_000_000 token read_claims
parse-IsAuthentic_example =
    parse-IsAuthentic plain secret 200_000_000_000 token read_claims token_read

abbrev net : Net
net = record { parse_url = λ s. none; split_host = λ s. some s }

abbrev anonymous : HttpRequest
anonymous = record {
  route = guarded (delete_group "g1");
  authorization = "Bearer x.y.z";
  forwarded_for = "";
  real_ip = "";
  remote_addr = "10.0.0.1";
  at = 110;
}

guarded_needs_token_example :
    HasToken service anonymous
    ⊎ IsRefused server (serve_http service dotted nuid net anonymous server)
guarded_needs_token_example =
    guarded_needs_token service dotted nuid net anonymous (delete_group "g1") server refl

-- Turns a quarter of a second apart.
abbrev turn : ℕ → Turn
turn n = record {
  world = record { tables = model; faults = []; ids = 0; now = 250 * millisecond * n };
  done = false;
}

shorter : (d : ℕ) → d ≤ 250 * millisecond → next_delay d ≤ 250 * millisecond
unfolding next_delay
shorter d h = ground arith

delay_at-short : (n : ℕ) → delay_at n ≤ 250 * millisecond
unfolding delay_at
delay_at-short zero = omega arith
delay_at-short (suc n) = shorter (delay_at n) (delay_at-short n)

ticks : (n d : ℕ) → d ≤ 250 * millisecond → 250 * millisecond * n + d ≤ 250 * millisecond * suc n
ticks n d h = omega arith

wait_returns_example : wait_for_command_applied turn 111 0 "c1" "g1" (pos 2_200_000_000) ≢ none
wait_returns_example =
    wait_returns turn 110 0 "c1" "g1" (pos 2_200_000_000)
      (λ k. ticks k (delay_at k) (delay_at-short k)) (omega arith) (omega arith)
