-- ===== src/Tests/Data.antt =====
-- A small installation: two users, one group with its owner and an admin, a session, and a todo.
use Prim.Native.String
use todo_1m.Prelude.{ℕ, String, [], ◌∷◌, none, some, pos, itoa, ◌==◌}
use todo_1m.Platform.Auth.{Manager, Claims}
use todo_1m.Identity.Tables.{User, Member, RefreshToken, Tables}
use todo_1m.Identity.Repository
use todo_1m.Identity.Service.{Service}
use todo_1m.Contracts.{TodoEvent}
use todo_1m.ReadModel.{ReadModel, TodoView}
use todo_1m.DataSink.History.{Delivery}
use todo_1m.CommandApi.{Actor, CreateTodoRequest}
use todo_1m.CommandApi.Limiter.{IpRateLimiter}
use todo_1m.CommandApi.Http.{Server}
use todo_1m.Tests.Codecs.{plain}

abbrev pub secret : Manager
secret = record { secret = "secret"; ttl = 900_000_000_000 }

-- Ids that never repeat. No password is hashed and no token is: the tests compare the texts.
abbrev pub nuid : ℕ → String
nuid n = String.◌++◌ "id" (itoa n)

abbrev pub service : Service
service = record {
  codec = plain;
  auth_token = secret;
  refresh_ttl = 1_000_000;
  nth_id = nuid;
  generate_from_password = λ p. some p;
  compare_hash_and_password = λ hash p. hash == p;
  sha256_hex = λ s. s;
}

abbrev pub ann : User
ann = record { id = "u1"; username = "ann"; password_hash = "password1" }

abbrev pub bob : User
bob = record { id = "u2"; username = "bob"; password_hash = "password2" }

abbrev pub owner_row : Member
owner_row = record { group_id = "g1"; user_id = "u1"; role = "owner" }

abbrev pub admin_row : Member
admin_row = record { group_id = "g1"; user_id = "u2"; role = "admin" }

abbrev pub session : RefreshToken
session = record {
  token_id = "t1";
  user_id = "u1";
  token_hash = "token";
  expires_at = 50;
  revoked_at = none;
}

abbrev pub tables : Tables
tables = record {
  users = ann ∷ bob ∷ [];
  groups =
      record { group = record { id = "g1"; name = "home" }; created_by = "u1"; created_at = 1 }
      ∷ [];
  members = owner_row ∷ admin_row ∷ [];
  tokens = session ∷ [];
}

abbrev pub world : Repository.World
world = record { tables = tables; faults = []; ids = 0; now = 10 }

abbrev pub todo : TodoView
todo = record {
  todo_id = "todo1";
  group_id = "g1";
  title = "milk";
  created_by_user_id = "u1";
  created_by_username = "ann";
  updated_by_user_id = "u1";
  updated_by_username = "ann";
  created_at = 5;
  updated_at = 5;
  deleted_at = none;
}

abbrev pub gone : TodoView
gone = record todo { deleted_at = some 6 }

abbrev pub model : ReadModel
model = record { events = []; todos = todo ∷ []; offsets = [] }

abbrev pub model_without : ReadModel
model_without = record { events = []; todos = gone ∷ []; offsets = [] }

abbrev pub renamed : String → String → TodoEvent
renamed id title = record {
  event_id = id;
  command_id = id;
  todo_id = "todo1";
  group_id = "g1";
  actor_user_id = "u2";
  actor_name = "bob";
  event_type = "todo.updated";
  title = title;
  occurred_at = 7;
  shard_id = pos 3;
}

abbrev pub first : Delivery
first = record { event = renamed "e1" "bread"; seq = 1; faults = []; at = 8 }

abbrev pub second : Delivery
second = record { event = renamed "e2" "butter"; seq = 2; faults = []; at = 9 }

abbrev pub actor : Actor
actor = record { user_id = "u1"; username = "ann" }

abbrev pub request : CreateTodoRequest
request = record { action = "Update-todo "; todo_id = "todo1"; title = " eggs"; group_id = "g1" }

abbrev pub claims : Claims
claims = record { subject = "u1"; username = "ann"; exp = 100 }

abbrev pub limiter : IpRateLimiter
limiter = record {
  limit = 3;
  window = 60;
  clients = record { key = "10.0.0.1"; window_start = 100; count = 1 } ∷ [];
}

abbrev pub server : Server
server = record {
  identity = world;
  todos = record { tables = model; faults = []; ids = 0; now = 10 };
  bus = record { published = []; faults = []; ids = 0; now = 10 };
  limiter = limiter;
}
