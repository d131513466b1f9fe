-- ===== src/Tests/Codecs/Messages.antt =====
-- A stand-in for the JSON of the two messages, which can be read back.
use todo_1m.Prelude.{
  ◌≡◌, refl, ap, ◌∙◌, String, true, List, [], ◌∷◌, Option, none, some, ℤ, pos, negsuc, split,
}
use todo_1m.Prelude.Splits.{lacks}
use todo_1m.Contracts.{TodoCommand, TodoEvent, Json, RoundTrips}
use todo_1m.Tests.Codecs.{
  escape, unescape, unary, count, join, unescape-escape, lacks-escape, count-unary, lacks-unary,
  split-join,
}

abbrev command_rest : TodoCommand → List String
command_rest c =
    escape c.todo_id
    ∷ escape c.actor_user_id
    ∷ escape c.actor_name
    ∷ escape c.group_id
    ∷ escape c.action
    ∷ escape c.title
    ∷ unary c.created_at
    ∷ []

abbrev command_text : TodoCommand → String
command_text c = join (escape c.command_id ∷ command_rest c)

abbrev command_from : List String → Option TodoCommand
command_from (a ∷ b ∷ c ∷ d ∷ e ∷ f ∷ g ∷ h ∷ []) = some (record {
  command_id = unescape a;
  todo_id = unescape b;
  actor_user_id = unescape c;
  actor_name = unescape d;
  group_id = unescape e;
  action = unescape f;
  title = unescape g;
  created_at = count h;
})
command_from _ = none

command-back : (c : TodoCommand) → command_from (split b'.' (command_text c)) ≡ some c
command-back c =
    ap command_from (
      split-join (escape c.command_id) (command_rest c) (
        lacks-escape c.command_id,
        (
          lacks-escape c.todo_id,
          (
            lacks-escape c.actor_user_id,
            (
              lacks-escape c.actor_name,
              (
                lacks-escape c.group_id,
                (lacks-escape c.action, (lacks-escape c.title, (lacks-unary c.created_at, tt))),
              ),
            ),
          ),
        ),
      ))
    ∙ λ i. some (record {
      command_id = unescape-escape c.command_id i;
      todo_id = unescape-escape c.todo_id i;
      actor_user_id = unescape-escape c.actor_user_id i;
      actor_name = unescape-escape c.actor_name i;
      group_id = unescape-escape c.group_id i;
      action = unescape-escape c.action i;
      title = unescape-escape c.title i;
      created_at = count-unary c.created_at i;
    })

abbrev sign_text : ℤ → String
sign_text (pos n) = ""
sign_text (negsuc n) = "-"

abbrev size_text : ℤ → String
size_text (pos n) = unary n
size_text (negsuc n) = unary n

abbrev int_from : String → String → ℤ
int_from String.[] s = pos (count s)
int_from (String.◌∷◌ c r) s = negsuc (count s)

int-back : (n : ℤ) → int_from (sign_text n) (size_text n) ≡ n
int-back (pos n) = ap pos (count-unary n)
int-back (negsuc n) = ap negsuc (count-unary n)

lacks-sign : (n : ℤ) → lacks b'.' (sign_text n) ≡ true
unfolding lacks
lacks-sign (pos n) = refl
lacks-sign (negsuc n) = refl

lacks-size : (n : ℤ) → lacks b'.' (size_text n) ≡ true
lacks-size (pos n) = lacks-unary n
lacks-size (negsuc n) = lacks-unary n

abbrev event_rest : TodoEvent → List String
event_rest e =
    escape e.command_id
    ∷ escape e.todo_id
    ∷ escape e.group_id
    ∷ escape e.actor_user_id
    ∷ escape e.actor_name
    ∷ escape e.event_type
    ∷ escape e.title
    ∷ unary e.occurred_at
    ∷ sign_text e.shard_id
    ∷ size_text e.shard_id
    ∷ []

abbrev event_text : TodoEvent → String
event_text e = join (escape e.event_id ∷ event_rest e)

abbrev event_from : List String → Option TodoEvent
event_from (a ∷ b ∷ c ∷ d ∷ e ∷ f ∷ g ∷ h ∷ t ∷ s ∷ n ∷ []) = some (record {
  event_id = unescape a;
  command_id = unescape b;
  todo_id = unescape c;
  group_id = unescape d;
  actor_user_id = unescape e;
  actor_name = unescape f;
  event_type = unescape g;
  title = unescape h;
  occurred_at = count t;
  shard_id = int_from s n;
})
event_from _ = none

event-back : (e : TodoEvent) → event_from (split b'.' (event_text e)) ≡ some e
event-back e =
    ap event_from (
      split-join (escape e.event_id) (event_rest e) (
        lacks-escape e.event_id,
        (
          lacks-escape e.command_id,
          (
            lacks-escape e.todo_id,
            (
              lacks-escape e.group_id,
              (
                lacks-escape e.actor_user_id,
                (
                  lacks-escape e.actor_name,
                  (
                    lacks-escape e.event_type,
                    (
                      lacks-escape e.title,
                      (
                        lacks-unary e.occurred_at,
                        (lacks-sign e.shard_id, (lacks-size e.shard_id, tt)),
                      ),
                    ),
                  ),
                ),
              ),
            ),
          ),
        ),
      ))
    ∙ λ i. some (record {
      event_id = unescape-escape e.event_id i;
      command_id = unescape-escape e.command_id i;
      todo_id = unescape-escape e.todo_id i;
      group_id = unescape-escape e.group_id i;
      actor_user_id = unescape-escape e.actor_user_id i;
      actor_name = unescape-escape e.actor_name i;
      event_type = unescape-escape e.event_type i;
      title = unescape-escape e.title i;
      occurred_at = count-unary e.occurred_at i;
      shard_id = int-back e.shard_id i;
    })

abbrev pub dotted : Json
dotted = record {
  marshal_command = command_text;
  unmarshal_command = λ s. command_from (split b'.' s);
  marshal_event = event_text;
  unmarshal_event = λ s. event_from (split b'.' s);
}

pub dotted-RoundTrips : RoundTrips dotted
dotted-RoundTrips = record { command = command-back; event = event-back }
