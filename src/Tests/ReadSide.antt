-- ===== src/Tests/ReadSide.antt =====
-- The theorems on the read model at concrete inputs.
use todo_1m.Prelude.{◌≡◌, refl, true, false, [], ◌∷◌, some, find}
use todo_1m.Errors.{ok}
use todo_1m.DataSink.{updated_todo, insert_event, fits_integer}
use todo_1m.DataSink.Projection.{
  insert_event_all_or_nothing, insert_event_succeeds, Outcome, project,
}
use todo_1m.DataSink.Rows.{HasOrigin, origin, deleted_forever, origin_fixed}
use todo_1m.DataSink.History.{IsClean, consume, view, life, consume_refines_life}
use todo_1m.DataSink.Redelivery.{IsUpdateOf, redelivery_idempotent, redelivery_reverts}
use todo_1m.Tests.Data.{todo, gone, model, model_without, first, second}
use todo_1m.DataSink.Offsets.{mark, highest, offset_is_highest}

first-IsClean : IsClean first
unfolding fits_integer
first-IsClean = (refl, refl, refl)

second-IsClean : IsClean second
unfolding fits_integer
second-IsClean = (refl, refl, refl)

insert_event_all_or_nothing_example : Outcome first.event 1 8 model (
    insert_event first.event 1
      (record { tables = model; faults = false ∷ false ∷ true ∷ []; ids = 0; now = 8 }))
insert_event_all_or_nothing_example =
    insert_event_all_or_nothing first.event 1
      (record { tables = model; faults = false ∷ false ∷ true ∷ []; ids = 0; now = 8 })

insert_event_succeeds_example :
    ((insert_event first.event 1 (record { tables = model; faults = []; ids = 0; now = 8 })).0
      ≡ ok tt)
    × ((insert_event first.event 1
          (record { tables = model; faults = []; ids = 0; now = 8 })).1.tables
        ≡ project first.event 1 8 model)
insert_event_succeeds_example = insert_event_succeeds first.event 1 0 8 model refl first-IsClean.2

consume_refines_life_example :
    view "todo1" (consume (first ∷ second ∷ []) model)
    ≡ life "todo1" (first ∷ second ∷ []) (view "todo1" model)
consume_refines_life_example =
    consume_refines_life "todo1" (first ∷ second ∷ []) model (first-IsClean, (second-IsClean, tt))

viewed : view "todo1" model ≡ some todo
unfolding view find
viewed = refl

viewed_gone : view "todo1" model_without ≡ some gone
unfolding view find
viewed_gone = refl

deleted_forever_example : view "todo1" (consume (first ∷ second ∷ []) model_without) ≡ some gone
deleted_forever_example =
    deleted_forever "todo1" gone (first ∷ second ∷ []) model_without viewed_gone refl

origin_fixed_example : HasOrigin (origin todo) (view "todo1" (consume (first ∷ second ∷ []) model))
origin_fixed_example = origin_fixed "todo1" todo (first ∷ second ∷ []) model viewed

redelivery_idempotent_example :
    consume (first ∷ record first { at = 20 } ∷ []) model ≡ record (consume (first ∷ []) model) {
      offsets = (consume (record first { at = 20 } ∷ []) model).offsets;
    }
redelivery_idempotent_example = redelivery_idempotent first 20 model first-IsClean

first-IsUpdateOf : IsUpdateOf "todo1" first
first-IsUpdateOf = record { clean = first-IsClean; same_todo = refl; updates = refl }

second-IsUpdateOf : IsUpdateOf "todo1" second
second-IsUpdateOf = record { clean = second-IsClean; same_todo = refl; updates = refl }

redelivery_reverts_example :
    view "todo1" (consume (first ∷ second ∷ first ∷ []) model)
    ≡ some (updated_todo first.event todo)
redelivery_reverts_example =
    redelivery_reverts "todo1" todo first second model viewed refl first-IsUpdateOf
      second-IsUpdateOf

offset_is_highest_example :
    mark "g1" (consume (second ∷ first ∷ []) model)
    ≡ highest "g1" (second ∷ first ∷ []) (mark "g1" model)
offset_is_highest_example =
    offset_is_highest "g1" (second ∷ first ∷ []) model (second-IsClean, (first-IsClean, tt))
