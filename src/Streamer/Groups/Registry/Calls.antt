-- ===== src/Streamer/Groups/Registry/Calls.antt =====
-- Any calls of groupStreamRegistry in cmd/sse-streamer/main.go.
use todo_1m.Prelude.{
  ℕ, ◌≡◌, refl, String, Bool, false, List, [], ◌∷◌, any, select, arith, Bool-cases, inl, inr,
}
use todo_1m.Streamer.Groups.{Subscriber, GroupStream, stop_if_empty, remove_subscriber, without}
use todo_1m.Streamer.Groups.Steps.{at}
use todo_1m.Streamer.Groups.Registry.{
  Entry, GroupStreamRegistry, is_group, Lease, subscribe, unsubscribe,
}
use todo_1m.Streamer.Groups.Registry.Routed.{AreRouted, IsRouted, kept, updated}
use todo_1m.Streamer.Groups.Registry.Served.{subscribe-Serves}

any-select : (p q : Entry → Bool) (es : List Entry) → any p es ≡ false → any p (select q es) ≡ false
unfolding any select
any-select p q [] h = refl
any-select p q (e ∷ es) h = ground (arith, any-select p q es)

selected :
    (made : ℕ) (streams : ℕ → GroupStream) (q : Entry → Bool) (es : List Entry)
    → AreRouted made streams es
    → AreRouted made streams (select q es)
unfolding AreRouted select
selected made streams q [] h = tt
selected made streams q (e ∷ es) h = elim (Bool-cases (q e)) [
  | inl stays ↦
      rw stays (h.0, h.1, any-select (is_group e.group_id) q es h.2, selected made streams q es h.3)
  | inr goes ↦ rw goes (selected made streams q es h.3)
]

same_group :
    (xs : List Subscriber) (s : GroupStream) → (stop_if_empty xs s).stream.group_id ≡ s.group_id
same_group [] s = refl
same_group (x ∷ xs) s = refl

-- The function that `Subscribe` returns keeps this, also where it is called twice or late.
pub unsubscribe-IsRouted :
    (l : Lease) (r : GroupStreamRegistry) → IsRouted r → IsRouted (unsubscribe l r)
unfolding unsubscribe remove_subscriber
unsubscribe-IsRouted l r k =
    let s = r.streams l.stream in
    let m = remove_subscriber l.sub_id s in
    let still =
      kept r.made r.made r.streams (at r.streams l.stream m.stream) r.by_group (omega arith)
        (λ j below.
          updated r.streams l.stream m.stream (same_group (without l.sub_id s.subscribers) s) j)
        k.entries in
    elim (Bool-cases m.empty) [
      | inl empty ↦ rw empty (record { entries = selected r.made _ _ r.by_group still })
      | inr others ↦ rw others (record { entries = still })
    ]

-- What a client of the registry may do.
pub data Call : Type 0 where
  subscribes : String → Call
  unsubscribes : Lease → Call

unfoldable pub run_calls : List Call → GroupStreamRegistry → GroupStreamRegistry
run_calls [] r = r
run_calls (subscribes group_id ∷ calls) r = run_calls calls (subscribe group_id r).1
run_calls (unsubscribes l ∷ calls) r = run_calls calls (unsubscribe l r)

-- After any calls of `Subscribe` and of the functions that it returns, each entry of byGroup names a stream of its group.
pub run_calls-IsRouted :
    (calls : List Call) (r : GroupStreamRegistry) → IsRouted r → IsRouted (run_calls calls r)
unfolding run_calls
run_calls-IsRouted [] r k = k
run_calls-IsRouted (subscribes other ∷ calls) r k =
    run_calls-IsRouted calls (subscribe other r).1 (subscribe-Serves other r k).0
run_calls-IsRouted (unsubscribes l ∷ calls) r k =
    run_calls-IsRouted calls (unsubscribe l r) (unsubscribe-IsRouted l r k)
