-- ===== src/Streamer/Groups/Registry/Leaving.antt =====
-- What stays of a group in `groupStreamRegistry` of cmd/sse-streamer/main.go.
use todo_1m.Prelude.{
  ℕ, suc, ◌+◌, ◌≡◌, refl, String, Bool, true, false, not, List, [], ◌∷◌, none, some, length, find,
  any, select, eqb, eq_refl, arith,
}
use todo_1m.Errors.{ok, err, stream_failed}
use todo_1m.Streamer.Groups.{GroupStream, new_stream, sub_id, subscriber_count}
use todo_1m.Streamer.Groups.Steps.{at}
use todo_1m.Streamer.Groups.Registry.{
  Entry, GroupStreamRegistry, is_group, Lease, is_current, subscribe, unsubscribe, count_groups,
}

eqb_refl : (n : ℕ) → eqb n n ≡ true
eqb_refl n = ground arith

select-none {ℓ} :
    {A : Type ℓ} (p : A → Bool) (xs : List A) → any p xs ≡ false → select (λ x. not (p x)) xs ≡ xs
unfolding any select
select-none p [] h = refl
select-none p (x ∷ xs) h = ground (arith, select-none p xs)

absent-find :
    (group_id : String) (es : List Entry)
    → any (is_group group_id) es ≡ false
    → find (is_group group_id) es ≡ none
unfolding any find
absent-find group_id [] h = refl
absent-find group_id (e ∷ es) h = ground (arith, absent-find group_id es)

absent-current :
    (l : Lease) (es : List Entry)
    → any (is_group l.group_id) es ≡ false
    → any (is_current l) es ≡ false
unfolding any
absent-current l [] h = refl
absent-current l (e ∷ es) h = ground (arith, absent-current l es)

-- A subscription that fails leaves its group in the registry, with no subscriber.
pub failed_leaves_group :
    (group_id : String) (r : GroupStreamRegistry) (faults : List Bool)
    → any (is_group group_id) r.by_group ≡ false
    → r.faults ≡ true ∷ faults
    → ((subscribe group_id r).0 ≡ err stream_failed)
      × (count_groups (subscribe group_id r).1 ≡ count_groups r + 1)
      × (subscriber_count ((subscribe group_id r).1.streams r.made) ≡ 0)
unfolding subscribe count_groups subscriber_count select
failed_leaves_group group_id r faults absent f =
    rw (absent-find group_id r.by_group absent, eqb_refl r.made, f, eqb_refl r.made)
      (refl, one_more (length r.by_group), rw (eq_refl (sub_id group_id 1)) refl)
  where
    one_more : (n : ℕ) → suc n ≡ n + 1
    one_more n = omega arith

-- The group after its first subscriber has come.
abbrev first_stream : String → ℕ → GroupStream
first_stream group_id handle = record (new_stream group_id) {
  sub = some handle;
  next_id = 1;
  subscribers = record { id = sub_id group_id 1; queue = [] } ∷ [];
}

abbrev first_come : String → GroupStreamRegistry → GroupStreamRegistry
first_come group_id r = record r {
  by_group = record { group_id = group_id; stream = r.made } ∷ r.by_group;
  streams = at (at r.streams r.made (new_stream group_id)) r.made (first_stream group_id r.handles);
  made = suc r.made;
  handles = suc r.handles;
  subscriptions = r.handles ∷ r.subscriptions;
}

abbrev first_lease : String → ℕ → Lease
first_lease group_id n = record { group_id = group_id; stream = n; sub_id = sub_id group_id 1 }

subscribe-first :
    (group_id : String) (r : GroupStreamRegistry)
    → any (is_group group_id) r.by_group ≡ false
    → r.faults ≡ []
    → subscribe group_id r ≡ (ok (first_lease group_id r.made), first_come group_id r)
unfolding subscribe select
subscribe-first group_id r absent f =
    rw (absent-find group_id r.by_group absent, f, eqb_refl r.made) refl

unsubscribe-first :
    (group_id : String) (r : GroupStreamRegistry)
    → any (is_group group_id) r.by_group ≡ false
    → any (λ h. eqb h r.handles) r.subscriptions ≡ false
    → ((unsubscribe (first_lease group_id r.made) (first_come group_id r)).by_group ≡ r.by_group)
      × ((unsubscribe (first_lease group_id r.made) (first_come group_id r)).subscriptions
          ≡ r.subscriptions)
unfolding unsubscribe select
unsubscribe-first group_id r absent fresh =
    rw (eqb_refl r.made, eq_refl (sub_id group_id 1), eq_refl group_id, eqb_refl r.handles)
      (
        select-none (is_current (first_lease group_id r.made)) r.by_group
            (absent-current (first_lease group_id r.made) r.by_group absent),
        select-none (λ h. eqb h r.handles) r.subscriptions fresh,
      )

-- Where a group is not in the registry and JetStream answers with a new subscription, the first subscriber is served, and
-- once he leaves, the groups and the subscriptions of JetStream are what they were.
pub subscribe-unsubscribe :
    (group_id : String) (r : GroupStreamRegistry)
    → any (is_group group_id) r.by_group ≡ false
    → any (λ h. eqb h r.handles) r.subscriptions ≡ false
    → r.faults ≡ []
    → (l : Lease) × (s : GroupStreamRegistry) × (subscribe group_id r ≡ (ok l, s))
      × (count_groups s ≡ count_groups r + 1)
      × ((unsubscribe l s).by_group ≡ r.by_group)
      × ((unsubscribe l s).subscriptions ≡ r.subscriptions)
unfolding count_groups
subscribe-unsubscribe group_id r absent fresh f =
    let gone = unsubscribe-first group_id r absent fresh in
    (
      first_lease group_id r.made,
      first_come group_id r,
      subscribe-first group_id r absent f,
      one_more (length r.by_group),
      gone.0,
      gone.1,
    )
  where
    one_more : (n : ℕ) → suc n ≡ n + 1
    one_more n = omega arith
