-- ===== src/Streamer/Groups/Sharing/Leaving.antt =====
-- The end of a subscriber and of a subscription in cmd/sse-streamer/main.go, and the messages.
use todo_1m.Prelude.{
  ℕ, ◌≡◌, ◌≢◌, refl, ◌∙◌, ◌⊎◌, inl, inr, true, false, List, [], ◌∷◌, Option, none, some, any, arith,
}
use todo_1m.Streamer.Groups.{
  GroupStreamMessage, Subscriber, has_id, without, sub_id, forget, remove_subscriber, stop_if_empty,
  broadcast,
}
use todo_1m.Streamer.Groups.Steps.{
  Phase, absent, enrolled, opening, holding, failing, joined, opened_by, stored, to_end, ended,
  State, at, to_be_ended, leaves_at,
}
use todo_1m.Streamer.Groups.Sharing.{IsShared, sub_id_injective, any-without, any-offer, at-cases}

other_stays :
    (s : State) (n m : ℕ)
    → n ≢ m
    → any (has_id (sub_id s.stream.group_id m)) s.stream.subscribers ≡ true
    → any
        (has_id (sub_id s.stream.group_id m))
        (without (sub_id s.stream.group_id n) s.stream.subscribers)
      ≡ true
other_stays s n m d h =
    any-without _ _ s.stream.subscribers (λ e. d (sub_id_injective s.stream.group_id n m e)) ∙ h

pub forgets-IsShared :
    (n : ℕ) (s : State)
    → s.phase n ≡ failing
    → IsShared s
    → IsShared (record s {
      stream = forget (sub_id s.stream.group_id n) s.stream;
      phase = at s.phase n absent;
    })
unfolding forget
forgets-IsShared n s e v = record {
  own = v.own;
  owned = v.owned;
  held = λ m h k. v.held m h (ground arith);
  held_by = λ m h k. ground (arith, v.held_by m h k);
  present = λ m k. elim (at-cases s.phase n absent m) [
    | inl here ↦ absurd (k here.1)
    | inr there ↦ other_stays s n m there.0 (v.present m (λ q. k (there.1 ∙ q)))
  ];
  subscribed = λ m k. v.subscribed m (ground arith);
}

-- The stream that nobody is left in.
emptied : ℕ → State → State
emptied n s = record s {
  stream = (stop_if_empty [] s.stream).stream;
  phase = at s.phase n absent;
  handle = to_be_ended s.stream.sub s.handle;
}

emptied-IsShared :
    (n : ℕ) (s : State)
    → s.phase n ≡ joined
    → ((m : ℕ) → at s.phase n absent m ≡ absent)
    → IsShared s
    → IsShared (emptied n s)
unfolding emptied
emptied-IsShared n s e none_left v = record {
  own = λ h k. absurd (cc);
  owned = λ h k. absurd (not_stored h s.stream.sub refl k);
  held = λ m h k. absurd (cc (k, none_left m));
  held_by = λ m h k. absurd (not_held m h s.stream.sub refl k);
  present = λ m k. absurd (k (none_left m));
  subscribed = λ m k. absurd (cc (k, none_left m));
}
  where
    not_stored : (h : ℕ) (o : Option ℕ) → s.stream.sub ≡ o → to_be_ended o s.handle h ≡ stored → ⊥
    not_stored h none q k = cc (q, v.owned h k)
    not_stored h (some g) q k = ground (arith, q, k, v.owned h)

    still_held : (m h : ℕ) → s.handle h ≡ opened_by m → ⊥
    still_held m h k = ground (arith, e, v.held_by m h k, none_left m)

    not_held :
        (m h : ℕ) (o : Option ℕ) → s.stream.sub ≡ o → to_be_ended o s.handle h ≡ opened_by m → ⊥
    not_held m h none q k = still_held m h k
    not_held m h (some g) q k = still_held m h (ground (arith, k))

leaves_by :
    (n : ℕ) (s : State) (xs : List Subscriber)
    → s.phase n ≡ joined
    → IsShared s
    → ((m : ℕ)
        → n ≢ m
        → any (has_id (sub_id s.stream.group_id m)) s.stream.subscribers ≡ true
        → any (has_id (sub_id s.stream.group_id m)) xs ≡ true)
    → IsShared (record s {
      stream = (stop_if_empty xs s.stream).stream;
      phase = at s.phase n absent;
      handle = to_be_ended (stop_if_empty xs s.stream).ended s.handle;
    })
unfolding any emptied
leaves_by n s (x ∷ xs) e v stay = record {
  own = v.own;
  owned = v.owned;
  held = λ m h k. v.held m h (ground arith);
  held_by = λ m h k. ground (arith, v.held_by m h k);
  present = λ m k. elim (at-cases s.phase n absent m) [
    | inl here ↦ absurd (k here.1)
    | inr there ↦ stay m there.0 (v.present m (λ q. k (there.1 ∙ q)))
  ];
  subscribed = λ m k. v.subscribed m (ground arith);
}
leaves_by n s [] e v stay = emptied-IsShared n s e gone v
  where
    is_absent : (p : Phase) → (p ≡ absent → ⊥) ⊎ (p ≡ absent)
    is_absent absent = inr refl
    is_absent enrolled = inl (λ q. cc)
    is_absent opening = inl (λ q. cc)
    is_absent (holding h) = inl (λ q. cc)
    is_absent failing = inl (λ q. cc)
    is_absent joined = inl (λ q. cc)

    clash : false ≡ true → ⊥
    clash q = cc

    gone : (m : ℕ) → at s.phase n absent m ≡ absent
    gone m = elim (at-cases s.phase n absent m) [
      | inl here ↦ here.1
      | inr there ↦ elim (is_absent (s.phase m)) [
        | inl there' ↦ absurd (clash (stay m there.0 (v.present m there')))
        | inr away ↦ there.1 ∙ away
      ]
    ]

pub leaves-IsShared :
    (n : ℕ) (s : State) → s.phase n ≡ joined → IsShared s → IsShared (leaves_at n s)
unfolding leaves_at remove_subscriber
leaves-IsShared n s e v =
    leaves_by n s (without (sub_id s.stream.group_id n) s.stream.subscribers) e v
      (λ m d. other_stays s n m d)

pub ends-IsShared :
    (h : ℕ) (s : State)
    → s.handle h ≡ to_end
    → IsShared s
    → IsShared (record s { handle = at s.handle h ended })
ends-IsShared h s e v = record {
  own = λ g k. ground (arith, v.own g k);
  owned = λ g k. v.owned g (ground arith);
  held = λ m g k. ground (arith, v.held m g k);
  held_by = λ m g k. v.held_by m g (ground arith);
  present = v.present;
  subscribed = v.subscribed;
}

pub sends-IsShared :
    (msg : GroupStreamMessage) (s : State)
    → IsShared s
    → IsShared (record s { stream = broadcast msg s.stream })
unfolding broadcast
sends-IsShared msg s v = record {
  own = v.own;
  owned = v.owned;
  held = v.held;
  held_by = v.held_by;
  present = λ m k. any-offer msg (sub_id s.stream.group_id m) s.stream.subscribers ∙ v.present m k;
  subscribed = v.subscribed;
}
