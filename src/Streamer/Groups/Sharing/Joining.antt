-- ===== src/Streamer/Groups/Sharing/Joining.antt =====
-- `Subscribe` of cmd/sse-streamer/main.go: the steps of a subscriber who comes.
use todo_1m.Prelude.{
  ℕ, ◌≡◌, ◌≢◌, refl, sym, ap, ◌∙◌, ◌⊎◌, inl, inr, String, Bool, true, ◌||◌, Option, none, some,
  ◌==◌, eq_iff, arith,
}
use todo_1m.Streamer.Groups.{drawn, sub_id, enrol, store_subscription, settle}
use todo_1m.Streamer.Groups.Steps.{
  absent, enrolled, opening, holding, failing, joined, unopened, opened_by, stored, State, at,
  to_be_ended, enrols_at, stores_at, initial,
}
use todo_1m.Streamer.Groups.Sharing.{IsShared, any-enrol, at-cases}

pub initial-IsShared : (group : String) → IsShared (initial group)
initial-IsShared group = record {
  own = λ h e. absurd (cc);
  owned = λ h e. absurd (cc);
  held = λ n h e. absurd (cc);
  held_by = λ n h e. absurd (cc);
  present = λ n k. absurd (k refl);
  subscribed = λ n e. absurd (cc);
}

pub finds-IsShared :
    (n : ℕ) (s : State)
    → s.phase n ≡ enrolled
    → s.stream.sub ≢ none
    → IsShared s
    → IsShared (record s { phase = at s.phase n joined })
finds-IsShared n s e there v = record {
  own = v.own;
  owned = v.owned;
  held = λ m h k. ground (arith, v.held m h);
  held_by = λ m h k. ground (arith, v.held_by m h k);
  present = λ m k. ground (arith, v.present m);
  subscribed = λ m k. there;
}

pub misses-IsShared :
    (n : ℕ) (s : State)
    → s.phase n ≡ enrolled
    → IsShared s
    → IsShared (record s { phase = at s.phase n opening })
misses-IsShared n s e v = record {
  own = v.own;
  owned = v.owned;
  held = λ m h k. ground (arith, v.held m h);
  held_by = λ m h k. ground (arith, v.held_by m h k);
  present = λ m k. ground (arith, v.present m);
  subscribed = λ m k. v.subscribed m (ground arith);
}

pub opens-IsShared :
    (n h : ℕ) (s : State)
    → s.phase n ≡ opening
    → s.handle h ≡ unopened
    → IsShared s
    → IsShared (record s { phase = at s.phase n (holding h); handle = at s.handle h (opened_by n) })
opens-IsShared n h s e new v = record {
  own = λ g k. ground (arith, v.own g k);
  owned = λ g k. v.owned g (ground arith);
  held = λ m g k. ground (arith, v.held m g);
  held_by = λ m g k. ground (arith, v.held_by m g);
  present = λ m k. ground (arith, v.present m);
  subscribed = λ m k. v.subscribed m (ground arith);
}

pub fails-IsShared :
    (n : ℕ) (s : State)
    → s.phase n ≡ opening
    → IsShared s
    → IsShared (record s { phase = at s.phase n failing })
fails-IsShared n s e v = record {
  own = v.own;
  owned = v.owned;
  held = λ m h k. ground (arith, v.held m h);
  held_by = λ m h k. ground (arith, v.held_by m h k);
  present = λ m k. ground (arith, v.present m);
  subscribed = λ m k. v.subscribed m (ground arith);
}

pub enrols-IsShared :
    (s : State) → s.phase (drawn s.stream) ≡ absent → IsShared s → IsShared (enrols_at s)
unfolding enrols_at enrol
enrols-IsShared s e v = record {
  own = v.own;
  owned = v.owned;
  held = λ m h k. ground (arith, v.held m h);
  held_by = λ m h k. ground (arith, v.held_by m h k);
  present = λ m k.
      any-enrol (sub_id s.stream.group_id (drawn s.stream)) (sub_id s.stream.group_id m) _
        s.stream.subscribers refl
      ∙ elim (at-cases s.phase (drawn s.stream) enrolled m) [
        | inl here ↦ either (inl (ap (λ i. sub_id s.stream.group_id i) (sym here.0)))
        | inr there ↦ either (inr (v.present m (λ q. k (there.1 ∙ q))))
      ];
  subscribed = λ m k. v.subscribed m (ground arith);
}
  where
    either : {a b : String} {p : Bool} → (a ≡ b) ⊎ (p ≡ true) → (a == b || p) ≡ true
    either {a} {b} {p} (inl e) = ground (arith, eq_iff a b)
    either {a} {b} {p} (inr h) = ground arith

pub stores-IsShared :
    (n h : ℕ) (s : State) → s.phase n ≡ holding h → IsShared s → IsShared (stores_at n h s)
unfolding stores_at store_subscription
stores-IsShared n h s e v = go s.stream.sub refl
  where
    mine : s.handle h ≡ opened_by n
    mine = v.held n h e

    go :
        (o : Option ℕ)
        → s.stream.sub ≡ o
        → IsShared (record s {
          stream = (settle o h s.stream).1;
          phase = at s.phase n joined;
          handle = to_be_ended (settle o h s.stream).0 (at s.handle h stored);
        })
    go none q = record {
      own = λ g k. ground (arith, k);
      owned = λ g k. ground (arith, k, v.owned g);
      held = λ m g k. ground (arith, k, v.held m g, mine);
      held_by = λ m g k. ground (arith, k, v.held_by m g, e);
      present = λ m k. ground (arith, v.present m, k, e);
      subscribed = λ m k. λ z. absurd (cc);
    }
    go (some other) q = record {
      own = λ g k. ground (arith, k, v.own g, mine);
      owned = λ g k. ground (arith, k, v.owned g);
      held = λ m g k. ground (arith, k, v.held m g, mine);
      held_by = λ m g k. ground (arith, k, v.held_by m g, e);
      present = λ m k. ground (arith, v.present m, k, e);
      subscribed = λ m k. λ z. absurd (cc (q, z));
    }
