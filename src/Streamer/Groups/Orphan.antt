-- ===== src/Streamer/Groups/Orphan.antt =====
-- A subscriber of cmd/sse-streamer/main.go whose call of JetStream fails late.
use todo_1m.Prelude.{
  ℕ, ◌≡◌, ◌≢◌, refl, subst, String, false, [], ◌∷◌, none, some, select, ◌==◌, eq_iff, eq_refl,
  arith,
}
use todo_1m.Streamer.Groups.{sub_id, enrol, forget, remove_subscriber, store_subscription}
use todo_1m.Streamer.Groups.Sharing.{sub_id_injective}
use todo_1m.Streamer.Groups.Steps.{
  absent, enrolled, opening, holding, failing, joined, unopened, opened_by, stored, State, at,
  enrols_at, stores_at, leaves_at, enrols, misses, opens, fails, stores, forgets, leaves, Reachable,
  start, next, initial,
}

-- No one is there or on the way, and the subscription of JetStream stays open.
pub record IsAbandoned (s : State) : Type 0 where
  pub nobody : s.stream.subscribers ≡ []
  pub at_rest : (n : ℕ) → s.phase n ≡ absent
  pub handle : ℕ
  pub sub : s.stream.sub ≡ some handle
  pub open_handle : s.handle handle ≡ stored

differ : (g : String) (m n : ℕ) → m ≢ n → (sub_id g m == sub_id g n) ≡ false
differ g m n h = distinct (sub_id g m) (sub_id g n) (λ e. h (sub_id_injective g m n e))
  where
    distinct : (a b : String) → a ≢ b → (a == b) ≡ false
    distinct a b h = ground (arith, eq_iff a b)

-- Both subscribers have come.
abbrev pub come : String → State
come g = record (initial g) {
  stream = record {
    group_id = g;
    sub = none;
    subscribers =
        record { id = sub_id g 2; queue = [] } ∷ record { id = sub_id g 1; queue = [] } ∷ [];
    next_id = 2;
    pending_seq = 0;
    refresh_timer = false;
  };
  phase = at (at (λ n. absent) 1 enrolled) 2 enrolled;
}

enrols_twice : (g : String) → enrols_at (enrols_at (initial g)) ≡ come g
unfolding enrols_at enrol select
enrols_twice g = rw (differ g 2 1 (omega arith)) refl

come-Reachable : (g : String) → Reachable g (come g)
unfolding enrols_at enrol
come-Reachable g =
    subst (Reachable g) (enrols_twice g) (next (next start (enrols _ refl)) (enrols _ refl))

-- The first has a subscription, and the second has been refused one.
abbrev pub served : String → State
served g = record (come g) {
  stream = record (come g).stream { sub = some 0 };
  phase =
      at (at (at (at (at (come g).phase 1 opening) 2 opening) 1 (holding 0)) 1 joined) 2 failing;
  handle = at (at (λ h. unopened) 0 (opened_by 1)) 0 stored;
}

pub served-Reachable : (g : String) → Reachable g (served g)
unfolding stores_at store_subscription
served-Reachable g =
    next
      (next
        (next (next (next (come-Reachable g) (misses 1 _ refl refl)) (misses 2 _ refl refl))
          (opens 1 0 _ refl refl))
        (stores 1 0 _ refl))
      (fails 2 _ refl)

-- The first leaves while the second is still listed.
abbrev left : String → State
left g = record (served g) {
  stream = record (served g).stream { subscribers = record { id = sub_id g 2; queue = [] } ∷ [] };
  phase = at (served g).phase 1 absent;
}

leaves_first : (g : String) → leaves_at 1 (served g) ≡ left g
unfolding leaves_at remove_subscriber select
leaves_first g = rw (differ g 1 2 (omega arith), eq_refl (sub_id g 1)) refl

abbrev abandoned : String → State
abandoned g = record (left g) {
  stream = record (left g).stream { subscribers = [] };
  phase = at (left g).phase 2 absent;
}

forgets_second :
    (g : String)
    → ◌≡◌ {A = State}
        (record (left g) {
          stream = forget (sub_id g 2) (left g).stream;
          phase = at (left g).phase 2 absent;
        })
        (abandoned g)
unfolding forget select
forgets_second g = rw (eq_refl (sub_id g 2)) refl

abandoned-Reachable : (g : String) → Reachable g (abandoned g)
abandoned-Reachable g =
    let first =
      subst (Reachable g) (leaves_first g) (next (served-Reachable g) (leaves 1 _ refl)) in
    subst (Reachable g) (forgets_second g) (next first (forgets 2 _ refl))

-- For every group there is a reachable state in which no one is subscribed or about to be, and the subscription of
-- JetStream stays open.
pub IsAbandoned-Reachable : (g : String) → (s : State) × Reachable g s × IsAbandoned s
IsAbandoned-Reachable g = (
  abandoned g,
  abandoned-Reachable g,
  record { nobody = refl; at_rest = λ n. quiet n; handle = 0; sub = refl; open_handle = refl },
)
  where
    quiet : (n : ℕ) → (abandoned g).phase n ≡ absent
    quiet n = ground arith
