-- ===== src/Streamer/Groups/Sharing.antt =====
-- The one subscription that the subscribers of a group share in cmd/sse-streamer/main.go.
pub mod Joining
pub mod Leaving
pub mod Kept
use todo_1m.Prelude.{
  ℕ, ◌≡◌, ◌≢◌, refl, sym, ap, subst, ◌∙◌, ◌⊎◌, inl, inr, String, Bool, true, false, not, ◌||◌, List,
  [], ◌∷◌, Option, none, some, any, select, map, eqb, eqb_iff, ltb, if◌then◌else◌, ◌==◌, eq_iff,
  eq_refl, arith, Bool-cases, itoa,
}
use todo_1m.Prelude.Numerals.Exact.{itoa_injective, append_cancel}
use todo_1m.Streamer.Groups.{
  GroupStreamMessage, Subscriber, GroupStream, has_id, without, drawn, sub_id, enrol, forget,
  remove_subscriber, stop_if_empty, store_subscription, settle, offer, broadcast, schedule_snapshot,
  take_snapshot,
}
use todo_1m.Streamer.Groups.Steps.{
  Phase, absent, enrolled, opening, holding, failing, joined, Handle, unopened, opened_by, stored,
  to_end, ended, State, at, to_be_ended, enrols_at, stores_at, leaves_at, Step, enrols, finds,
  misses, opens, fails, stores, forgets, leaves, ends, sends, schedules, fires, Reachable, start,
  next, initial,
}

-- The subscription of the stream is the stored one, each one that was made is with the subscriber who made it, and
-- whoever has joined is among the subscribers of a stream that has a subscription.
pub record IsShared (s : State) : Type 0 where
  pub own : (h : ℕ) → s.stream.sub ≡ some h → s.handle h ≡ stored
  pub owned : (h : ℕ) → s.handle h ≡ stored → s.stream.sub ≡ some h
  pub held : (n h : ℕ) → s.phase n ≡ holding h → s.handle h ≡ opened_by n
  pub held_by : (n h : ℕ) → s.handle h ≡ opened_by n → s.phase n ≡ holding h
  pub present :
      (n : ℕ)
      → s.phase n ≢ absent
      → any (has_id (sub_id s.stream.group_id n)) s.stream.subscribers ≡ true
  pub subscribed : (n : ℕ) → s.phase n ≡ joined → s.stream.sub ≢ none

pub sub_id_injective : (group : String) (m n : ℕ) → sub_id group m ≡ sub_id group n → m ≡ n
unfolding sub_id
sub_id_injective group m n e =
    itoa_injective m n (append_cancel "-" (itoa m) (itoa n) (append_cancel group _ _ e))

pub any-without :
    (id other : String) (xs : List Subscriber)
    → id ≢ other
    → any (has_id other) (without id xs) ≡ any (has_id other) xs
unfolding any select
any-without id other [] h = refl
any-without id other (x ∷ xs) h =
    ground (arith, any-without id other xs h, eq_iff id x.id, eq_iff other x.id)

pub any-offer :
    (msg : GroupStreamMessage) (id : String) (xs : List Subscriber)
    → any (has_id id) (map (offer msg) xs) ≡ any (has_id id) xs
unfolding any offer
any-offer msg id [] = refl
any-offer msg id (x ∷ xs) = ground (arith, any-offer msg id xs)

pub any-enrol :
    (id other : String) (x : Subscriber) (xs : List Subscriber)
    → x.id ≡ id
    → any (has_id other) (x ∷ without id xs) ≡ (other == id || any (has_id other) xs)
unfolding any
any-enrol id other x xs e = elim (Bool-cases (other == id)) [
  | inl same ↦ rw (e, same) refl
  | inr differs ↦ rw (e, differs) (any-without id other xs (λ q. different id other q differs))
]
  where
    different : (id other : String) → id ≡ other → (other == id) ≡ false → ⊥
    different id other q h = ground (arith, eq_iff other id)

-- `at`, at the index and elsewhere.
abbrev pub Elsewhere {ℓ} : {A : Type ℓ} → (ℕ → A) → ℕ → A → ℕ → Type ℓ
Elsewhere f i a j = ((i ≡ j) × (at f i a j ≡ a)) ⊎ ((i ≢ j) × (at f i a j ≡ f j))

pub at-cases {ℓ} : {A : Type ℓ} (f : ℕ → A) (i : ℕ) (a : A) (j : ℕ) → Elsewhere f i a j
at-cases f i a j = elim (Bool-cases (eqb i j)) [
  | inl same ↦ inl ((eqb_iff i j).0 same, rw same refl)
  | inr other ↦ inr ((λ e. differ i j e other), rw other refl)
]
  where
    differ : (i j : ℕ) → i ≡ j → eqb i j ≡ false → ⊥
    differ i j e h = ground arith
