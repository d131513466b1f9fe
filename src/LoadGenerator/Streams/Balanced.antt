-- ===== src/LoadGenerator/Streams/Balanced.antt =====
-- What the streams of cmd/load-generator/main.go leave of its counts.
use todo_1m.Prelude.{
  ℕ, zero, suc, ◌+◌, ◌^◌, ◌<◌, ◌≤◌, ◌≡◌, refl, sym, ap, ◌∙◌, inl, inr, Bool, true, false, Option,
  some, length, eqb, if◌then◌else◌, arith, Bool-cases,
}
use todo_1m.LoadGenerator.{add_one}
use todo_1m.LoadGenerator.Streams.{
  Meters, take_one, Connection, not_made, lost, answered, Scanned, SseTurn, open_stream,
  close_stream, connect_and_read_sse, run_sse_loop,
}

-- Whatever is counted in between, a count that is raised and lowered is what it was.
pub take_one-add_one : (n : ℕ) → n < 2 ^ 64 → take_one (add_one n) ≡ n
take_one-add_one n h = omega arith

pub add_one-take_one : (n : ℕ) → n < 2 ^ 64 → add_one (take_one n) ≡ n
add_one-take_one n h = omega arith

-- The same count of streams, no fewer requests.
pub record IsBalanced (m m' : Meters) : Type 0 where
  pub active_sse : m'.active_sse ≡ m.active_sse
  pub active_vus : m'.active_vus ≡ m.active_vus
  pub actions : m'.runner.actions ≡ m.runner.actions
  pub requests : length m.runner.requests ≤ length m'.runner.requests

IsBalanced-refl : (m : Meters) → IsBalanced m m
IsBalanced-refl m = record {
  active_sse = refl;
  active_vus = refl;
  actions = refl;
  requests = omega arith;
}

IsBalanced-trans : (a b c : Meters) → IsBalanced a b → IsBalanced b c → IsBalanced a c
IsBalanced-trans a b c p q = record {
  active_sse = q.active_sse ∙ p.active_sse;
  active_vus = q.active_vus ∙ p.active_vus;
  actions = q.actions ∙ p.actions;
  requests =
      le-trans (length a.runner.requests) (length b.runner.requests) (length c.runner.requests)
        p.requests q.requests;
}
  where
    le-trans : (i j k : ℕ) → i ≤ j → j ≤ k → i ≤ k
    le-trans i j k p q = omega arith

more : (n : ℕ) → n ≤ suc n
more n = omega arith

connect-IsBalanced :
    (c : Connection) (scanned : Scanned) (m : Meters)
    → m.active_sse < 2 ^ 64
    → IsBalanced m (connect_and_read_sse c scanned m).1
unfolding connect_and_read_sse open_stream close_stream
connect-IsBalanced not_made scanned m h = IsBalanced-refl m
connect-IsBalanced lost scanned m h = record {
  active_sse = refl;
  active_vus = refl;
  actions = refl;
  requests = more (length m.runner.requests);
}
connect-IsBalanced (answered status) scanned m h = elim (Bool-cases (eqb status 200)) [
  | inl good ↦ rw good (record {
    active_sse = take_one-add_one m.active_sse h;
    active_vus = refl;
    actions = refl;
    requests = more (length m.runner.requests);
  })
  | inr other ↦ rw other (record {
    active_sse = refl;
    active_vus = refl;
    actions = refl;
    requests = more (length m.runner.requests);
  })
]

loop-ends :
    (before after : Bool) (m m' : Meters) (rest : Option Meters)
    → IsBalanced m m'
    → ((before ≡ false) → (after ≡ false) → (r : Meters) × (rest ≡ some r) × IsBalanced m' r)
    → (r : Meters) × ((if before then some m else if after then some m' else rest) ≡ some r)
      × IsBalanced m r
loop-ends true after m m' rest b go = (m, refl, IsBalanced-refl m)
loop-ends false true m m' rest b go = (m', refl, b)
loop-ends false false m m' rest b go =
    let r = go refl refl in (r.0, r.1, IsBalanced-trans m m' r.0 b r.2)

-- Where the context is done within `left` turns, runSSELoop returns; then the counts of open streams and of users are what
-- they were, no action has been counted, and no request has been forgotten.
pub run_sse_loop-IsBalanced :
    (turns : ℕ → SseTurn) (left n : ℕ) (m : Meters)
    → m.active_sse < 2 ^ 64
    → (turns (n + left)).done_before ≡ true
    → (r : Meters) × (run_sse_loop turns (suc left) n m ≡ some r) × IsBalanced m r
unfolding run_sse_loop
run_sse_loop-IsBalanced turns zero n m h done =
    (m, rw (ap (λ k. (turns k).done_before) (sym (here n)) ∙ done) refl, IsBalanced-refl m)
  where
    here : (n : ℕ) → n + 0 ≡ n
    here n = omega arith
run_sse_loop-IsBalanced turns (suc left) n m h done =
    let t = turns n in
    let m' = (connect_and_read_sse t.connection t.scanned m).1 in
    let b = connect-IsBalanced t.connection t.scanned m h in
    loop-ends t.done_before t.done_after m m' (run_sse_loop turns (suc left) (suc n) m') b
      (λ before after.
        run_sse_loop-IsBalanced turns left (suc n) m' (rw b.active_sse h)
          (rw (sym (next n left)) done))
  where
    next : (n left : ℕ) → n + suc left ≡ suc n + left
    next n left = omega arith
