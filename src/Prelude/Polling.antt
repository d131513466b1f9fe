-- ===== src/Prelude/Polling.antt =====
-- A loop that asks until a deadline: `for time.Now().Before(deadline) { … time.Sleep(pause) }`, as the services write it
-- where they wait for one another.
use Prim.Native.Nat.{ℕ, zero, suc, ◌+◌, ◌*◌, ◌≤◌, ◌<◌}
use mathlib.Core.Path.{◌≡◌, refl}
use mathlib.Core.Logic.{◌≢◌, ◌⊎◌, inl, inr}
use mathlib.Core.Bool.{true, false}
use mathlib.Core.Option.{Option, none, some}
use native.Mathlib.Omega.{arith}
use todo_1m.Prelude.Tests.{ltb, ltb→lt, if◌then◌else◌, Bool-cases}

-- The time at each turn, what the turn gives, and what is given when the time is over.
module _ {R : Type 0} (now : ℕ → ℕ) (answer : ℕ → Option R) (late : ℕ → R) where
  abbrev pub answered_or : Option R → Option R → Option R
  answered_or none rest = rest
  answered_or (some r) rest = some r

  -- `none` where the fuel is spent.
  unfoldable pub poll : ℕ → ℕ → ℕ → Option R
  poll zero n deadline = none
  poll (suc fuel) n deadline =
      let rest = poll fuel (suc n) deadline in
      if ltb (now n) deadline then answered_or (answer n) rest else some (late n)

  answered-ne-none : (o rest : Option R) → rest ≢ none → answered_or o rest ≢ none
  answered-ne-none none rest h = h
  answered-ne-none (some r) rest h = λ e. absurd (cc)

  over : (now deadline low : ℕ) → deadline ≤ now + low * 0 → ltb now deadline ≡ false
  over now deadline low h = ground arith

  sooner :
      (now next low fuel deadline : ℕ)
      → now + low ≤ next
      → deadline ≤ now + low * suc fuel
      → deadline ≤ next + low * fuel
  sooner now next low fuel deadline a b = grind arith

  -- One turn more than the pauses that cover the time left.
  pub poll-returns :
      (low fuel n deadline : ℕ)
      → ((k : ℕ) → now k + low ≤ now (suc k))
      → deadline ≤ now n + low * fuel
      → poll (suc fuel) n deadline ≢ none
  unfolding poll
  poll-returns low zero n deadline tick h = rw (over (now n) deadline low h) (λ e. absurd (cc))
  poll-returns low (suc fuel) n deadline tick h = elim (Bool-cases (ltb (now n) deadline)) [
    | inl early ↦ rw early (
        answered-ne-none (answer n) _ (
          poll-returns low fuel (suc n) deadline tick
            (sooner (now n) (now (suc n)) low fuel deadline (tick n) h)))
    | inr done ↦ rw done (λ e. absurd (cc))
  ]

  -- How a loop ended that gave `r`: by the first answer, before the deadline, or after it.
  pub record Ended (n deadline : ℕ) (r : R) : Type 0 where
    pub last : ℕ
    pub before : (k : ℕ) → n ≤ k → k < last → answer k ≡ none
    pub ending :
        ((now last < deadline) × (answer last ≡ some r)) ⊎ ((deadline ≤ now last) × (late last ≡ r))

  later : (n deadline : ℕ) (r : R) → answer n ≡ none → Ended (suc n) deadline r → Ended n deadline r
  later n deadline r e d = record {
    last = d.last;
    before = λ k a b. elim (Bool-cases (ltb n k)) [
      | inl above ↦ d.before k (ltb→lt n k above) b
      | inr not_above ↦ rw (same n k a not_above) e
    ];
    ending = d.ending;
  }
    where
      same : (n k : ℕ) → n ≤ k → ltb n k ≡ false → k ≡ n
      same n k a b = ground arith

  pub poll-Ended :
      (fuel n deadline : ℕ) {r : R} → poll fuel n deadline ≡ some r → Ended n deadline r
  unfolding poll
  poll-Ended zero n deadline h = absurd (cc)
  poll-Ended (suc fuel) n deadline {r} h = elim (Bool-cases (ltb (now n) deadline)) [
    | inl early ↦
        went_on (answer n) (λ e. poll-Ended fuel (suc n) deadline e) refl early (rw early at h)
    | inr done ↦ expired done (rw done at h)
  ]
    where
      none_before : (n k : ℕ) → n ≤ k → k < n → ⊥
      none_before n k a b = omega arith

      not_before : (a b : ℕ) → ltb a b ≡ false → b ≤ a
      not_before a b h = ground arith

      same_some : (a b : R) → some a ≡ some b → a ≡ b
      same_some a b e = cc

      expired : ltb (now n) deadline ≡ false → some (late n) ≡ some r → Ended n deadline r
      expired done e = record {
        last = n;
        before = λ k a b. absurd (none_before n k a b);
        ending = inr (not_before (now n) deadline done, same_some (late n) r e);
      }

      went_on :
          (o : Option R)
          → (poll fuel (suc n) deadline ≡ some r → Ended (suc n) deadline r)
          → answer n ≡ o
          → ltb (now n) deadline ≡ true
          → answered_or o (poll fuel (suc n) deadline) ≡ some r
          → Ended n deadline r
      went_on none rest q early e = later n deadline r q (rest e)
      went_on (some a) rest q early e = record {
        last = n;
        before = λ k a b. absurd (none_before n k a b);
        ending = inl (ltb→lt (now n) deadline early, rw q e);
      }
