-- ===== src/DomainEngine/Subjects.antt =====
-- The subject of a command from internal/sharding to ShardFromSubject of internal/app/domainengine.
use Prim.Native.String
use todo_1m.Prelude.{
  ℕ, ◌<◌, ◌≡◌, refl, ap, ◌∙◌, String, Bool, true, false, ◌∷◌, Option, none, some, ℤ, pos, negsuc,
  eqb, eqb_iff, all_below-lt, all_below, itoa, atoi, split, arith,
}
use todo_1m.Prelude.Splits.{step, empty_append, dot, lacks, split-part}
use todo_1m.Sharding.{get_shard_id, get_subject, shard_count}
use todo_1m.DomainEngine.{shard_from_subject, third, int_of, or_shard}

small : all_below 1024 (λ n. lacks b'.' (itoa n)) ≡ true
unfolding lacks itoa all_below
small = refl

is_int : ℕ → Option ℤ → Bool
is_int n (some (pos m)) = eqb m n
is_int n _ = false

is_int_eq : (n : ℕ) (o : Option ℤ) → is_int n o ≡ true → o ≡ some (pos n)
unfolding is_int
is_int_eq n (some (pos m)) h = ap (λ k. some (pos k)) ((eqb_iff m n).0 h)
is_int_eq n (some (negsuc m)) h = ground arith
is_int_eq n none h = ground arith

read_back : all_below 1024 (λ n. is_int n (atoi (itoa n))) ≡ true
unfolding is_int itoa atoi all_below
read_back = refl

pub atoi-itoa : (n : ℕ) → n < shard_count → atoi (itoa n) ≡ some (pos n)
atoi-itoa n h = is_int_eq n _ (all_below-lt 1024 (λ n. is_int n (atoi (itoa n))) n read_back h)

pub get_shard_id-bounded : (id : String) → get_shard_id id < shard_count
unfolding get_shard_id
get_shard_id-bounded id = omega arith

literal :
    (t : String) → split b'.' (String.◌++◌ "app.command." t) ≡ "app" ∷ "command" ∷ split b'.' t
unfolding split
literal t = ap (split b'.') (
    (step "a" _ t (
      step "p" _ t (
        step "p" _ t (
          step "." _ t (
            step "c" _ t (
              step "o" _ t (
                step "m" _ t (
                  step "m" _ t (
                    step "a" _ t
                      (step "n" _ t (step "d" _ t (step "." _ t (empty_append t))))))))))))))

third-part :
    (n : ℕ) (t : String)
    → n < shard_count
    → third (split b'.' (String.◌++◌ "app.command." (String.◌++◌ (itoa n) (String.◌∷◌ "." t))))
      ≡ some (itoa n)
unfolding split
third-part n t h =
    rw
      (
        literal (String.◌++◌ (itoa n) (String.◌∷◌ "." t)),
        split-part "." (itoa n) t (all_below-lt 1024 (λ n. lacks b'.' (itoa n)) n small h),
      )
      refl

-- The shard that the domain engine reads from the subject of a command is the shard of the id in it.
pub shard_from_subject-get_subject :
    (entity_type id other : String)
    → shard_from_subject other (get_subject entity_type id) ≡ pos (get_shard_id id)
unfolding shard_from_subject get_subject
shard_from_subject-get_subject entity_type id other =
    rw (dot (String.◌++◌ entity_type (String.◌++◌ "." id))) (
      ap (λ o. or_shard other (int_of o)) (third-part (get_shard_id id) _ (get_shard_id-bounded id))
      ∙ ap (or_shard other) (atoi-itoa (get_shard_id id) (get_shard_id-bounded id)))
