-- ===== src/Streamer/Users/Accounted.antt =====
-- The running streams of cmd/sse-streamer, each with its lease or its cancellation.
use todo_1m.Prelude.{
  ◌≡◌, refl, sym, ap, ◌∙◌, inl, inr, String, Bool, true, false, not, ◌||◌, List, [], ◌∷◌, Option,
  none, some, find, any, select, ◌==◌, eq_iff, eq_refl, arith, All, Bool-cases, if_holds,
}
use todo_1m.Streamer.Users.{
  UserStreamLease, UserStreamRegistry, of_user, same_lease, without, replace, release,
  release_found, State, hold, close, closes, cancel, connect, cancel_one, disconnect, Step,
  connects, cancels, disconnects, Reachable, start, next,
}

abbrev pub holds_lease : UserStreamLease → Option UserStreamLease → Bool
holds_lease l none = false
holds_lease l (some c) = c.id == l.id

-- The stream is the registered one, or its context is done or about to be.
abbrev pub accounted : State → UserStreamLease → Bool
accounted s l =
    holds_lease l (find (of_user l.user_id) s.registry)
    || any (same_lease l) s.done
    || any (same_lease l) s.pending

All-map :
    (P Q : UserStreamLease → Type 0) (ls : List UserStreamLease)
    → ((l : UserStreamLease) → P l → Q l)
    → All P ls
    → All Q ls
All-map P Q [] f h = tt
All-map P Q (l ∷ ls) f h = (f l h.0, All-map P Q ls f h.1)

-- Other users' leases stay.
find-without :
    (user other : String) (r : UserStreamRegistry)
    → (user == other) ≡ false
    → find (of_user other) (without user r) ≡ find (of_user other) r
unfolding find select
find-without user other [] h = refl
find-without user other (l ∷ r) h = ground (
  arith,
  eq_iff l.user_id user,
  eq_iff l.user_id other,
  eq_iff user other,
  find-without user other r,
)

find-of_user :
    (user : String) (r : UserStreamRegistry) (c : UserStreamLease)
    → find (of_user user) r ≡ some c
    → (c.user_id == user) ≡ true
unfolding find
find-of_user user [] c h = ground (arith, h)
find-of_user user (l ∷ r) c h = ground (arith, h, find-of_user user r c)

-- The lease that is replaced is handed out to be cancelled.
handed_out :
    (l : UserStreamLease) (o : Option UserStreamLease) (b d : Bool) (pending : List UserStreamLease)
    → ((c : UserStreamLease) → o ≡ some c → (c.user_id == l.user_id) ≡ true)
    → (holds_lease l o || d || any (same_lease l) pending) ≡ true
    → (b || d || any (same_lease l) (hold o pending)) ≡ true
unfolding any
handed_out l none b d pending k h = ground arith
handed_out l (some c) b d pending k h = ground (
  arith,
  h,
  k c refl,
  eq_iff c.user_id l.user_id,
  eq_iff l.user_id c.user_id,
  eq_iff c.id l.id,
  eq_iff l.id c.id,
)

kept_pending :
    (a d : Bool) (l : UserStreamLease) (o : Option UserStreamLease) (pending : List UserStreamLease)
    → (a || d || any (same_lease l) pending) ≡ true
    → (a || d || any (same_lease l) (hold o pending)) ≡ true
unfolding any
kept_pending a d l none pending h = h
kept_pending a d l (some c) pending h = ground arith

connect-accounted :
    (n : UserStreamLease) (s : State) (l : UserStreamLease)
    → accounted s l ≡ true
    → accounted (connect n s) l ≡ true
unfolding connect replace find any
connect-accounted n s l h = elim (Bool-cases (n.user_id == l.user_id)) [
  | inl own ↦
      handed_out l (find (of_user n.user_id) s.registry) _ (any (same_lease l) s.done) s.pending
        (λ c e.
          ap (◌==◌ c.user_id) (sym ((eq_iff n.user_id l.user_id).0 own))
          ∙ find-of_user n.user_id s.registry c e)
        (ap
            (λ u.
              holds_lease l (find (of_user u) s.registry)
              || any (same_lease l) s.done
              || any (same_lease l) s.pending)
            ((eq_iff n.user_id l.user_id).0 own)
          ∙ h)
  | inr other ↦
      rw (other, find-without n.user_id l.user_id s.registry other)
        (kept_pending (holds_lease l (find (of_user l.user_id) s.registry))
          (any (same_lease l) s.done) l (find (of_user n.user_id) s.registry) s.pending h)
]

close-accounted :
    (user : String) (s : State) (l : UserStreamLease)
    → accounted s l ≡ true
    → accounted (close user s) l ≡ true
unfolding close cancel
close-accounted user s l h = elim (Bool-cases (user == l.user_id)) [
  | inl own ↦
      handed_out l (find (of_user user) s.registry) _ (any (same_lease l) s.done) s.pending
        (λ c e.
          ap (◌==◌ c.user_id) (sym ((eq_iff user l.user_id).0 own))
          ∙ find-of_user user s.registry c e)
        (ap
            (λ u.
              holds_lease l (find (of_user u) s.registry)
              || any (same_lease l) s.done
              || any (same_lease l) s.pending)
            ((eq_iff user l.user_id).0 own)
          ∙ h)
  | inr other ↦ rw (find-without user l.user_id s.registry other) (
      kept_pending (holds_lease l (find (of_user l.user_id) s.registry)) (any (same_lease l) s.done)
        l (find (of_user user) s.registry) s.pending h)
]

connect-new : (n : UserStreamLease) (s : State) → accounted (connect n s) n ≡ true
unfolding connect replace find
connect-new n s = rw (eq_refl n.user_id, eq_refl n.id) refl

any-select :
    (l n : UserStreamLease) (ls : List UserStreamLease)
    → any (same_lease l) ls ≡ true
    → (same_lease l n || any (same_lease l) (select (λ p. not (same_lease n p)) ls)) ≡ true
unfolding any select
any-select l n [] h = ground arith
any-select l n (p ∷ ls) h = ground (
  arith,
  any-select l n ls,
  eq_iff l.user_id n.user_id,
  eq_iff l.user_id p.user_id,
  eq_iff n.user_id p.user_id,
  eq_iff l.id n.id,
  eq_iff l.id p.id,
  eq_iff n.id p.id,
)

cancel_one-accounted :
    (n : UserStreamLease) (s : State) (l : UserStreamLease)
    → accounted s l ≡ true
    → accounted (cancel_one n s) l ≡ true
unfolding cancel_one any
cancel_one-accounted n s l h = ground (arith, any-select l n s.pending)

released :
    (n l : UserStreamLease) (r : UserStreamRegistry) (o : Option UserStreamLease)
    → find (of_user n.user_id) r ≡ o
    → not (same_lease n l) ≡ true
    → holds_lease l (find (of_user l.user_id) r) ≡ true
    → holds_lease l (find (of_user l.user_id) (release_found n r o)) ≡ true
released n l r none e k h = h
released n l r (some c) e k h = elim (Bool-cases (n.user_id == l.user_id)) [
  | inl own ↦
      rw
        (stays c.id n l own k (
          sym (
            ap (holds_lease l)
              (ap (λ u. find (of_user u) r) (sym ((eq_iff n.user_id l.user_id).0 own)) ∙ e))
          ∙ h))
        h
  | inr other ↦
      if_holds (λ x. holds_lease l (find (of_user l.user_id) x) ≡ true) (c.id == n.id)
        (without n.user_id r) r (ap (holds_lease l) (find-without n.user_id l.user_id r other) ∙ h)
        h
]
  where
    stays :
        (i : String) (n l : UserStreamLease)
        → (n.user_id == l.user_id) ≡ true
        → not (same_lease n l) ≡ true
        → (i == l.id) ≡ true
        → (i == n.id) ≡ false
    stays i n l own k h = ground (arith, eq_iff i l.id, eq_iff i n.id, eq_iff n.id l.id)

keep_rest : (a b d p : Bool) → (a ≡ true → b ≡ true) → (a || d || p) ≡ true → (b || d || p) ≡ true
keep_rest true b d p f h = ground (arith, f refl)
keep_rest false b d p f h = ground arith

disconnect-accounted :
    (n : UserStreamLease) (s : State) (l : UserStreamLease)
    → not (same_lease n l) ≡ true
    → accounted s l ≡ true
    → accounted (disconnect n s) l ≡ true
unfolding disconnect release
disconnect-accounted n s l k h =
    keep_rest (holds_lease l (find (of_user l.user_id) s.registry)) _ (any (same_lease l) s.done)
      (any (same_lease l) s.pending)
      (released n l s.registry (find (of_user n.user_id) s.registry) refl k) h

-- Every running stream is accounted for.
unfoldable pub IsAccounted : State → Type 0
IsAccounted s = All (λ l. accounted s l ≡ true) s.running

All-select-map :
    (P Q : UserStreamLease → Type 0) (p : UserStreamLease → Bool) (ls : List UserStreamLease)
    → ((l : UserStreamLease) → p l ≡ true → P l → Q l)
    → All P ls
    → All Q (select p ls)
unfolding select
All-select-map P Q p [] f h = tt
All-select-map P Q p (l ∷ ls) f h = elim (Bool-cases (p l)) [
  | inl hit ↦ rw hit (f l hit h.0, All-select-map P Q p ls f h.1)
  | inr miss ↦ rw miss (All-select-map P Q p ls f h.1)
]

Step-IsAccounted : (s t : State) → Step s t → IsAccounted s → IsAccounted t
unfolding IsAccounted connect cancel_one close disconnect
Step-IsAccounted _ _ (connects n s fresh) h =
    (connect-new n s, All-map _ _ s.running (λ l a. connect-accounted n s l a) h)
Step-IsAccounted _ _ (cancels n s there) h =
    All-map _ _ s.running (λ l a. cancel_one-accounted n s l a) h
Step-IsAccounted _ _ (closes user s) h = All-map _ _ s.running (λ l a. close-accounted user s l a) h
Step-IsAccounted _ _ (disconnects n s there) h =
    All-select-map _ _ _ s.running (λ l k a. disconnect-accounted n s l k a) h

pub Reachable-IsAccounted : (s : State) → Reachable s → IsAccounted s
unfolding IsAccounted
Reachable-IsAccounted _ start = tt
Reachable-IsAccounted _ (next {s} {t} r step) =
    Step-IsAccounted s t step (Reachable-IsAccounted s r)
