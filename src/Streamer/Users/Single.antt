-- ===== src/Streamer/Users/Single.antt =====
-- The streams of one user of cmd/sse-streamer that go on.
use todo_1m.Prelude.{
  ◌≡◌, sym, ap, subst, ◌∙◌, ◌⊎◌, inl, inr, Bool, true, false, ◌||◌, List, [], ◌∷◌, Option, none,
  some, find, any, eq_iff, arith, All,
}
use todo_1m.Streamer.Users.{UserStreamLease, of_user, same_lease, State, Reachable}
use todo_1m.Streamer.Users.Accounted.{holds_lease, accounted, IsAccounted, Reachable-IsAccounted}

abbrev pub Has : UserStreamLease → List UserStreamLease → Type 0
Has l [] = ⊥
Has l (x ∷ xs) = (l ≡ x) ⊎ Has l xs

-- A running stream that no one has cancelled or is about to cancel.
pub record GoesOn (s : State) (l : UserStreamLease) : Type 0 where
  pub runs : Has l s.running
  pub not_done : any (same_lease l) s.done ≡ false
  pub not_pending : any (same_lease l) s.pending ≡ false

All-Has :
    (P : UserStreamLease → Type 0) (l : UserStreamLease) (ls : List UserStreamLease)
    → All P ls
    → Has l ls
    → P l
All-Has P l [] h k = absurd k
All-Has P l (x ∷ xs) h (inl e) = subst P (sym e) h.0
All-Has P l (x ∷ xs) h (inr k) = All-Has P l xs h.1 k

registered :
    (s : State) (l : UserStreamLease)
    → IsAccounted s
    → GoesOn s l
    → holds_lease l (find (of_user l.user_id) s.registry) ≡ true
unfolding IsAccounted
registered s l a g =
    only (holds_lease l (find (of_user l.user_id) s.registry)) (any (same_lease l) s.done)
      (any (same_lease l) s.pending) g.not_done g.not_pending
      (All-Has (λ l. accounted s l ≡ true) l s.running a g.runs)
  where
    only : (a d p : Bool) → d ≡ false → p ≡ false → (a || d || p) ≡ true → a ≡ true
    only a d p e f h = ground arith

same_id :
    (l k : UserStreamLease) (o : Option UserStreamLease)
    → holds_lease l o ≡ true
    → holds_lease k o ≡ true
    → l.id ≡ k.id
same_id l k none h g = ground (arith, h)
same_id l k (some c) h g = sym ((eq_iff c.id l.id).0 h) ∙ (eq_iff c.id k.id).0 g

-- In every reachable state, two running streams of one user that are neither cancelled nor
-- handed out to be cancelled have one id.
pub single_stream :
    (s : State) (l k : UserStreamLease)
    → Reachable s
    → GoesOn s l
    → GoesOn s k
    → l.user_id ≡ k.user_id
    → l.id ≡ k.id
single_stream s l k r a b e =
    let all = Reachable-IsAccounted s r in
    same_id l k (find (of_user l.user_id) s.registry) (registered s l all a)
      (ap (λ u. holds_lease k (find (of_user u) s.registry)) e ∙ registered s k all b)
