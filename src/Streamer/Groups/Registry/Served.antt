-- ===== src/Streamer/Groups/Registry/Served.antt =====
-- What `Subscribe` of groupStreamRegistry in cmd/sse-streamer/main.go does to the registry, and what it hands out.
use todo_1m.Prelude.{
  ℕ, suc, ◌<◌, ◌≤◌, ◌≡◌, refl, sym, ◌∙◌, String, Bool, true, false, List, [], ◌∷◌, Option, none,
  some, find, any, eqb, arith,
}
use todo_1m.Errors.{Result, ok, err}
use todo_1m.Streamer.Groups.{
  GroupStream, new_stream, enrol, forget, store_subscription, settle, sub_id,
}
use todo_1m.Streamer.Groups.Steps.{at}
use todo_1m.Streamer.Groups.Registry.{
  Entry, GroupStreamRegistry, is_group, Lease, place, with_stream, js_subscribe, opened, ensured,
  subscribe,
}
use todo_1m.Streamer.Groups.Registry.Routed.{
  AreRouted, IsRouted, kept, found, updated, with_stream-IsRouted,
}

-- A subscriber of `group_id` gets a stream of that group, if one at all.
abbrev pub IsServed : String → Result Lease → GroupStreamRegistry → Type 0
IsServed group_id (ok l) r = (l.group_id ≡ group_id) × ((r.streams l.stream).group_id ≡ group_id)
IsServed group_id (err e) r = Unit {0}

abbrev pub Serves : String → Result Lease × GroupStreamRegistry → Type 0
Serves group_id x = IsRouted x.1 × IsServed group_id x.0 x.1

module _ (group_id : String) (n : ℕ) where
  settled :
      (sub : Option ℕ) (handle : ℕ) (s : GroupStream)
      → (settle sub handle s).1.group_id ≡ s.group_id
  settled none handle s = refl
  settled (some other) handle s = refl

  served :
      (s : GroupStream) (r : GroupStreamRegistry)
      → IsRouted r
      → s.group_id ≡ group_id
      → (r.streams n).group_id ≡ group_id
      → (IsRouted (with_stream n s r)) × ((at r.streams n s n).group_id ≡ group_id)
  served s r k own place = (
    with_stream-IsRouted n s r (own ∙ sym place) k,
    updated r.streams n s (own ∙ sym place) n ∙ place,
  )

  opened-Serves :
      (s : GroupStream) (o : Option ℕ) (r : GroupStreamRegistry)
      → IsRouted r
      → s.group_id ≡ group_id
      → (r.streams n).group_id ≡ group_id
      → Serves group_id (opened n s (o, r))
  unfolding forget store_subscription
  opened-Serves s none r k own place =
      ((served (forget (sub_id s.group_id s.next_id) s) r k own place).0, tt)
  opened-Serves s (some handle) r k own place =
      let x = served (settle s.sub handle s).1 r k (settled s.sub handle s ∙ own) place in
      (x.0, (own, x.1))

  -- JetStream touches neither the groups nor their streams.
  asked :
      (s : GroupStream) (faults : List Bool) (r : GroupStreamRegistry)
      → IsRouted r
      → s.group_id ≡ group_id
      → (r.streams n).group_id ≡ group_id
      → Serves group_id (opened n s (js_subscribe faults r))
  asked s (true ∷ faults) r k own place =
      opened-Serves s none _ (record { entries = k.entries }) own place
  asked s (false ∷ faults) r k own place =
      opened-Serves s (some r.handles) _ (record { entries = k.entries }) own place
  asked s [] r k own place =
      opened-Serves s (some r.handles) _ (record { entries = k.entries }) own place

  ensured-Serves :
      (s : GroupStream) (sub : Option ℕ) (r : GroupStreamRegistry)
      → IsRouted r
      → s.group_id ≡ group_id
      → (r.streams n).group_id ≡ group_id
      → Serves group_id (ensured n s sub r)
  ensured-Serves s none r k own place = asked s r.faults r k own place
  ensured-Serves s (some handle) r k own place = let x = served s r k own place in (x.0, (own, x.1))

unlisted :
    (group_id : String) (es : List Entry)
    → find (is_group group_id) es ≡ none
    → any (is_group group_id) es ≡ false
unfolding find any
unlisted group_id [] f = refl
unlisted group_id (e ∷ es) f = ground (arith, unlisted group_id es)

placed :
    (group_id : String) (r : GroupStreamRegistry) (o : Option Entry)
    → IsRouted r
    → find (is_group group_id) r.by_group ≡ o
    → IsRouted (place group_id r o).1
      × (((place group_id r o).1.streams (place group_id r o).0).group_id ≡ group_id)
unfolding AreRouted
placed group_id r (some e) k f = (k, (found r.made r.streams group_id r.by_group e k.entries f).1)
placed group_id r none k f = (
  record {
    entries = (
      new r.made,
      made,
      unlisted group_id r.by_group f,
      kept r.made (suc r.made) r.streams (at r.streams r.made (new_stream group_id)) r.by_group
          (older r.made) (λ j below. untouched j below) k.entries,
    );
  },
  made,
)
  where
    new : (m : ℕ) → m < suc m
    new m = omega arith

    older : (m : ℕ) → m ≤ suc m
    older m = omega arith

    same : (m : ℕ) → eqb m m ≡ true
    same m = ground arith

    differ : (m k : ℕ) → k < m → eqb m k ≡ false
    differ m k h = ground arith

    made : (at r.streams r.made (new_stream group_id) r.made).group_id ≡ group_id
    made = rw (same r.made) refl

    untouched :
        (j : ℕ)
        → j < r.made
        → (at r.streams r.made (new_stream group_id) j).group_id ≡ (r.streams j).group_id
    untouched j below = rw (differ r.made j below) refl

-- `Subscribe` keeps every group at one entry and a stream of its own, and what it hands out is a stream of the group that
-- was asked for.
pub subscribe-Serves :
    (group_id : String) (r : GroupStreamRegistry)
    → IsRouted r
    → Serves group_id (subscribe group_id r)
unfolding subscribe enrol
subscribe-Serves group_id r k =
    let p = placed group_id r (find (is_group group_id) r.by_group) k refl in
    let q = place group_id r (find (is_group group_id) r.by_group) in
    ensured-Serves group_id q.0 (enrol (q.1.streams q.0)) (enrol (q.1.streams q.0)).sub q.1 p.0 p.1
      p.1
