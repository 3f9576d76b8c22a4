-- ===== src/Hub/History.antt =====
-- Histories of the hub: the critical sections of its goroutines in any order.
use erebrus_gateway.Base.{
  ℕ, suc, ◌≡◌, ◌≢◌, ◌≤◌, ◌<◌, true, false, none, some, arith, ◌==◌, Bool-cases, Option-cases, inl,
  inr, ◌⊎◌, refl, ltb, length, ◌++◌, ◌∷◌, [],
}
use erebrus_gateway.Base.Keys.{sum_cong, lookup-adjust}
use erebrus_gateway.Base.Table.{Table, lookup-insert, lookup, sum, adjust, lookup-adjust_ne}
use erebrus_gateway.Base.Text.{Text}
use erebrus_gateway.Hub.Region.{
  Region, same_region_refl, same_region-sym, same_region, normalize_region, label,
}
use erebrus_gateway.Hub.Connections.{
  Conn, Hub, adjust_region, Sent, new_hub, connect, disconnect, set_region, move, try_send,
  send_command, write_frame, send_queue, register, evict, unregister, tail, new_conn, already,
}
use erebrus_gateway.Hub.Counts.{
  IsTracked, live_in, weight, set_region-IsTracked, try_send-IsTracked, write_frame-IsTracked,
}
use erebrus_gateway.Hub.Connecting.{connect-IsTracked, disconnect-IsTracked}

-- What happens to the hub: the connection `c` of node `p` starts, ends, reports a region, is sent a
-- frame or writes one.
pub data Event : Type 0 where
  starts : ℕ → ℕ → Event
  ends : ℕ → Event
  reports : ℕ → Text → Event
  is_sent : ℕ → ℕ → Event
  writes : ℕ → Event

unfoldable pub run : Event → Hub → Hub
unfolding connect disconnect set_region try_send write_frame
run (Event.starts c p) h = connect c p h
run (Event.ends c) h = disconnect c h
run (Event.reports c raw) h = set_region c raw h
run (Event.is_sent c frame) h = (try_send c frame h).1
run (Event.writes c) h = write_frame c h

-- A connection that starts is a new object, and one that reports a region is that of its node.
abbrev pub IsTimely : Event → Hub → Type 0
IsTimely (Event.starts c p) h = lookup c h.heap ≡ none
IsTimely (Event.reports c raw) h =
    (x : Conn) × (lookup c h.heap ≡ some x) × (lookup x.peer h.conns ≡ some c)
IsTimely _ h = Unit {0}

pub data History : Hub → Hub → Type 0 where
  done : {h : Hub} → History h h
  next : {h h' : Hub} (e : Event) → IsTimely e h → History (run e h) h' → History h h'

run-IsTracked : (e : Event) (h : Hub) → IsTimely e h → IsTracked h → IsTracked (run e h)
unfolding run
run-IsTracked (Event.starts c p) h fresh t = connect-IsTracked c p h fresh t
run-IsTracked (Event.ends c) h ok t = disconnect-IsTracked c h t
run-IsTracked (Event.reports c raw) h (x, found, live) t =
    set_region-IsTracked c raw h x found live t
run-IsTracked (Event.is_sent c frame) h ok t = try_send-IsTracked c frame h t
run-IsTracked (Event.writes c) h ok t = write_frame-IsTracked c h t

-- However connections start, end, report regions, are sent frames and write them, when each new
-- connection is a new object and none reports a region after another of its node has replaced it:
-- if before every connected node has one open connection of its own and the sessions counted for a
-- region are the connected nodes of the region, then so afterwards.
pub History-IsTracked : {h h' : Hub} → History h h' → IsTracked h → IsTracked h'
History-IsTracked History.done t = t
History-IsTracked (History.next {h} e timely rest) t =
    History-IsTracked rest (run-IsTracked e h timely t)

pub new_hub-IsTracked : IsTracked new_hub
unfolding live_in lookup sum
new_hub-IsTracked = record {
  one_each = tt;
  is_open = λ p c live. absurd (ground arith);
  exact = λ r. refl;
}

adjust-keeps :
    (d c : ℕ) (f : Conn → Conn) (x : Conn) (t : Table Conn)
    → lookup c t ≡ some x
    → (y : Conn) × (lookup c (adjust d f t) ≡ some y)
adjust-keeps d c f x t found = elim (Bool-cases (d == c)) [
  | inl same ↦ (f x, ground (arith, lookup-adjust d c f t))
  | inr other ↦ (x, ground (arith, lookup-adjust d c f t))
]

run-keeps_object :
    (e : Event) (c : ℕ) (x : Conn) (h : Hub)
    → IsTimely e h
    → lookup c h.heap ≡ some x
    → (y : Conn) × (lookup c (run e h).heap ≡ some y)
unfolding run connect register evict disconnect unregister set_region move try_send write_frame
    adjust_region
run-keeps_object (Event.starts d p) c x h fresh found =
    let other : (d == c) ≡ false = ground arith in
    elim (Option-cases (lookup p h.conns)) [
      | inl gone ↦ (x, ground (arith, lookup-insert d c (new_conn p) h.heap))
      | inr (old, live) ↦ elim (Option-cases (lookup old h.heap)) [
        | inl lost ↦ (x, ground (arith, lookup-insert d c (new_conn p) h.heap))
        | inr (w, at) ↦
            let f = λ (y : Conn). record y { closed = true } in
            let (y, there) = adjust-keeps old c f x h.heap found in
            (y, ground (arith, lookup-insert d c (new_conn p) (adjust old f h.heap), there))
      ]
    ]
run-keeps_object (Event.ends d) c x h ok found = elim (Option-cases (lookup d h.heap)) [
  | inl lost ↦ (x, ground arith)
  | inr (w, at) ↦ (x, ground arith)
]
run-keeps_object (Event.reports d raw) c x h ok found =
    let f = λ (y : Conn). record y { region = some (normalize_region raw) } in
    elim (Option-cases (lookup d h.heap)) [
      | inl lost ↦ (x, ground arith)
      | inr (w, at) ↦ elim (Bool-cases (already (normalize_region raw) w.region)) [
        | inl same ↦ (x, ground arith)
        | inr new ↦ let (y, there) = adjust-keeps d c f x h.heap found in (y, ground arith)
      ]
    ]
run-keeps_object (Event.is_sent d frame) c x h ok found =
    let f = λ (y : Conn). record y { queue = y.queue ++ frame ∷ [] } in
    elim (Option-cases (lookup d h.heap)) [
      | inl lost ↦ (x, ground arith)
      | inr (w, at) ↦ elim (Bool-cases w.closed) [
        | inl shut ↦ (x, ground arith)
        | inr opened ↦ elim (Bool-cases (ltb (length w.queue) send_queue)) [
          | inl room ↦ let (y, there) = adjust-keeps d c f x h.heap found in (y, ground arith)
          | inr full ↦ (x, ground arith)
        ]
      ]
    ]
run-keeps_object (Event.writes d) c x h ok found =
    adjust-keeps d c (λ y. record y { queue = tail y.queue }) x h.heap found

-- An object that is there stays there, whatever happens.
History-keeps_object :
    {h h' : Hub} (c : ℕ) (x : Conn)
    → History h h'
    → lookup c h.heap ≡ some x
    → (y : Conn) × (lookup c h'.heap ≡ some y)
History-keeps_object c x History.done found = (x, found)
History-keeps_object c x (History.next {h} e timely rest) found =
    let (y, there) = run-keeps_object e c x h timely found in History-keeps_object c y rest there

-- What becomes of a frame that is sent to the object `c` of node `p` in the hub `h`.
abbrev pub IsDelivered : ℕ → ℕ → Conn → Hub → Sent × Hub → Type 0
IsDelivered p c x h r =
    ((r.0 ≡ Sent.queued) × (x.closed ≡ false) × (length x.queue < send_queue))
    ⊎ ((r ≡ (Sent.dropped, h)) × (x.closed ≡ false) × (send_queue ≤ length x.queue))
    ⊎ ((r ≡ (Sent.panicked, h)) × (x.closed ≡ true) × (lookup p h.conns ≢ some c))

-- A command to a node of a tracked hub is dropped at once when the node is not connected. Otherwise it
-- is sent to the connection that the lookup found, whatever happens to the hub before the send, when
-- each new connection is a new object and none reports a region after another of its node has replaced
-- it: the command is queued when the queue has room, it is dropped and changes nothing when the queue is
-- full, and it panics and changes nothing when the channel has been closed, which only happens when the
-- connection is by then no longer that of its node.
pub send_command_lem :
    (p frame : ℕ) (meanwhile : Hub → Hub) (h : Hub)
    → IsTracked h
    → History h (meanwhile h)
    → ((lookup p h.conns ≡ none) × (send_command p frame meanwhile h ≡ (Sent.dropped, h)))
      ⊎ ((c : ℕ) × (x : Conn) × (lookup p h.conns ≡ some c)
          × (lookup c (meanwhile h).heap ≡ some x)
          × IsDelivered p c x (meanwhile h) (send_command p frame meanwhile h))
unfolding send_command try_send
send_command_lem p frame meanwhile h t past = elim (Option-cases (lookup p h.conns)) [
  | inl gone ↦ inl (gone, ground arith)
  | inr (c, live) ↦
      let (y, was, own, op) = t.is_open p c live in
      let (x, found) = History-keeps_object c y past was in
      let t' = History-IsTracked past t in
      elim (Bool-cases x.closed) [
        | inl shut ↦ inr (
          c,
          x,
          live,
          found,
          inr (
              inr (
                ground arith,
                shut,
                λ still. let (z, at, own', op') = t'.is_open p c still in ground arith,
              )),
        )
        | inr opened ↦ elim (Bool-cases (ltb (length x.queue) send_queue)) [
          | inl room ↦ inr (c, x, live, found, inl (ground arith, opened, ground arith))
          | inr full ↦ inr (c, x, live, found, inr (inl (ground arith, opened, ground arith)))
        ]
      ]
]

move_stale :
    (c : ℕ) (x : Conn) (r : Region) (h : Hub)
    → IsTracked h
    → lookup c h.heap ≡ some x
    → lookup x.peer h.conns ≢ some c
    → same_region (label x.region) r ≡ false
    → same_region r r ≡ true
    → (move c x r h).region_counts r ≡ suc (live_in r (move c x r h))
unfolding move adjust_region live_in
move_stale c x r h t found stale differs same =
    let f : Conn → Conn = λ y. record y { region = some r } in
    let agree =
      sum_cong (weight r h.heap) (weight r (adjust c f h.heap)) h.conns t.one_each (λ p d there.
        let (y, at_d, own, op) = t.is_open p d there in
        elim (Bool-cases (c == d)) [
          | inl self ↦ ground arith
          | inr other ↦ ground (arith, lookup-adjust_ne c d f h.heap)
        ]) in
    ground (arith, t.exact r)

-- A connection that reports a new region after another of its node has replaced it adds a session of
-- that region that no connected node has.
pub set_region_stale :
    (c : ℕ) (raw : Text) (h : Hub) (x : Conn)
    → IsTracked h
    → lookup c h.heap ≡ some x
    → lookup x.peer h.conns ≢ some c
    → same_region (label x.region) (normalize_region raw) ≡ false
    → (set_region c raw h).region_counts (normalize_region raw)
      ≡ suc (live_in (normalize_region raw) (set_region c raw h))
unfolding set_region live_in
set_region_stale c raw h x t found stale differs =
    let r = normalize_region raw in
    let e : set_region c raw h ≡ move c x r h =
      ground (arith, same_region-sym r (label x.region)) in
    rw e (move_stale c x r h t found stale differs (same_region_refl r))
