-- ===== src/Hub/Sessions.antt =====
-- What the hub promises, without its connection objects and counts: the session of each node.
use erebrus_gateway.Base.{
  ℕ, ◌≡◌, ◌≢◌, sym, true, Option, none, some, arith, ◌==◌, if◌then◌else◌, Bool-cases, Option-cases,
  inl, inr, refl, ltb, length, not, ◌&&◌, ◌++◌, [], ◌∷◌,
}
use erebrus_gateway.Base.Keys.{lookup-delete_key}
use erebrus_gateway.Base.Table.{
  lookup, adjust, lookup-insert, lookup-adjust_self, lookup-adjust_ne, lookup-adjust_fresh,
}
use erebrus_gateway.Base.Text.{Text}
use erebrus_gateway.Hub.Region.{Region, normalize_region, label}
use erebrus_gateway.Hub.Connections.{
  Conn, Hub, adjust_region, evict, register, connect, unregister, disconnect, already, move,
  set_region, try_send, write_frame, new_conn, send_queue, tail,
}
use erebrus_gateway.Hub.Counts.{IsTracked}
use erebrus_gateway.Hub.History.{Event, run, IsTimely}

-- The connection of each connected node and its region.
abbrev pub Sessions : Type 0
Sessions = ℕ → Option (ℕ × Region)

abbrev session_of : ℕ → Option Conn → Option (ℕ × Region)
session_of c none = none
session_of c (some x) = some (c, label x.region)

-- The sessions that a hub keeps.
unfoldable pub sessions : Hub → Sessions
sessions h p = elim (lookup p h.conns) [ none ↦ none | some c ↦ session_of c (lookup c h.heap) ]

abbrev without : ℕ → Option (ℕ × Region) → Option (ℕ × Region)
without c none = none
without c (some (d, r)) = if d == c then none else some (d, r)

abbrev in_region : ℕ → Region → Option (ℕ × Region) → Option (ℕ × Region)
in_region c r none = none
in_region c r (some (d, q)) = if d == c then some (d, r) else some (d, q)

-- What an event does to the sessions.
abbrev pub step : Event → Sessions → Sessions
step (Event.starts c p) m q = if p == q then some (c, Region.unknown) else m q
step (Event.ends c) m q = without c (m q)
step (Event.reports c raw) m q = in_region c (normalize_region raw) (m q)
step (Event.is_sent c frame) m q = m q
step (Event.writes c) m q = m q

adjust-sessions :
    (c : ℕ) (f : Conn → Conn) (h : Hub) (q : ℕ)
    → ((x : Conn) → label (f x).region ≡ label x.region)
    → sessions (record h { heap = adjust c f h.heap }) q ≡ sessions h q
unfolding sessions
adjust-sessions c f h q keeps = elim (Option-cases (lookup q h.conns)) [
  | inl gone ↦ ground arith
  | inr (d, live) ↦ elim (Option-cases (lookup d h.heap)) [
    | inl lost ↦ ground (arith, lookup-adjust_fresh c d f h.heap lost)
    | inr (x, found) ↦ elim (Bool-cases (c == d)) [
      | inl same ↦ ground (arith, lookup-adjust_self c f h.heap x, keeps x)
      | inr other ↦ ground (arith, lookup-adjust_ne c d f h.heap)
    ]
  ]
]

try_send-sessions :
    (c frame : ℕ) (h : Hub) (q : ℕ) → sessions (try_send c frame h).1 q ≡ sessions h q
unfolding try_send
try_send-sessions c frame h q = elim (Option-cases (lookup c h.heap)) [
  | inl gone ↦ let e : (try_send c frame h).1 ≡ h = ground arith in rw e
  | inr (x, found) ↦ elim (Bool-cases (not x.closed && ltb (length x.queue) send_queue)) [
    | inl room ↦
        let f : Conn → Conn = λ y. record y { queue = y.queue ++ frame ∷ [] } in
        let e : (try_send c frame h).1 ≡ record h { heap = adjust c f h.heap } = ground arith in
        rw e (adjust-sessions c f h q (λ y. refl))
    | inr full ↦ let e : (try_send c frame h).1 ≡ h = ground arith in rw e
  ]
]

evict-sessions : (old : ℕ) (x : Conn) (h : Hub) (q : ℕ) → sessions (evict old x h) q ≡ sessions h q
unfolding evict adjust_region sessions
evict-sessions old x h q = adjust-sessions old (λ y. record y { closed = true }) h q (λ y. refl)

register-sessions :
    (c p : ℕ) (h : Hub) (q : ℕ)
    → lookup q h.conns ≢ some c
    → sessions (register c p h) q ≡ step (Event.starts c p) (sessions h) q
unfolding register adjust_region sessions
register-sessions c p h q apart = elim (Bool-cases (p == q)) [
  | inl same ↦ ground (arith, lookup-insert p q c h.conns, lookup-insert c c (new_conn p) h.heap)
  | inr other ↦ elim (Option-cases (lookup q h.conns)) [
    | inl gone ↦ ground (arith, lookup-insert p q c h.conns)
    | inr (d, live) ↦
        ground (arith, lookup-insert p q c h.conns, lookup-insert c d (new_conn p) h.heap)
  ]
]

not_fresh :
    (c : ℕ) (h : Hub) (q : ℕ) → lookup c h.heap ≡ none → IsTracked h → lookup q h.conns ≢ some c
not_fresh c h q fresh t live = let (x, found, own, op) = t.is_open q c live in ground arith

write_frame-sessions : (c : ℕ) (h : Hub) (q : ℕ) → sessions (write_frame c h) q ≡ sessions h q
unfolding write_frame
write_frame-sessions c h q =
    adjust-sessions c (λ y. record y { queue = tail y.queue }) h q (λ y. refl)

evict-conns : (old : ℕ) (x : Conn) (h : Hub) → (evict old x h).conns ≡ h.conns
unfolding evict adjust_region
evict-conns old x h = refl

already-label : (r : Region) (o : Option Region) → already r o ≡ true → label o ≡ r
already-label r none same = ground arith
already-label r (some q) same = ground arith

connect-sessions :
    (c p : ℕ) (h : Hub) (q : ℕ)
    → lookup c h.heap ≡ none
    → IsTracked h
    → sessions (connect c p h) q ≡ step (Event.starts c p) (sessions h) q
unfolding connect
connect-sessions c p h q fresh t = elim (Option-cases (lookup p h.conns)) [
  | inl gone ↦
      let e : connect c p h ≡ register c p h = ground arith in
      rw e (register-sessions c p h q (not_fresh c h q fresh t))
  | inr (old, was) ↦
      let (x, found, own, op) = t.is_open p old was in
      let e : connect c p h ≡ register c p (evict old x h) = ground arith in
      let same = evict-sessions old x h q in
      let apart : lookup q (evict old x h).conns ≢ some c =
        rw (evict-conns old x h) (not_fresh c h q fresh t) in
      let now = register-sessions c p (evict old x h) q apart in rw (e, now, same) refl
]

disconnect-sessions :
    (c : ℕ) (h : Hub) (q : ℕ)
    → IsTracked h
    → sessions (disconnect c h) q ≡ step (Event.ends c) (sessions h) q
unfolding disconnect unregister adjust_region sessions
disconnect-sessions c h q t = elim (Option-cases (lookup q h.conns)) [
  | inl gone ↦ elim (Option-cases (lookup c h.heap)) [
    | inl lost ↦ ground arith
    | inr (x, found) ↦ ground (arith, lookup-delete_key x.peer q h.conns)
  ]
  | inr (d, live) ↦
      let (y, there, own, op) = t.is_open q d live in
      elim (Bool-cases (d == c)) [
        | inl same ↦ ground (arith, lookup-delete_key y.peer q h.conns)
        | inr other ↦ elim (Option-cases (lookup c h.heap)) [
          | inl lost ↦ ground arith
          | inr (x, found) ↦ ground (arith, lookup-delete_key x.peer q h.conns)
        ]
      ]
]

move-sessions :
    (c : ℕ) (x : Conn) (r : Region) (h : Hub) (q : ℕ)
    → lookup c h.heap ≡ some x
    → sessions (move c x r h) q ≡ in_region c r (sessions h q)
unfolding move adjust_region sessions
move-sessions c x r h q found =
    let f : Conn → Conn = λ y. record y { region = some r } in
    elim (Option-cases (lookup q h.conns)) [
      | inl gone ↦ ground arith
      | inr (d, live) ↦ elim (Bool-cases (d == c)) [
        | inl same ↦ ground (arith, lookup-adjust_self c f h.heap x)
        | inr other ↦ elim (Option-cases (lookup d h.heap)) [
          | inl lost ↦ ground (arith, lookup-adjust_ne c d f h.heap)
          | inr (y, there) ↦ ground (arith, lookup-adjust_ne c d f h.heap)
        ]
      ]
    ]

-- A report of the region that the connection has already changes nothing.
same_region-sessions :
    (c : ℕ) (x : Conn) (r : Region) (h : Hub) (q : ℕ)
    → lookup c h.heap ≡ some x
    → already r x.region ≡ true
    → in_region c r (sessions h q) ≡ sessions h q
unfolding sessions
same_region-sessions c x r h q found same = elim (Option-cases (lookup q h.conns)) [
  | inl gone ↦ ground arith
  | inr (d, live) ↦ elim (Option-cases (lookup d h.heap)) [
    | inl lost ↦ ground arith
    | inr (y, there) ↦ elim (Bool-cases (d == c)) [
      | inl own ↦ ground (arith, already-label r x.region)
      | inr other ↦ ground arith
    ]
  ]
]

set_region-sessions :
    (c : ℕ) (raw : Text) (h : Hub) (x : Conn) (q : ℕ)
    → lookup c h.heap ≡ some x
    → sessions (set_region c raw h) q ≡ step (Event.reports c raw) (sessions h) q
unfolding set_region
set_region-sessions c raw h x q found =
    elim (Bool-cases (already (normalize_region raw) x.region)) [
      | inl same ↦
          let e : set_region c raw h ≡ h = ground arith in
          rw e (sym (same_region-sessions c x (normalize_region raw) h q found same))
      | inr other ↦
          let e : set_region c raw h ≡ move c x (normalize_region raw) h = ground arith in
          rw e (move-sessions c x (normalize_region raw) h q found)
    ]

-- In a hub whose connections are tracked, whatever timely event happens, the sessions afterwards are
-- those before with the event's effect on them: a connection that starts takes the place of the
-- node's session, in no known region; one that ends takes away its own session only; one that
-- reports a region moves its own session; frames change none.
pub run-sessions :
    (e : Event) (h : Hub) (q : ℕ)
    → IsTracked h
    → IsTimely e h
    → sessions (run e h) q ≡ step e (sessions h) q
unfolding run
run-sessions (Event.starts c p) h q t fresh = connect-sessions c p h q fresh t
run-sessions (Event.ends c) h q t timely = disconnect-sessions c h q t
run-sessions (Event.reports c raw) h q t (x, found, live) = set_region-sessions c raw h x q found
run-sessions (Event.is_sent c frame) h q t timely = try_send-sessions c frame h q
run-sessions (Event.writes c) h q t timely = write_frame-sessions c h q
