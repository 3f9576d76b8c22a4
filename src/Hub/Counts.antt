-- ===== src/Hub/Counts.antt =====
-- The sessions that the hub counts by region are those of the connected nodes.
use erebrus_gateway.Base.{
  ℕ, ◌≡◌, false, Option, none, some, [], ◌∷◌, ◌++◌, not, ◌&&◌, arith, ltb, ◌==◌, if◌then◌else◌,
  Bool-cases, Option-cases, inl, inr, refl, length,
}
use erebrus_gateway.Base.Keys.{IsUnique, sum_cong, sum_change}
use erebrus_gateway.Base.Table.{
  Table, lookup, sum, adjust, lookup-adjust_self, lookup-adjust_ne, le-sum,
}
use erebrus_gateway.Base.Text.{Text}
use erebrus_gateway.Hub.Region.{Region, same_region, normalize_region, label}
use erebrus_gateway.Hub.Connections.{
  Conn, Hub, adjust_region, already, move, set_region, try_send, write_frame, tail, send_queue,
}

abbrev weight_of : Region → Option Conn → ℕ
weight_of r none = 0
weight_of r (some x) = if same_region (label x.region) r then 1 else 0

abbrev pub weight : Region → Table Conn → ℕ → ℕ
weight r heap c = weight_of r (lookup c heap)

-- The number of connected nodes whose connection is in a region.
unfoldable pub live_in : Region → Hub → ℕ
live_in r h = sum (weight r h.heap) h.conns

-- Each connected node has one connection, which is open and its own, and the counts are exact.
pub record IsTracked (h : Hub) : Type 0 where
  pub one_each : IsUnique h.conns
  pub is_open :
      (p c : ℕ)
      → lookup p h.conns ≡ some c
      → (x : Conn) × (lookup c h.heap ≡ some x) × (x.peer ≡ p) × (x.closed ≡ false)
  pub exact : (r : Region) → h.region_counts r ≡ live_in r h

-- A change of an object that keeps its region, its peer and its channel.
adjust-IsTracked :
    (c : ℕ) (f : Conn → Conn) (h : Hub)
    → ((x : Conn) → (f x).region ≡ x.region)
    → ((x : Conn) → (f x).peer ≡ x.peer)
    → ((x : Conn) → (f x).closed ≡ x.closed)
    → IsTracked h
    → IsTracked (record h { heap = adjust c f h.heap })
unfolding live_in
adjust-IsTracked c f h kr kp kc t = record {
  one_each = t.one_each;
  is_open = λ p d live.
      let (x, found_at, own, op) = t.is_open p d live in
      elim (Bool-cases (c == d)) [
        | inl same ↦ (
          f x,
          ground (arith, lookup-adjust_self c f h.heap x),
          ground (arith, kp x),
          ground (arith, kc x),
        )
        | inr other ↦ (x, ground (arith, lookup-adjust_ne c d f h.heap), own, op)
      ];
  exact = λ r.
      let agree =
        sum_cong (weight r h.heap) (weight r (adjust c f h.heap)) h.conns t.one_each (λ p d live.
          let (x, found_at, own, op) = t.is_open p d live in
          elim (Bool-cases (c == d)) [
            | inl same ↦ ground (arith, lookup-adjust_self c f h.heap x, kr x)
            | inr other ↦ ground (arith, lookup-adjust_ne c d f h.heap)
          ]) in
      ground (arith, t.exact r);
}

move-IsTracked :
    (c : ℕ) (x : Conn) (r : Region) (h : Hub)
    → lookup c h.heap ≡ some x
    → lookup x.peer h.conns ≡ some c
    → IsTracked h
    → IsTracked (move c x r h)
unfolding move adjust_region live_in
move-IsTracked c x r h found_at live t =
    let f : Conn → Conn = λ y. record y { region = some r } in
    let self = lookup-adjust_self c f h.heap x found_at in
    record {
      one_each = t.one_each;
      is_open = λ p d q.
          let (y, there, own, op) = t.is_open p d q in
          elim (Bool-cases (c == d)) [
            | inl same ↦ (f y, ground (arith, self), own, op)
            | inr other ↦ (y, ground (arith, lookup-adjust_ne c d f h.heap), own, op)
          ];
      exact = λ q.
          let other =
            sum_change (weight q h.heap) (weight q (adjust c f h.heap)) x.peer c h.conns t.one_each
              live
              (λ p d ne there.
                let (y, found, own, op) = t.is_open p d there in
                ground (arith, lookup-adjust_ne c d f h.heap)) in
          let here = le-sum (weight q h.heap) x.peer h.conns c live in
          ground (arith, self, t.exact q);
    }

pub set_region-IsTracked :
    (c : ℕ) (raw : Text) (h : Hub) (x : Conn)
    → lookup c h.heap ≡ some x
    → lookup x.peer h.conns ≡ some c
    → IsTracked h
    → IsTracked (set_region c raw h)
unfolding set_region
set_region-IsTracked c raw h x found_at live t =
    elim (Bool-cases (already (normalize_region raw) x.region)) [
      | inl same ↦ let e : set_region c raw h ≡ h = ground arith in rw e t
      | inr other ↦
          let e : set_region c raw h ≡ move c x (normalize_region raw) h = ground arith in
          rw e (move-IsTracked c x (normalize_region raw) h found_at live t)
    ]

pub try_send-IsTracked : (c frame : ℕ) (h : Hub) → IsTracked h → IsTracked (try_send c frame h).1
unfolding try_send
try_send-IsTracked c frame h t = elim (Option-cases (lookup c h.heap)) [
  | inl gone ↦ let e : (try_send c frame h).1 ≡ h = ground arith in rw e t
  | inr (x, found) ↦ elim (Bool-cases (not x.closed && ltb (length x.queue) send_queue)) [
    | inl room ↦
        let f : Conn → Conn = λ y. record y { queue = y.queue ++ frame ∷ [] } in
        let e : (try_send c frame h).1 ≡ record h { heap = adjust c f h.heap } = ground arith in
        rw e (adjust-IsTracked c f h (λ y. refl) (λ y. refl) (λ y. refl) t)
    | inr full ↦ let e : (try_send c frame h).1 ≡ h = ground arith in rw e t
  ]
]

pub write_frame-IsTracked : (c : ℕ) (h : Hub) → IsTracked h → IsTracked (write_frame c h)
unfolding write_frame
write_frame-IsTracked c h t =
    adjust-IsTracked c (λ y. record y { queue = tail y.queue }) h (λ y. refl) (λ y. refl)
      (λ y. refl) t
