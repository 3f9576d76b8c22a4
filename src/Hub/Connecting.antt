-- ===== src/Hub/Connecting.antt =====
-- A connection that starts or ends keeps the counts of sessions exact.
use erebrus_gateway.Base.{
  ℕ, ◌≡◌, true, none, some, arith, ◌==◌, Bool-cases, Option-cases, inl, inr, refl,
}
use erebrus_gateway.Base.Keys.{
  lookup-delete_key, insert-IsUnique, delete_key-IsUnique, sum-insert_over, sum-delete_key,
  sum_cong,
}
use erebrus_gateway.Base.Table.{
  lookup, adjust, insert, lookup-insert, lookup-adjust_self, lookup-adjust_ne, sum-insert,
  lookup-adjust_fresh, le-sum,
}
use erebrus_gateway.Hub.Connections.{
  Conn, Hub, adjust_region, evict, register, connect, unregister, disconnect, new_conn,
}
use erebrus_gateway.Hub.Counts.{weight, live_in, IsTracked}

register_new-IsTracked :
    (c p : ℕ) (h : Hub)
    → lookup c h.heap ≡ none
    → lookup p h.conns ≡ none
    → IsTracked h
    → IsTracked (register c p h)
unfolding register adjust_region live_in
register_new-IsTracked c p h fresh gone t = record {
  one_each = insert-IsUnique p c h.conns t.one_each;
  is_open = λ q d live. elim (Bool-cases (p == q)) [
    | inl same ↦ (
      new_conn p,
      ground (arith, lookup-insert p q c h.conns, lookup-insert c d (new_conn p) h.heap),
      ground arith,
      refl,
    )
    | inr other ↦
        let (y, there, own, op) = t.is_open q d (ground (arith, lookup-insert p q c h.conns)) in
        (y, ground (arith, lookup-insert c d (new_conn p) h.heap), own, op)
  ];
  exact = λ r.
      let agree =
        sum_cong (weight r h.heap) (weight r (insert c (new_conn p) h.heap)) h.conns t.one_each
          (λ q d live.
            let (y, there, own, op) = t.is_open q d live in
            ground (arith, lookup-insert c d (new_conn p) h.heap)) in
      let more = sum-insert (weight r (insert c (new_conn p) h.heap)) p c h.conns gone in
      ground (arith, lookup-insert c c (new_conn p) h.heap, t.exact r);
}

register_over-IsTracked :
    (c p old : ℕ) (x : Conn) (h : Hub)
    → lookup c h.heap ≡ none
    → lookup p h.conns ≡ some old
    → lookup old h.heap ≡ some x
    → IsTracked h
    → IsTracked (register c p (evict old x h))
unfolding register evict adjust_region live_in
register_over-IsTracked c p old x h fresh was found t =
    let close : Conn → Conn = λ y. record y { closed = true } in
    let mid = adjust old close h.heap in
    let self = lookup-adjust_self old close h.heap x found in
    let clear = lookup-adjust_fresh old c close h.heap fresh in
    let (z, stale, owner, was_open) = t.is_open p old was in
    record {
      one_each = insert-IsUnique p c h.conns t.one_each;
      is_open = λ q d live. elim (Bool-cases (p == q)) [
        | inl same ↦ (
          new_conn p,
          ground (arith, lookup-insert p q c h.conns, lookup-insert c d (new_conn p) mid),
          ground arith,
          refl,
        )
        | inr other ↦
            let (y, there, own, op) = t.is_open q d (ground (arith, lookup-insert p q c h.conns)) in
            (
              y,
              ground
                  (arith, lookup-insert c d (new_conn p) mid, lookup-adjust_ne old d close h.heap),
              own,
              op,
            )
      ];
      exact = λ r.
          let w' = weight r (insert c (new_conn p) mid) in
          let agree = sum_cong (weight r h.heap) w' h.conns t.one_each (λ q d live.
            let (y, there, own, op) = t.is_open q d live in
            elim (Bool-cases (old == d)) [
              | inl same ↦ ground (arith, lookup-insert c d (new_conn p) mid, self)
              | inr other ↦
                  ground
                    (arith, lookup-insert c d (new_conn p) mid, lookup-adjust_ne old d close h.heap)
            ]) in
          let more = sum-insert_over w' p c old h.conns was in
          let least = le-sum (weight r h.heap) p h.conns old was in
          ground (
            arith,
            lookup-insert c c (new_conn p) mid,
            lookup-insert c old (new_conn p) mid,
            self,
            t.exact r,
          );
    }

pub connect-IsTracked :
    (c p : ℕ) (h : Hub) → lookup c h.heap ≡ none → IsTracked h → IsTracked (connect c p h)
unfolding connect
connect-IsTracked c p h fresh t = elim (Option-cases (lookup p h.conns)) [
  | inl gone ↦
      let e : connect c p h ≡ register c p h = ground arith in
      rw e (register_new-IsTracked c p h fresh gone t)
  | inr (old, was) ↦
      let (x, found, own, op) = t.is_open p old was in
      let e : connect c p h ≡ register c p (evict old x h) = ground arith in
      rw e (register_over-IsTracked c p old x h fresh was found t)
]

unregister-IsTracked :
    (c : ℕ) (x : Conn) (h : Hub)
    → lookup c h.heap ≡ some x
    → lookup x.peer h.conns ≡ some c
    → IsTracked h
    → IsTracked (unregister x h)
unfolding unregister adjust_region live_in
unregister-IsTracked c x h found live t = record {
  one_each = delete_key-IsUnique x.peer h.conns t.one_each;
  is_open = λ q d there. t.is_open q d (ground (arith, lookup-delete_key x.peer q h.conns));
  exact = λ r.
      let less = sum-delete_key (weight r h.heap) x.peer c h.conns t.one_each live in
      ground (arith, t.exact r);
}

pub disconnect-IsTracked : (c : ℕ) (h : Hub) → IsTracked h → IsTracked (disconnect c h)
unfolding disconnect
disconnect-IsTracked c h t = elim (Option-cases (lookup c h.heap)) [
  | inl gone ↦ let e : disconnect c h ≡ h = ground arith in rw e t
  | inr (x, found) ↦ elim (Option-cases (lookup x.peer h.conns)) [
    | inl gone ↦ let e : disconnect c h ≡ h = ground arith in rw e t
    | inr (d, live) ↦ elim (Bool-cases (d == c)) [
      | inl same ↦
          let e : disconnect c h ≡ unregister x h = ground arith in
          rw e (unregister-IsTracked c x h found (ground arith) t)
      | inr other ↦ let e : disconnect c h ≡ h = ground arith in rw e t
    ]
  ]
]
