-- ===== src/Drop/Accounting/Reservations.antt =====
-- A reservation keeps the books.
use Prim.Native.String.{String, ◌++◌}
use erebrus_gateway.Base.{
  ℕ, ◌≡◌, refl, subst, ◌||◌, Option, none, some, arith, Bool-cases, inl, inr,
}
use erebrus_gateway.Base.Table.{lookup, adjust, sum-insert, sum-adjust_same, lookup-adjust_fresh}
use erebrus_gateway.Base.Tx.{ok, >>=-eq-ok}
use erebrus_gateway.Model.Drop.{DropUpload}
use erebrus_gateway.Model.Db.{Db}
use erebrus_gateway.Drop.Quota.{charge_quota, reserve_node_capacity}
use erebrus_gateway.Drop.Upload.{
  ReserveInput, is_open, new_upload, open_reservation, rename_key, reuse_or_open,
  reserve_drop_upload, scan_upload_by_key, is_committed,
}
use erebrus_gateway.Drop.Accounting.Steps.{
  IsAccounted, reserved_weight, node_weight, charge_quota_state, reserve_node_capacity_state,
}

open_reservation-IsAccounted :
    (r : ReserveInput) (now id : ℕ) (s s' : Db) {a : ℕ × DropUpload}
    → IsAccounted s
    → lookup id s.uploads ≡ none
    → open_reservation r now id s ≡ ok (a, s')
    → IsAccounted s'
unfolding open_reservation
open_reservation-IsAccounted r now id s s' acc fresh h =
    let (_, s1, charged, h1) = >>=-eq-ok (charge_quota r.user r.scope r.declared_size) _ s h in
    let (_, s2, held, h2) =
      >>=-eq-ok (reserve_node_capacity r.node r.scope r.declared_size) _ s1 h1 in
    let (q, e1, used, reserved) = charge_quota_state r.user r.scope r.declared_size s s1 charged in
    let (t, e2, node) = reserve_node_capacity_state r.node r.scope r.declared_size s1 s2 held in
    let u = new_upload r now in
    record {
      reserved_exact = λ v. ground (
        arith,
        acc.reserved_exact v,
        reserved v,
        sum-insert (reserved_weight v) id u s.uploads fresh,
      );
      used_exact = λ v. ground (arith, acc.used_exact v, used v);
      node_exact = λ v.
          ground (arith, acc.node_exact v, node v, sum-insert (node_weight v) id u s.uploads fresh);
    }

-- A change of a key is not a change of the books.
rename_key-IsAccounted :
    (user id : ℕ) (key : String) (s s' : Db)
    → IsAccounted s
    → rename_key user id key s ≡ ok (tt, s')
    → IsAccounted s' × ((j : ℕ) → lookup j s.uploads ≡ none → lookup j s'.uploads ≡ none)
unfolding rename_key
rename_key-IsAccounted user id key s s' acc h =
    let f : DropUpload → DropUpload = λ u. record u { idempotency_key = key } in
    let e : s' ≡ record s { uploads = adjust id f s.uploads } = ground arith in
    (
      record {
        reserved_exact = λ v. ground (
          arith,
          acc.reserved_exact v,
          sum-adjust_same (reserved_weight v) id f s.uploads (λ u. refl),
        );
        used_exact = λ v. ground (arith, acc.used_exact v);
        node_exact = λ v.
            ground
              (arith, acc.node_exact v, sum-adjust_same (node_weight v) id f s.uploads (λ u. refl));
      },
      λ j fresh. ground (arith, lookup-adjust_fresh id j f s.uploads),
    )

reuse_or_open-IsAccounted :
    (uuid_text : ℕ → String) (r : ReserveInput) (now id : ℕ) (o : Option (ℕ × DropUpload))
    (s s' : Db) {a : ℕ × DropUpload}
    → IsAccounted s
    → lookup id s.uploads ≡ none
    → reuse_or_open uuid_text r now id o s ≡ ok (a, s')
    → IsAccounted s'
unfolding reuse_or_open
reuse_or_open-IsAccounted uuid_text r now id none s s' acc fresh h =
    open_reservation-IsAccounted r now id s s' acc fresh h
reuse_or_open-IsAccounted uuid_text r now id (some (i, u)) s s' acc fresh h =
    elim (Bool-cases (is_open u.status || is_committed u.status)) [
      | inl e ↦ let same : s ≡ s' = ground arith in subst IsAccounted same acc
      | inr e ↦
          let (_, s1, renamed, h1) =
            >>=-eq-ok (rename_key r.user i (u.idempotency_key ++ (":terminal:" ++ uuid_text i))) _ s
              (rw e at h) in
          let (acc1, keeps) = rename_key-IsAccounted r.user i _ s s1 acc renamed in
          open_reservation-IsAccounted r now id s1 s' acc1 (keeps id fresh) h1
    ]

-- A reservation keeps the books: what it adds to the counters is what its row holds.
pub reserve_drop_upload-IsAccounted :
    (uuid_text : ℕ → String) (r : ReserveInput) (now id : ℕ) (s s' : Db) {a : ℕ × DropUpload}
    → IsAccounted s
    → lookup id s.uploads ≡ none
    → reserve_drop_upload uuid_text r now id s ≡ ok (a, s')
    → IsAccounted s'
unfolding reserve_drop_upload
reserve_drop_upload-IsAccounted uuid_text r now id s s' acc fresh h =
    reuse_or_open-IsAccounted uuid_text r now id
      (scan_upload_by_key r.user r.idempotency_key s.uploads) s s' acc fresh h
