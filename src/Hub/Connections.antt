-- ===== src/Hub/Connections.antt =====
-- The connections of the hub (internal/nodehub/hub.go: Hub, conn, Serve, setRegion, SendCommand).
-- A connection is an object that its own goroutines keep, also after the hub has replaced it: the
-- objects are a heap, and `conns` has the object of each connected node.
use erebrus_gateway.Base.{
  ℕ, Bool, true, false, Option, none, some, List, [], ◌∷◌, ◌++◌, ltb, ◌==◌, if◌then◌else◌, length,
}
use erebrus_gateway.Base.Int.{ℤ, pos, negsuc, pos_part, leb_ℤ, ◌+ℤ◌}
use erebrus_gateway.Base.Keys.{delete_key}
use erebrus_gateway.Base.Table.{Table, lookup, insert, adjust}
use erebrus_gateway.Base.Text.{Text}
use erebrus_gateway.Hub.Region.{Region, same_region, normalize_region, label}

-- conn; a frame is a number, and `closed` says that the channel `send` is closed.
pub record Conn : Type 0 where
  pub peer : ℕ
  pub region : Option Region
  pub queue : List ℕ
  pub closed : Bool

-- Hub; a region that regionCounts lacks counts 0.
pub record Hub : Type 0 where
  pub conns : Table ℕ
  pub region_counts : Region → ℕ
  pub heap : Table Conn

abbrev pub send_queue : ℕ
send_queue = 16

-- New
abbrev pub new_hub : Hub
new_hub = record { conns = []; region_counts = λ _. 0; heap = [] }

-- Online
unfoldable pub online : Hub → ℕ
online h = length h.conns

-- A count after a change: one that is not positive is deleted.
abbrev changed : ℕ → ℤ → ℕ
changed n delta = let m = pos n +ℤ delta in if leb_ℤ m (pos 0) then 0 else pos_part m

-- adjustRegionLocked
unfoldable pub adjust_region : Region → ℤ → Hub → Hub
adjust_region r delta h = record h {
  region_counts =
      λ q. if same_region r q then changed (h.region_counts q) delta else h.region_counts q;
}

abbrev pub new_conn : ℕ → Conn
new_conn p = record { peer = p; region = none; queue = []; closed = false }

-- The replacement of the stale connection object `x` under `old`.
unfoldable pub evict : ℕ → Conn → Hub → Hub
unfolding adjust_region
evict old x h =
    let h' = adjust_region (label x.region) (negsuc 0) h in
    record h' { heap = adjust old (λ y. record y { closed = true }) h'.heap }

-- The registration of a new connection object.
unfoldable pub register : ℕ → ℕ → Hub → Hub
unfolding adjust_region
register c p h =
    adjust_region Region.unknown (pos 1)
      (record h { conns = insert p c h.conns; heap = insert c (new_conn p) h.heap })

-- The first critical section of Serve, for a new connection object `c`.
unfoldable pub connect : ℕ → ℕ → Hub → Hub
unfolding evict register
connect c p h = register c p (elim (lookup p h.conns) [
  | none ↦ h
  | some old ↦ elim (lookup old h.heap) [ none ↦ h | some x ↦ evict old x h ]
])

abbrev pub is_conn : ℕ → Option ℕ → Bool
is_conn c none = false
is_conn c (some d) = d == c

-- The removal of the connection object `x` of a node that is still registered.
unfoldable pub unregister : Conn → Hub → Hub
unfolding adjust_region
unregister x h =
    let h' = adjust_region (label x.region) (negsuc 0) h in
    record h' { conns = delete_key x.peer h'.conns }

-- The second critical section of Serve, when the connection `c` has ended.
unfoldable pub disconnect : ℕ → Hub → Hub
unfolding unregister
disconnect c h = elim (lookup c h.heap) [
  | none ↦ h
  | some x ↦ if is_conn c (lookup x.peer h.conns) then unregister x h else h
]

abbrev pub already : Region → Option Region → Bool
already r none = false
already r (some q) = same_region r q

-- The part of setRegion under the hub's lock, for the connection object `x` under `c`.
unfoldable pub move : ℕ → Conn → Region → Hub → Hub
unfolding adjust_region
move c x r h =
    let h' = adjust_region (label x.region) (negsuc 0) h in
    adjust_region r (pos 1)
      (record h' { heap = adjust c (λ y. record y { region = some r }) h'.heap })

-- setRegion
unfoldable pub set_region : ℕ → Text → Hub → Hub
unfolding move normalize_region
set_region c raw h = elim (lookup c h.heap) [
  | none ↦ h
  | some x ↦ let r = normalize_region raw in if already r x.region then h else move c x r h
]

-- What a send to a channel does that never blocks; on a closed channel it panics.
pub data Sent : Type 0 where
  queued dropped panicked : Sent

-- select { case c.send <- frame: default: }
unfoldable pub try_send : ℕ → ℕ → Hub → Sent × Hub
try_send c frame h = elim (lookup c h.heap) [
  | none ↦ (Sent.dropped, h)
  | some x ↦
      if x.closed
      then (Sent.panicked, h)
      else if ltb (length x.queue) send_queue
      then (
        Sent.queued,
        record h { heap = adjust c (λ y. record y { queue = y.queue ++ frame ∷ [] }) h.heap },
      )
      else (Sent.dropped, h)
]

-- SendCommand. The lock is released between the lookup and the send: `meanwhile` is what the other
-- goroutines make of the hub in between.
unfoldable pub send_command : ℕ → ℕ → (Hub → Hub) → Hub → Sent × Hub
unfolding try_send
send_command p frame meanwhile h = elim (lookup p h.conns) [
  | none ↦ (Sent.dropped, h)
  | some c ↦ try_send c frame (meanwhile h)
]

abbrev pub tail : List ℕ → List ℕ
tail [] = []
tail (_ ∷ q) = q

-- writePump takes a frame of its queue.
unfoldable pub write_frame : ℕ → Hub → Hub
write_frame c h = record h { heap = adjust c (λ y. record y { queue = tail y.queue }) h.heap }
