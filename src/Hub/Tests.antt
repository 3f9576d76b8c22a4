-- ===== src/Hub/Tests.antt =====
-- What the theorems about the hub say of a node 7 that connects, reports a region and connects again.
use erebrus_gateway.Base.{ℕ, some, ◌≡◌, ◌⊎◌, none, [], refl, true, false}
use erebrus_gateway.Base.Table.{lookup, insert, adjust}
use erebrus_gateway.Base.Text.{codes}
use erebrus_gateway.Hub.Region.{normalize_region}
use erebrus_gateway.Hub.Connections.{
  Conn, Hub, Sent, new_hub, connect, evict, set_region, send_command,
}
use erebrus_gateway.Hub.Counts.{IsTracked}
use erebrus_gateway.Hub.History.{
  Event, History, run, History-IsTracked, new_hub-IsTracked, send_command_lem, IsDelivered,
}
use erebrus_gateway.Hub.Sessions.{sessions, step, run-sessions}

abbrev in_eu : Hub
in_eu = run (Event.reports 1 (codes "EU")) (run (Event.starts 1 7) new_hub)

abbrev again : Hub
again = run (Event.ends 1) (run (Event.starts 2 7) in_eu)

again_reached : History new_hub again
unfolding run connect set_region lookup insert adjust normalize_region
again_reached = History.next (Event.starts 1 7) refl (
    History.next (Event.reports 1 (codes "EU"))
      (record { peer = 7; region = none; queue = []; closed = false }, refl, refl)
      (History.next (Event.starts 2 7) refl (History.next (Event.ends 1) tt History.done)))

History-IsTracked_example : IsTracked again
History-IsTracked_example = History-IsTracked again_reached new_hub-IsTracked

run-sessions_example :
    sessions (run (Event.ends 2) again) 7 ≡ step (Event.ends 2) (sessions again) 7
run-sessions_example = run-sessions (Event.ends 2) again 7 History-IsTracked_example tt

-- While a command to node 7 waits, connection 3 of the node replaces connection 2.
abbrev replacing : Hub → Hub
replacing = run (Event.starts 3 7)

send_command_lem_example :
    ((lookup 7 again.conns ≡ none) × (send_command 7 100 replacing again ≡ (Sent.dropped, again)))
    ⊎ ((c : ℕ) × (x : Conn) × (lookup 7 again.conns ≡ some c)
        × (lookup c (replacing again).heap ≡ some x)
        × IsDelivered 7 c x (replacing again) (send_command 7 100 replacing again))
unfolding run connect lookup insert adjust
send_command_lem_example =
    send_command_lem 7 100 replacing again History-IsTracked_example
      (History.next (Event.starts 3 7) refl History.done)

command_panics : (send_command 7 100 replacing again).0 ≡ Sent.panicked
unfolding run connect evict send_command lookup insert adjust
command_panics = refl

command_queued : (send_command 7 100 (λ h. h) again).0 ≡ Sent.queued
unfolding run send_command lookup insert adjust
command_queued = refl

-- Connection 1 of node 7, which connection 2 has replaced before it reported a region.
abbrev replaced : Hub
replaced = run (Event.starts 2 7) (run (Event.starts 1 7) new_hub)

replaced-IsTracked : IsTracked replaced
unfolding run connect lookup insert adjust
replaced-IsTracked =
    History-IsTracked
      (History.next (Event.starts 1 7) refl (History.next (Event.starts 2 7) refl History.done))
      new_hub-IsTracked

abbrev closed_conn : Conn
closed_conn = record { peer = 7; region = none; queue = []; closed = true }
