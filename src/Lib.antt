-- ===== src/Lib.antt =====
-- The Erebrus gateway: its decentralised storage (Drop), its organizations, the nodes with their live
-- connections, VPN clients and experience points.
--
-- The gateway (Go, cmd/gateway) keeps users, organizations, nodes and files in PostgreSQL. The
-- methods of internal/store are its core: each is a transaction, or a few statements, over tables
-- that the HTTP handlers of internal/api, the node hub of internal/nodehub and the reconciler of
-- cmd/gateway call. Here a table is an association list from its primary key to its row, the database
-- is a record of tables, and a method is a function from the database to a value and the new
-- database, or to an error, on which the database stays as it was.
--
-- - Base: the shared names, signed and 64-bit integers (Base/Int), text as ASCII bytes (Base/Text),
--   tables (Base/Table), tables with distinct keys (Base/Keys), transactions (Base/Tx) and sequences
--   of transactions (Base/Session).
-- - Model: the rows of internal/store/models.go and the database.
-- - Drop/Tier: ResolveDropEntitlement, GetDropTierLimit and NormalizeDropTier of
--   internal/store/drop.go.
-- - Drop/Quota and Drop/Upload: ReserveDropUpload and reserveNodeCapacityTx of
--   internal/store/drop.go, CommitDropUpload, ReleaseDropReservation and adjustQuotaTx of
--   internal/store/drop_files.go.
-- - Drop/Deletion: MarkDropFileDeletePending and FinalizeDropFileDeletion.
-- - Drop/Maintenance: FailDropUploadWithOrphanPin and ExpireDropReservations.
-- - Drop/Node: internal/store/drop_node.go, what nodes report and how much room they have.
-- - Drop/Access, Drop/ReserveHandler, Drop/Transfers: handlers of internal/api/drop.go, who may see
--   and delete a file, the request for a reservation, the upload of content and deletion.
-- - Drop/ReserveGuards, Serving, Settling, Outcomes: the proofs about these handlers.
-- - Drop/Accounting, Limits, Idempotence, PinSafety, Entitlement, Charges: the proofs about Drop.
-- - Orgs/Plans: internal/store/entitlements.go, plans, seats and limits.
-- - Orgs/Seats, Orgs/Members, Orgs/Lifecycle, Orgs/Slug: internal/store/orgs.go, roles and seats,
--   members, creation, change and deletion of organizations, and their slugs.
-- - Orgs/Invites: internal/store/org_invites.go and internal/store/account_invites.go.
-- - Orgs/Handlers: nine handlers of an owner in internal/api/orgs.go, with UpsertUserByWallet of
--   internal/store/users.go; Orgs/Authority: the proofs about them.
-- - Orgs/SeatLimits, Ownership, OwnershipTransfer, Joining, PlanChange, SlugShape: the proofs about
--   organizations.
-- - Xp/Award: internal/store/xp.go, the awards of points and the tier; Xp/Ledger and Xp/Tiers: the
--   proofs about them.
-- - Xp/Referrals: internal/store/referrals.go, internal/api/referrals.go and awardReferralXP of
--   internal/api/subscriptions.go; Xp/Codes and Xp/Redeeming: the proofs about them.
-- - Hub/Region and Hub/Connections: the connections of internal/nodehub/hub.go and the regions of
--   internal/metrics/metrics.go; Hub/Gateway: the messages of nodes, with what the store keeps of
--   them; Hub/Counts, Connecting, History, Sessions, Liveness: the proofs about the hub.
-- - Nodes/Status: internal/store/nodes.go and the synchronisation of internal/store/org_nodes.go.
-- - Nodes/Services, Nodes/Registration: the rest of internal/store/org_nodes.go and
--   internal/store/sentinel_licenses.go; Nodes/Tokens: internal/store/registration_tokens.go;
--   Nodes/Handlers: handleOrgNodeRegister of
--   internal/api/org_nodes.go; Nodes/Reports: the reports of internal/store/firewall_policy.go; Nodes/Provisioning:
--   internal/store/provisioning.go.
-- - Nodes/Admission, Enrollment, ServiceLimits, Keeping, Provisioned, Syncing, TokenLife: the proofs about nodes.
-- - Vpn/Plan: UserOrgVPNPlan of internal/store/orgs.go; Vpn/PlanTier: the proof about it.
-- - Vpn/Clients: internal/store/clients.go; Vpn/Provision: handleProvisionClient and doProvision of
--   internal/api/vpn.go; Vpn/Metering and Vpn/Reconnect: the proofs about them.
--
-- How the parts interact: memberships and plans decide the Drop tier of a user, and so the quota
-- that ReserveDropUpload checks; a reservation holds bytes of the user and of the node until a
-- commit turns them into a file, or a release gives them back; a deletion gives the bytes of the
-- file back and unpins the content when no other file needs it. A node is registered under an
-- organization with a token; its connection, its hello and its heartbeats set the status of the node
-- and of the organization's record of it; a plan brings managed nodes and licences; a membership or a
-- plan lets a user have a VPN client on a node, which reports the traffic.
--
-- Conventions. Identifiers are UUIDs, which the program only compares: they are numbers, and a new
-- one is an argument, with its freshness as a hypothesis where a theorem needs it. Times are
-- seconds, and the present is an argument. The declared size of an upload is a natural number, since
-- the handler refuses other sizes. The sums of the quota and capacity checks are int64 and wrap
-- around as in Go; a counter that leaves bigint is an error of the statement; the
-- deltas of quotas are taken to be within 32 bits (Drop/Quota). The loop of
-- resolveOrgSlug and that of EnsureReferralCode have the five attempts of the source; every other loop runs over a list. The critical
-- sections of the hub are steps, in any order, on a heap of connection objects, since a replaced
-- connection keeps its object. Functions of several transactions keep what they have committed when
-- they fail (Base/Session).
--
-- Not modelled: row locks and the interleaving of statements inside a transaction, which PostgreSQL
-- serialises by them; foreign keys on users; display fields and timestamps that no decision reads;
-- HTTP, JSON and metrics; letters outside ASCII. Nodes are parameters: what they answer is an
-- argument, and so are SHA-256, new keys and tokens, the bytes of rand.Read, and whether a node takes clients by its load. The
-- other handlers, AcceptOrgInvitesForEmail, firewall rules, perks and the caches are not part of this
-- development.
pub mod Base
pub mod Model
pub mod Drop
pub mod Orgs
pub mod Xp
pub mod Hub
pub mod Nodes
pub mod Vpn
