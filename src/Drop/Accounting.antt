-- ===== src/Drop/Accounting.antt =====
-- The books of Drop: the counters of a user and of a node against the uploads and the files that
-- they stand for.
pub mod Steps
pub mod Reservations
pub mod Uploads
pub mod Files
pub mod System
