-- ===== src/Mongo.antt =====
-- The MongoDB side of the controller: its data, its replica-set member and its reports.
pub mod Types
pub mod Report
pub mod Health
pub mod Spec
pub mod Members
pub mod Client
pub mod Status
pub mod Primary
pub mod Member
pub mod Offline
pub mod Process
pub mod Run
