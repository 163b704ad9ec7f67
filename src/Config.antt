-- ===== src/Config.antt =====
-- The configuration (src/config.rs): its types, the KDL document as an interface, and the parsing.
pub mod Types
pub mod Kdl
pub mod Fields
pub mod Parse
pub mod Find
pub mod Distinct
pub mod Env
pub mod Nodes
pub mod Keys
pub mod Validity
