-- ===== src/Broker.antt =====
-- crates/servicemanager-broker: the privileged process that carries out requests.
pub mod Activity
pub mod Frames
pub mod Token
