-- ===== src/Model.antt =====
-- crates/snxcore/src/model.rs, model/params.rs, model/wrappers.rs and tunnel.rs: the types that the
-- components share.
pub mod Names
pub mod TunnelType
pub mod CertType
pub mod ColorTheme
pub mod TransportType
pub mod TlsVersion
pub mod OperationMode
pub mod Params
pub mod Session
pub mod Login
pub mod ConfigNames
