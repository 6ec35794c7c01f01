-- ===== src/Common.antt =====
-- common/const.go and common/model: the codes, the types of files, and the records that travel.
pub mod Const
pub mod Mime
pub mod Model
pub mod Json
