-- ===== src/Shared.antt =====
-- squids/_shared/src: the library that the squids share.
pub mod Cache
