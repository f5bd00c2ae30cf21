-- ===== src/Wire.antt =====
-- common/message.h and common/message.cpp: what fcopy puts on the wire.
pub mod Ints
pub mod Messages
pub mod Bodies
pub mod Head
pub mod Stream
