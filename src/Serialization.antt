-- ===== src/Serialization.antt =====
-- lib/serialization/serialization.c and client/types.h: the messages, their JSON text, and the
-- parser of both sides. The JSON library is a parameter.
pub mod Commands
pub mod Parse
pub mod RoundTrip
pub mod Transfer
pub mod Async
mod Examples
