-- ===== src/Encode.antt =====
-- teltonika.go: the encoding functions, from the packet's body down.
pub mod Elements
pub mod Frame
pub mod Sizes
pub mod Frames
pub mod Messages
pub mod Packets
pub mod Writes
pub mod Groups
