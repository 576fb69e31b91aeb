-- ===== src/Decode.antt =====
-- teltonika.go: the decoding functions, from the packet's body down.
pub mod Elements
pub mod Frame
pub mod Bounds
pub mod Groups
pub mod Frames
pub mod Messages
pub mod Packets
