-- ===== src/Transport.antt =====
-- teltonika.go: packets on TCP and UDP, decoded from a reader or a slice, and encoded.
pub mod Stream
pub mod Config
pub mod Size
pub mod Tcp
pub mod Udp
pub mod Format
pub mod Sizes
pub mod Encoding
pub mod Decoding
pub mod RoundTrip
pub mod Streaming
pub mod Bounds
pub mod Safety
pub mod Readers
pub mod Responses
