-- ===== src/Tests.antt =====
-- The theorems at concrete packets, readers and buffers, and runs of the code on them.
mod Data
mod Transports
mod Codecs
mod Utils
mod Elements
mod Json
mod Server
mod Sessions
mod Udp
mod Datagrams
mod Client
mod Http
mod Generator
mod Pages
mod Runs
