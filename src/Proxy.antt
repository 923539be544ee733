-- ===== src/Proxy.antt =====
-- proxy/: the transparent proxy and its SOCKS5 client.
pub mod Dialer
pub mod Endpoint
pub mod Listener
pub mod Buffer
pub mod Codec
pub mod Protocol
pub mod Stream
pub mod Session
pub mod Pool
pub mod Queue
pub mod Readers
pub mod Associations
pub mod Handler
pub mod Datagram
pub mod Answer
