-- ===== src/Network.antt =====
-- src/network: the wire format, the buffers, connections and timers of an I/O thread.
pub mod Bytes
pub mod Buffer
pub mod FrameCodec
pub mod Connection
pub mod TimerWheel
pub mod EventLoop
pub mod Acceptor
