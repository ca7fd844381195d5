-- ===== src/RpcStream.antt =====
-- subsys/rpc/src/fd_rpc_stream.c: packets in order over a link that may lose, repeat and reorder
-- them.
pub mod Types
pub mod Send
pub mod Receive
pub mod Check
pub mod Packets
pub mod Sending
pub mod Quiet
pub mod Link
pub mod Connect
mod Tests
