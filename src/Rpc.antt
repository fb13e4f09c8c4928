-- ===== src/Rpc.antt =====
-- src/src: the clients and servers of the two example services. Thrift and brpc are parameters:
-- what their calls answer is given as values or functions.
pub mod Connect
pub mod Session
pub mod Server
pub mod Echo
