-- ===== src/Proto.antt =====
-- src/Example-ThriftRPC/gen-cpp: what the Thrift compiler made of the service `TestProto`. The
-- protocol that the generated code reads and writes with is a library, and a parameter.
pub mod Wire
pub mod Structs
pub mod Client
pub mod Processor
pub mod Call
pub mod Concurrent
mod Tests
pub mod Handlers
