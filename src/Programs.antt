-- ===== src/Programs.antt =====
-- The client and the server program (src/Client.cpp, src/Server.cpp, src/Common.h). The parser of
-- the command line is a library: a program starts from the values of its options.
pub mod Options
pub mod Client
pub mod Server
