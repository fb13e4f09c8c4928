-- ===== src/Proto/Concurrent/Order.antt =====
-- The turns of the callers of `TestProtoConcurrentClient` on the bytes of any messages are the turns
-- on the messages themselves.
