-- ===== src/Service/Dispatch/Safe.antt =====
-- Whatever the client sends, the server's fields stay as they have to be.
