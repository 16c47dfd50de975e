-- ===== src/Programs/Ports/Loop.antt =====
-- `start_server` of multi_server_thread_Listening_on_multiple_ports.c, from its first pass to its end.
