-- ===== src/Programs/Ports/Whole.antt =====
-- multi_server_thread_Listening_on_multiple_ports.c from `main` to the end of `start_server`.
use os_study.Server.World.{World}
