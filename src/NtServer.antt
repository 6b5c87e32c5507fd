-- ===== src/NtServer.antt =====
-- nt_server.hpp and nt_server.cpp: the server that the daemon's topics live on. NetworkTables itself is
-- a library: what it is asked to do is an event of the process.
use pi5_system_surrogate.Prelude.{ℕ, [], ◌∷◌}
use pi5_system_surrogate.Prelude.Text.{codes}
use pi5_system_surrogate.Threads.{Process, Listen, server_started, server_stopped, emit}

-- kDefaultPort
abbrev pub default_port : ℕ
default_port = 6810

-- The constructor of a port.
abbrev pub listen_on : ℕ → Listen
listen_on port = record {
  persist_filename = codes "pi5-system-surrogate.json";
  listen_address = codes "127.0.0.1";
  mdns_service = [];
  port = port;
}

unfoldable pub nt_server : ℕ → Process → Process
unfolding emit
nt_server port = emit (server_started (listen_on port) ∷ [])

-- The constructor without one.
unfoldable pub default_server : Process → Process
unfolding nt_server
default_server = nt_server default_port

-- The destructor.
unfoldable pub destroy_server : Process → Process
unfolding emit
destroy_server = emit (server_stopped ∷ [])
