-- ===== src/Server/Dispatch/Main.antt =====
-- RRPG Server/main.cpp and server.cpp: from `main` to the open socket.
use rrpg.Common.{
  ℕ, ◌+◌, ◌<◌, true, false, [], ◌∷◌, ◌++◌, codes, show_int, int_of_u32, ◌≡◌, refl, ok, ◌>>=◌, arith,
}
use rrpg.RakNet.{RakNet, print, startup, set_maximum_incoming_connections}
use rrpg.Server.{Server, ns_create_socket, ns_lobby, expected_players, construct, emit, is_running}
use rrpg.Server.Handlers.{u16}
use rrpg.Server.Dispatch.{free_or_hang, start, main, open_socket, game_loop, tick, handle, step}
use rrpg.Server.Dispatch.Port.{first_free_port_lem}

module _ (net : RakNet) where
  -- The server once its threads start, and once it listens.
  abbrev started : ℕ → Server → Server
  started port memory = record memory {
    network_state = ns_create_socket;
    port = port;
    players = [];
    player_addresses = [];
    input_good = true;
    out =
        print (
          codes "IP Address: "
          ++ (net.local_ip ++ (codes ":" ++ (show_int (int_of_u32 port) ++ codes "\n"))))
        ∷ print (codes "RRPG Server\nEnter listening port: ")
        ∷ [];
  }

  abbrev pub listening : Server → Server
  listening s = record s {
    network_state = ns_lobby;
    out =
        print (codes "Server waiting on connections...\n")
        ∷ set_maximum_incoming_connections expected_players
        ∷ startup expected_players (u16 s.port)
        ∷ s.out;
  }

  -- The first round of the main loop.
  first_tick :
      (port : ℕ) (memory : Server)
      → net.startup_succeeds (u16 port) ≡ true
      → memory.is_quitting ≡ false
      → step net tick (started port memory) ≡ ok (tt, listening (started port memory))
  unfolding ◌>>=◌ emit step handle game_loop open_socket is_running
  first_tick port memory starts running = ground (arith, starts, running)

  -- From `main`, the server comes to listen: it takes the first free port from the one typed in on,
  -- and the first round of its main loop starts RakNet for the players expected on the 16 bits of
  -- that port, allows as many connections, and waits in the lobby with nobody registered. So many rounds as there are ports in use before that one, and one more, suffice.
  -- RakNet starts on the port, and the memory of the object holds no set `isQuitting`.
  pub main-listens :
      (skipped fuel port : ℕ) (memory : Server)
      → port + skipped < 4294967296
      → ((i : ℕ) → i < skipped → net.is_port_in_use (u16 (port + i)) ≡ true)
      → net.is_port_in_use (u16 (port + skipped)) ≡ false
      → skipped < fuel
      → net.startup_succeeds (u16 (port + skipped)) ≡ true
      → memory.is_quitting ≡ false
      → (s t : Server) × (main net fuel port memory ≡ ok (tt, s))
        × (step net tick s ≡ ok (tt, t))
        × (t ≡ listening s)
        × (t.port ≡ port + skipped)
        × (t.players ≡ [])
        × (t.player_addresses ≡ [])
  unfolding main start ◌>>=◌ emit construct
  main-listens skipped fuel port memory small used free enough starts running =
      let found = first_free_port_lem net skipped fuel port small used free enough in
      (
        started (port + skipped) memory,
        listening (started (port + skipped) memory),
        rw (found, free_or_hang, ◌>>=◌) refl,
        first_tick (port + skipped) memory starts running,
        refl,
        refl,
        refl,
        refl,
      )
