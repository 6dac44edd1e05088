-- ===== src/Client/Dispatch/Main.antt =====
-- RRPG/RRPG.cpp: from `main` to the attempt to connect.
use rrpg.Common.{
  ℕ, ◌%◌, ◌<◌, ◌≤◌, true, false, [], ◌∷◌, ◌++◌, codes, show_int, int_of_u32, pos, Chars, some, ◌≡◌,
  refl, ok, ◌>>=◌, arith,
}
use rrpg.RakNet.{RakNet, print, startup, set_occasional_ping, connect}
use rrpg.Client.{Client, ns_create_socket, ns_pending_connection, construct, emit}
use rrpg.Client.Dispatch.{first_free_port, start, main, open_socket, game_loop}
use rrpg.Client.Dispatch.Port.{first_free_port-ends}

-- The client once its threads start.
abbrev started : Chars → ℕ → ℕ → Chars → Client → Client
started name client_port server_port address memory = record memory {
  network_state = ns_create_socket;
  client_port = client_port;
  server_port = server_port;
  server_address = address;
  player = record {
    name = name;
    health = pos 100;
    ready = false;
    job = memory.player.job;
    dead = false;
  };
  players = [];
  out =
      print (
        codes
          "RRPG Client\nEnter name: Enter listening port: Enter server port: Enter IP to connect to: ")
      ∷ [];
}

-- The client once it has asked for a connection.
abbrev pub pending : ℕ → Client → Client
pending port c = record c {
  network_state = ns_pending_connection;
  out =
      print (
        codes "Client attempting connection to "
        ++ (c.server_address
            ++ (codes ":"
                ++ (show_int (int_of_u32 c.server_port) ++ codes ".. awaiting response\n"))))
      ∷ connect c.server_address (c.server_port % 65536)
      ∷ set_occasional_ping
      ∷ startup 8 port
      ∷ c.out;
}

module _ (net : RakNet) where
  first_round :
      (fuel port : ℕ) (c : Client)
      → c.network_state ≡ ns_create_socket
      → first_free_port net fuel (c.client_port % 65536) ≡ some port
      → net.startup_succeeds port ≡ true
      → net.connect_succeeds c.server_address (c.server_port % 65536) ≡ true
      → game_loop net fuel c ≡ ok (tt, pending port c)
  unfolding ◌>>=◌ emit game_loop open_socket
  first_round fuel port c creating found starts connects =
      ground (arith, creating, found, starts, connects)

  -- From `main`, the client comes to ask for a connection: if any port is free, RakNet starts on a
  -- free port and takes up the attempt, then the first round of the main loop opens a socket on a
  -- port that is free, asks the server's address for a connection, on the 16 bits of the port typed
  -- in, and waits for the answer, under the name typed in. At most 65536 rounds of the search are needed.
  pub main-connects :
      (fuel q client_port server_port : ℕ) (name address : Chars) (memory : Client)
      → q < 65536
      → net.is_port_in_use q ≡ false
      → 65536 ≤ fuel
      → ((r : ℕ) → net.is_port_in_use r ≡ false → net.startup_succeeds r ≡ true)
      → net.connect_succeeds address (server_port % 65536) ≡ true
      → (s t : Client) × (r : ℕ) × (main name client_port server_port address memory ≡ ok (tt, s))
        × (game_loop net fuel s ≡ ok (tt, t))
        × (net.is_port_in_use r ≡ false)
        × (t ≡ pending r s)
        × (t.player.name ≡ name)
        × (t.server_address ≡ address)
        × (t.server_port ≡ server_port)
  unfolding main start construct ◌>>=◌ emit
  main-connects fuel q client_port server_port name address memory small free enough starts
        connects =
      let s : Client = started name client_port server_port address memory in
      let (r, found, unused) =
        first_free_port-ends net fuel (client_port % 65536) q (omega arith) small free enough in
      (
        s,
        pending r s,
        r,
        refl,
        first_round fuel r s refl found (starts r unused) connects,
        unused,
        refl,
        refl,
        refl,
        refl,
      )
