-- ===== src/Server/Invariant/Handlers.antt =====
-- RRPG Server/server.cpp: the invariant along the handlers of the lobby.
use rrpg.Common.{
  ℕ, ◌+◌, ◌==◌, leb, Bool, true, false, ◌||◌, ◌++◌, ◌≡◌, refl, sym, ap, ◌∙◌, inl, inr, M, ◌>>=◌,
  ◌>>◌, out_of_bounds, modify, guard, Keeps, Keeps-bind, Keeps-modify, Chars, codes, length, arith,
  Option-cases,
}
use rrpg.RakNet.{RakNet, RakNetLaws, Packet, Bits}
use rrpg.Protocol.{Player, new_player}
use rrpg.StdMap
use rrpg.StdMap.{keys}
use rrpg.StdMap.Order.{
  insert_key, emplace-IsSorted, keys-emplace, All-emplace, All-lookup, has_key-insert_key,
}
use rrpg.Server.{Server, get_player}
use rrpg.Server.Broadcast.{broadcast_message}
use rrpg.Server.Handlers.{
  u16, decrement_connections, sender, payload, reject_surplus, announce_waiting, on_client_intro,
  on_client_chat_received, on_player_ready, on_player_unready, on_player_list_request,
  on_player_stats_request, set_ready,
}
use rrpg.Server.Invariant.{IsWellFormed, IsConsistent, Inv}
use rrpg.Server.Invariant.Parts.{
  part_rules, emit-Keeps, broadcast-Keeps, send_turn-Keeps, adjust-IsConsistent,
}
use rrpg.Server.Invariant.Game.{start_game-Keeps}

||_true : (b : Bool) → (b || true) ≡ true
||_true true = refl
||_true false = refl

pub counts-Keeps :
    (f : ℕ → ℕ)
    → Keeps Inv (modify (λ s. record s { total_connections = u16 (f s.total_connections) }))
counts-Keeps f =
    Keeps-modify (λ s. record s { total_connections = u16 (f s.total_connections) })
      λ s v. record {
        sorted = v.sorted;
        addresses_sorted = v.addresses_sorted;
        same_keys = v.same_keys;
        well_formed = v.well_formed;
        counted = omega arith;
        in_turn = v.in_turn;
      }

pub decrement-Keeps : Keeps Inv (modify decrement_connections)
decrement-Keeps = counts-Keeps (λ n. n + 65535)

pub set_ready-Keeps : (ready : Bool) (id : ℕ) → Keeps Inv (modify (set_ready ready id))
set_ready-Keeps ready id = Keeps-modify (set_ready ready id) λ s v.
    adjust-IsConsistent s id (λ player. record player { ready = ready })
      (λ player w. record {
        fits = w.fits;
        mortal = w.mortal;
        short = w.short;
        terminated = w.terminated;
        class_byte = w.class_byte;
      })
      v

-- What follows on `GetPlayer` may use that the player is well formed.
pub Keeps-get_player :
    {A : Type 0} (id : ℕ) (f : Player → M Server A)
    → ((player : Player) → IsWellFormed player → Keeps Inv (f player))
    → Keeps Inv (get_player id >>= f)
unfolding ◌>>=◌ get_player
Keeps-get_player id f keep = record {
  at = λ s v. elim (Option-cases (StdMap.lookup id s.players)) [
    | inl missing ↦ rw (missing, ◌>>=◌, get_player) tt
    | inr (player, found) ↦
        rw (found, ◌>>=◌, get_player)
          ((keep player (
              All-lookup (λ entry. IsWellFormed entry.1) id s.players player found
                v.well_formed)).at
            s v)
  ];
}

pub ruleset handler_rules =
    (part_rules, broadcast-Keeps, send_turn-Keeps, decrement-Keeps, set_ready-Keeps)

module _ (net : RakNet) (laws : RakNetLaws net) where
  reject_surplus-Keeps : (p : Packet) → Keeps Inv (reject_surplus net p)
  unfolding reject_surplus
  reject_surplus-Keeps p = search handler_rules

  announce_waiting-Keeps : Keeps Inv (announce_waiting net)
  unfolding announce_waiting
  announce_waiting-Keeps = search handler_rules

  new_player-IsWellFormed : (bits : Bits) → IsWellFormed (new_player (net.decode_string 256 bits).0)
  unfolding new_player
  new_player-IsWellFormed bits = record {
    fits = refl;
    mortal = λ e. cc;
    short = laws.length-decode 256 bits (omega arith);
    terminated = laws.decode-IsCString 256 bits;
    class_byte = omega arith;
  }

  -- The two maps after an introduction.
  introduced-IsConsistent :
      (s : Server) (id address : ℕ) (player : Player)
      → IsWellFormed player
      → Inv s
      → IsConsistent s.network_state
          (StdMap.emplace id player s.players)
          (StdMap.emplace id address s.player_addresses)
          s.total_connections
          s.current_player_turn
  introduced-IsConsistent s id address player w v = record {
    sorted = emplace-IsSorted id player s.players v.sorted;
    addresses_sorted = emplace-IsSorted id address s.player_addresses v.addresses_sorted;
    same_keys =
        keys-emplace id player s.players
        ∙ ap (insert_key id) v.same_keys
        ∙ sym (keys-emplace id address s.player_addresses);
    well_formed = All-emplace (λ entry. IsWellFormed entry.1) id player s.players w v.well_formed;
    counted = v.counted;
    in_turn = λ started. rw (keys-emplace id player s.players) (
        rw (has_key-insert_key s.current_player_turn id (keys s.players), v.in_turn started)
          (||_true (id == s.current_player_turn)));
  }

  -- The rest of `OnClientIntro`, behind the two insertions.
  abbrev intro_end : Chars → M Server (Unit {0})
  intro_end name =
      guard (leb (length name + 13) 256) out_of_bounds
      >> (broadcast_message (name ++ codes " has joined.") >> announce_waiting net)

  intro_end-Keeps : (name : Chars) → Keeps Inv (intro_end name)
  intro_end-Keeps name = search (handler_rules, announce_waiting-Keeps)

  introduce-Keeps :
      (p : Packet)
      → Keeps Inv (
          modify (λ s. record s {
            player_addresses = StdMap.emplace (sender net p) p.system_address s.player_addresses;
          })
          >> (modify (λ s. record s {
            players =
                StdMap.emplace
                  (sender net p)
                  (new_player (net.decode_string 256 (payload net p)).0)
                  s.players;
          })
              >> intro_end (net.decode_string 256 (payload net p)).0))
  unfolding ◌>>=◌
  introduce-Keeps p = record {
    at = λ s v. (intro_end-Keeps (net.decode_string 256 (payload net p)).0).at _ (
        introduced-IsConsistent s (sender net p) p.system_address _
          (new_player-IsWellFormed (payload net p)) v);
  }

  pub on_client_intro-Keeps : (p : Packet) → Keeps Inv (on_client_intro net p)
  unfolding on_client_intro
  on_client_intro-Keeps p = Keeps-bind _ _ (reject_surplus-Keeps p) λ _. introduce-Keeps p

  pub chat-Keeps : (p : Packet) → Keeps Inv (on_client_chat_received net p)
  unfolding on_client_chat_received
  chat-Keeps p = search handler_rules

  pub ready-Keeps : (p : Packet) → Keeps Inv (on_player_ready net p)
  unfolding on_player_ready
  ready-Keeps p = search (handler_rules, start_game-Keeps) depth 8

  pub unready-Keeps : (p : Packet) → Keeps Inv (on_player_unready net p)
  unfolding on_player_unready
  unready-Keeps p = search handler_rules

  pub list-Keeps : (p : Packet) → Keeps Inv (on_player_list_request net p)
  unfolding on_player_list_request
  list-Keeps p = search handler_rules

  pub stats-Keeps : (p : Packet) → Keeps Inv (on_player_stats_request net p)
  unfolding on_player_stats_request
  stats-Keeps p = search handler_rules
