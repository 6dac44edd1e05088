-- ===== src/Session/Lists.antt =====
-- The replies to the requests of the player list and of the statistics, as the client prints them.
pub mod Requests
use mathlib.Core.List.{append_assoc}
use rrpg.Common.{
  ℕ, suc, ◌+◌, ◌<◌, Bool, List, [], ◌∷◌, ◌++◌, Option, none, some, ◌≡◌, refl, ap, ◌∙◌, ok, ◌>>=◌,
  length, All, ℤ, pos, arith, lt→ltb,
}
use rrpg.RakNet.{RakNet, RakNetLaws, Bits, Packet, Effect, print}
use rrpg.Protocol.{Player, s_reply_player_list_request, s_reply_player_stats_request}
use rrpg.Server.Game.{list_entries, list_packet, stats_entries, stats_packet}
use rrpg.Server.Invariant.{IsWellFormed}
use rrpg.Client
use rrpg.Client.Packets.{
  list_line, numbered_stats_line, print_list, print_stats_list, on_players_list_received,
  on_players_stats_received,
}
use rrpg.Session.Wire.{identify_lem, payload_lem, client-dispatch}

-- The lines of the list from a number on, the latest first, before what was there.
unfoldable pub listed : ℕ → List (ℕ × Player) → List Effect → List Effect
listed i [] out = out
listed i ((id, player) ∷ players) out =
    listed (i + 1) players (print (list_line i player.name player.ready) ∷ out)

unfoldable pub stats_listed : ℕ → List (ℕ × Player) → List Effect → List Effect
stats_listed i [] out = out
stats_listed i ((id, player) ∷ players) out =
    stats_listed (i + 1) players
      (print (numbered_stats_line i player.name player.job player.health) ∷ out)

module _ (net : RakNet) (laws : RakNetLaws net) where
  print_list-entries :
      (players : List (ℕ × Player)) (i : ℕ) (old : Option Bool) (rest : Bits) (c : Client.Client)
      → All (λ entry. IsWellFormed entry.1) players
      → print_list net (length players) i old (list_entries net players ++ rest) c
        ≡ ok (tt, record c { out = listed i players c.out })
  unfolding list_entries listed print_list
  print_list-entries [] i old rest c w = refl
  print_list-entries ((id, player) ∷ players) i old rest c w =
      let tail : Bits = list_entries net players ++ rest in
      let stream : list_entries net ((id, player) ∷ players) ++ rest
          ≡ net.encode_string player.name 256 ++ (net.bool_bits player.ready ++ tail) =
        simp append_assoc in
      ap (λ bits. print_list net (suc (length players)) i old bits c) stream
      ∙ ground (
        arith,
        laws.decode-encode player.name 256 256 (net.bool_bits player.ready ++ tail) w.0.terminated
            w.0.short w.0.short,
        laws.read_bool_lem player.ready tail,
        print_list-entries players (i + 1) (some player.ready) rest
            (record c { out = print (list_line i player.name player.ready) ∷ c.out }) w.1,
      )

  print_stats_list-entries :
      (players : List (ℕ × Player)) (i : ℕ) (old_class : Option ℕ) (old_health : Option ℤ)
      (rest : Bits) (c : Client.Client)
      → All (λ entry. IsWellFormed entry.1) players
      → print_stats_list net
          (length players)
          i
          old_class
          old_health
          (stats_entries net players ++ rest)
          c
        ≡ ok (tt, record c { out = stats_listed i players c.out })
  unfolding stats_entries stats_listed print_stats_list
  print_stats_list-entries [] i old_class old_health rest c w = refl
  print_stats_list-entries ((id, player) ∷ players) i old_class old_health rest c w =
      let tail : Bits = stats_entries net players ++ rest in
      let stream : stats_entries net ((id, player) ∷ players) ++ rest
          ≡ net.encode_string player.name 256
            ++ (net.byte_bits player.job ++ (net.int_bits player.health ++ tail)) =
        simp append_assoc in
      ap (λ bits. print_stats_list net (suc (length players)) i old_class old_health bits c) stream
      ∙ ground (
        arith,
        laws.decode-encode player.name 256 256
            (net.byte_bits player.job ++ (net.int_bits player.health ++ tail)) w.0.terminated
            w.0.short w.0.short,
        laws.read_byte_lem player.job (net.int_bits player.health ++ tail) w.0.class_byte,
        laws.read_int_lem player.health tail w.0.fits,
        print_stats_list-entries players (i + 1) (some player.job) (some player.health) rest
            (record c {
              out = print (numbered_stats_line i player.name player.job player.health) ∷ c.out;
            })
            w.1,
      )

  -- The reply to a request of the player list makes the client print the server's players in
  -- order, numbered from 1, with their names and whether they are ready, and changes nothing else.
  -- The players are well formed, and fewer than 2 ^ 31 - 1.
  pub list-printed :
      (p : Packet) (players : List (ℕ × Player)) (c : Client.Client)
      → p.bytes ≡ list_packet net players
      → All (λ entry. IsWellFormed entry.1) players
      → length players < 2147483647
      → Client.Dispatch.handle_packet net p c ≡ ok (tt, record c { out = listed 1 players c.out })
  unfolding list_packet on_players_list_received ◌>>=◌
  list-printed p players c sent w h =
      let count : Bits = net.int_bits (pos (length players)) in
      let (pad, stream) =
        payload_lem net laws p s_reply_player_list_request (count ++ list_entries net players) sent
          (omega arith) in
      client-dispatch net p s_reply_player_list_request c
        (identify_lem net laws p s_reply_player_list_request _ sent (omega arith) (omega arith))
        (omega arith)
      ∙ to_list p c
      ∙ ground (
        arith,
        stream ∙ append_assoc count (list_entries net players) pad,
        laws.read_int_lem (pos (length players)) (list_entries net players ++ pad)
            (lt→ltb _ _ (omega arith)),
        print_list-entries players 1 none pad c w,
      )
    where
      to_list :
          (p : Packet) (c : Client.Client)
          → Client.Dispatch.server_packet net s_reply_player_list_request p c
            ≡ on_players_list_received net p c
      to_list p c = unfold Client.Dispatch.server_packet in refl

  -- The reply to a request of the statistics makes the client print the server's players in order,
  -- numbered from 1, with their names, classes and health, and changes nothing else. The players
  -- are well formed, and fewer than 2 ^ 31 - 1.
  pub stats-printed :
      (p : Packet) (players : List (ℕ × Player)) (c : Client.Client)
      → p.bytes ≡ stats_packet net players
      → All (λ entry. IsWellFormed entry.1) players
      → length players < 2147483647
      → Client.Dispatch.handle_packet net p c
        ≡ ok (tt, record c { out = stats_listed 1 players c.out })
  unfolding stats_packet on_players_stats_received ◌>>=◌
  stats-printed p players c sent w h =
      let count : Bits = net.int_bits (pos (length players)) in
      let (pad, stream) =
        payload_lem net laws p s_reply_player_stats_request (count ++ stats_entries net players)
          sent (omega arith) in
      client-dispatch net p s_reply_player_stats_request c
        (identify_lem net laws p s_reply_player_stats_request _ sent (omega arith) (omega arith))
        (omega arith)
      ∙ to_stats p c
      ∙ ground (
        arith,
        stream ∙ append_assoc count (stats_entries net players) pad,
        laws.read_int_lem (pos (length players)) (stats_entries net players ++ pad)
            (lt→ltb _ _ (omega arith)),
        print_stats_list-entries players 1 none none pad c w,
      )
    where
      to_stats :
          (p : Packet) (c : Client.Client)
          → Client.Dispatch.server_packet net s_reply_player_stats_request p c
            ≡ on_players_stats_received net p c
      to_stats p c = unfold Client.Dispatch.server_packet in refl
