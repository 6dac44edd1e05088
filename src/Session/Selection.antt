-- ===== src/Session/Selection.antt =====
-- RRPG Server/server.cpp: the selection of characters, one packet after the other.
pub mod Ends
use mathlib.Core.List.{append_assoc}
use mathlib.Core.Path.{subst}
use rrpg.Common.{
  ℕ, ◌<◌, ◌==◌, true, false, not, List, [], ◌∷◌, ◌++◌, some, none, ◌≡◌, refl, sym, ap, ◌∙◌, ◌≢◌, ok,
  arith, All, ==_iff,
}
use rrpg.RakNet.{RakNet, RakNetLaws, Packet, Effect, send, everyone, to}
use rrpg.Protocol.{Player, c_job_chosen, s_take_turn, gs_main}
use rrpg.StdMap
use rrpg.StdMap.{keys}
use rrpg.StdMap.Order.{
  IsSorted, has_key, lookup-has_key, has_key-find, adjust-IsSorted, keys-adjust,
}
use rrpg.StdMap.Middle.{find_middle, adjust_middle, lookup_middle}
use rrpg.Server.{Server, is_running}
use rrpg.Server.Turn.{next_turn, alive_count}
use rrpg.Server.Turn.Order.{first_alive, circle}
use rrpg.Server.Turn.Outcome.{next_turn-passed}
use rrpg.Server.Game.{main_game_packet}
use rrpg.Server.Handlers.{sender}
use rrpg.Server.Actions.Choice.{chosen, choice_passes, choice_starts_main}
use rrpg.Server.Dispatch.{Event, receive, handle_packet, run}
use rrpg.Server.Dispatch.Run.{packets_of, run_receive, run_last}
use rrpg.Session.Choice.{class_read, class_handled}

-- The players with the classes that were chosen.
abbrev pub assign : (ℕ → ℕ) → List (ℕ × Player) → List (ℕ × Player)
assign jobs [] = []
assign jobs ((id, player) ∷ players) =
    (id, record player { ready = true; job = jobs id }) ∷ assign jobs players

abbrev pub last_key : ℕ → List (ℕ × Player) → ℕ
last_key id [] = id
last_key id ((next, player) ∷ players) = last_key next players

-- The packet with which the client of a key chooses a class.
pub record IsChoice (net : RakNet) (p : Packet) (id job : ℕ) : Type 0 where
  pub from : sender net p ≡ id
  pub sent : p.bytes ≡ net.to_bytes (net.byte_bits c_job_chosen ++ net.byte_bits job)
  pub is_byte : job < 256

module _ {V : Type 0} where
  written :
      (k id : ℕ) (f : V → V) (v : V) (players before more : List (ℕ × V))
      → players ≡ before ++ ((id, v) ∷ more)
      → IsSorted players
      → k ≡ id
      → StdMap.adjust k f players ≡ before ++ ((id, f v) ∷ more)
  written k id f v players before more whole sorted same =
      ap (λ k. StdMap.adjust k f players) same
      ∙ ap (StdMap.adjust id f) whole
      ∙ adjust_middle id f v before more (subst IsSorted whole sorted)

  written_stands :
      (k id turn : ℕ) (f : V → V) (v : V) (players before more : List (ℕ × V))
      → players ≡ before ++ ((id, v) ∷ more)
      → IsSorted players
      → k ≡ id
      → turn ≡ id
      → StdMap.find turn (StdMap.adjust k f players) ≡ (id, f v) ∷ more
  written_stands k id turn f v players before more whole sorted same here =
      let now = written k id f v players before more whole sorted same in
      ap (λ t. StdMap.find t (StdMap.adjust k f players)) here
      ∙ ap (StdMap.find id) now
      ∙ find_middle id (f v) before more (subst IsSorted now (adjust-IsSorted k f players sorted))

  written_known :
      (k id : ℕ) (v : V) (players before more : List (ℕ × V))
      → players ≡ before ++ ((id, v) ∷ more)
      → IsSorted players
      → k ≡ id
      → StdMap.lookup k players ≡ some v
  written_known k id v players before more whole sorted same =
      ap (λ k. StdMap.lookup k players) same
      ∙ ap (StdMap.lookup id) whole
      ∙ lookup_middle id v before more (subst IsSorted whole sorted)

abbrev pub with_class : ℕ → Player → Player
with_class job player = record player { ready = true; job = job }

module _ (net : RakNet) (laws : RakNetLaws net) (p : Packet) (id job : ℕ) (s : Server)
    (player : Player) (choice : IsChoice net p id job) (sorted : IsSorted s.players)
    (turn : s.current_player_turn ≡ id) (before : List (ℕ × Player)) where
  -- The last player's choice.
  to_main :
      s.players ≡ before ++ ((id, player) ∷ [])
      → (out : List Effect) × (handle_packet net p s
          ≡ next_turn net (record s {
            players = before ++ ((id, with_class job player) ∷ []);
            current_player_turn = id;
            game_state = gs_main;
            out = out;
          }))
  to_main whole =
      let (rest, read) = class_read net laws p job choice.sent choice.is_byte in
      let f = with_class job in
      let known =
        written_known (sender net p) id player s.players before [] whole sorted choice.from in
      let now = written (sender net p) id f player s.players before [] whole sorted choice.from in
      let stands =
        written_stands (sender net p) id s.current_player_turn f player s.players before [] whole
          sorted choice.from turn in
      let out : List Effect =
        send (main_game_packet net (chosen net p player job s).players) everyone
        ∷ (chosen net p player job s).out in
      (
        out,
        class_handled net laws p job s choice.sent
            ∙ choice_starts_main net p s player job rest known read (id, f player) stands
            ∙ ap (λ m. next_turn net (record s { players = m; game_state = gs_main; out = out }))
                now
            ∙ ap
                (λ t. next_turn net (record s {
                  players = before ++ ((id, f player) ∷ []);
                  current_player_turn = t;
                  game_state = gs_main;
                  out = out;
                }))
                turn,
      )

  -- The choice of a player with another one behind.
  to_next :
      (next : ℕ) (q : Player) (more : List (ℕ × Player))
      → s.players ≡ before ++ ((id, player) ∷ ((next, q) ∷ more))
      → keys s.players ≡ keys s.player_addresses
      → (out : List Effect) × (handle_packet net p s
          ≡ ok (
            tt,
            record s {
              players = before ++ ((id, with_class job player) ∷ ((next, q) ∷ more));
              current_player_turn = next;
              out = out;
            },
          ))
  to_next next q more whole same =
      let todo = (next, q) ∷ more in
      let (rest, read) = class_read net laws p job choice.sent choice.is_byte in
      let f = with_class job in
      let known =
        written_known (sender net p) id player s.players before todo whole sorted choice.from in
      let now = written (sender net p) id f player s.players before todo whole sorted choice.from in
      let stands =
        written_stands (sender net p) id s.current_player_turn f player s.players before todo whole
          sorted choice.from turn in
      let (address, there) = lookup-has_key next s.player_addresses (
        subst (λ ks. has_key next ks ≡ true) same
          (has_key-find id s.players (id, player) next q more
            (ap (StdMap.find id) whole
              ∙ find_middle id player before todo (subst IsSorted whole sorted)))) in
      let out : List Effect =
        send (net.to_bytes (net.byte_bits s_take_turn)) (to address)
        ∷ (chosen net p player job s).out in
      (
        out,
        class_handled net laws p job s choice.sent
            ∙ choice_passes net p s player job rest known read (id, f player) next address q more
                stands there
            ∙ ap (λ m. ok (tt, record s { players = m; current_player_turn = next; out = out }))
                now,
      )

module _ (net : RakNet) (laws : RakNetLaws net) (packet : ℕ → Packet) (jobs : ℕ → ℕ) where
  -- The selection, from the player whose turn it is to the last one.
  pub selection_run :
      (before more : List (ℕ × Player)) (id : ℕ) (player : Player) (s : Server)
      → s.players ≡ before ++ ((id, player) ∷ more)
      → s.current_player_turn ≡ id
      → IsSorted s.players
      → keys s.players ≡ keys s.player_addresses
      → is_running s ≡ true
      → All (λ e. IsChoice net (packet e.0) e.0 (jobs e.0)) ((id, player) ∷ more)
      → (out : List Effect) × (run net (packets_of packet (keys ((id, player) ∷ more))) s
          ≡ next_turn net (record s {
            players = before ++ assign jobs ((id, player) ∷ more);
            current_player_turn = last_key id more;
            game_state = gs_main;
            out = out;
          }))
  unfolding is_running
  selection_run before [] id player s whole turn sorted same running all_choose =
      let (out, ends) =
        to_main net laws (packet id) id (jobs id) s player all_choose.0 sorted turn before whole in
      (out, run_last net (packet id) s running ∙ ends)
  selection_run before ((next, q) ∷ more) id player s whole turn sorted same running all_choose =
      let todo = (next, q) ∷ more in
      let now = before ++ ((id, with_class (jobs id) player) ∷ todo) in
      let shift = append_assoc before ((id, with_class (jobs id) player) ∷ []) in
      let (out, passes) =
        to_next net laws (packet id) id (jobs id) s player all_choose.0 sorted turn before next q
          more whole same in
      let t : Server = record s { players = now; current_player_turn = next; out = out } in
      let written_now =
        written id id (with_class (jobs id)) player s.players before todo whole sorted refl in
      let (last, goes_on) =
        selection_run (before ++ ((id, with_class (jobs id) player) ∷ [])) more next q t
          (sym (shift todo)) refl
          (subst IsSorted written_now (adjust-IsSorted id (with_class (jobs id)) s.players sorted))
          (ap keys (sym written_now) ∙ keys-adjust id (with_class (jobs id)) s.players ∙ same)
          running all_choose.1 in
      (
        last,
        run_receive net (packet id) (packets_of packet (keys todo)) s t running passes
            ∙ goes_on
            ∙ ap
                (λ m. next_turn net (record s {
                  players = m;
                  current_player_turn = last_key next more;
                  game_state = gs_main;
                  out = last;
                }))
                (shift (assign jobs todo)),
      )
