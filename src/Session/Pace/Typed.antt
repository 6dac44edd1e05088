-- ===== src/Session/Pace/Typed.antt =====
-- RRPG/RRPG.cpp: what is typed spends no more turns than the client has.
use mathlib.Core.List.{append-nil}
use rrpg.Common.{
  ℕ, ◌≤◌, ◌<◌, ◌==◌, ◌≢◌, if◌then◌else◌, Bool, true, false, Option, none, some, [], ◌∷◌, ◌++◌, ◌≡◌,
  refl, sym, ap, ◌∙◌, inl, inr, pure, modify, ◌>>◌, ◌>>=◌, arith, Keeps, Keeps-if, Keeps-bind,
  Keeps-modify, keeps_rules, Ends, Ends-bind, Chars, codes, chars_eq, to_lower, Bool-cases,
}
use rrpg.RakNet.{RakNet, RakNetLaws, Bits, Effect, print}
use rrpg.Protocol.{
  c_chat, c_ready, c_unready, c_player_list_request, c_player_stats_request, c_job_chosen,
  c_action_taken,
}
use rrpg.Client.{
  Client, NetworkState, ns_initialization, ns_create_socket, ns_pending_connection, ns_connected,
  ns_running, ns_lobby, ns_game_started, emit, to_server, print_instructions,
}
use rrpg.Client.Input.{
  game_message, send_game_message, handle_game_input, handle_lobby_input, ready, unready, send_chat,
  chat_unless, print_local_player_stats, request_players_from_server,
  request_player_stats_from_server, game_round, round_in, handle_input,
}
use rrpg.Client.Input.Prints.{print_instructions-Keeps, local_stats-Keeps}
use rrpg.Session.Pace.{one_if, turn_of, IsWithin}

module _ (net : RakNet) (laws : RakNetLaws net) where
  -- A packet with another identifier.
  pub free_packet :
      (b : ℕ) (rest : Bits)
      → b < 256
      → b ≢ c_job_chosen
      → b ≢ c_action_taken
      → turn_of (to_server net (net.to_bytes (net.byte_bits b ++ rest))) ≡ 0
  free_packet b rest h job action =
      let (tail, first) = laws.first_byte b rest h in rw first (ground (arith, job, action))

  bare_packet :
      (b : ℕ)
      → b < 256
      → b ≢ c_job_chosen
      → b ≢ c_action_taken
      → turn_of (to_server net (net.to_bytes (net.byte_bits b))) ≡ 0
  bare_packet b h job action =
      ap (λ bits. turn_of (to_server net (net.to_bytes bits))) (sym (append-nil (net.byte_bits b)))
      ∙ free_packet b [] h job action

  -- What is sent costs at most one turn.
  turn_of-le : (e : Effect) → turn_of e ≤ 1
  turn_of-le e = ground arith

module _ (n : ℕ) where
  pub emit-IsWithin : (e : Effect) → turn_of e ≡ 0 → Keeps (IsWithin n) (emit e)
  unfolding emit
  emit-IsWithin e free = record { at = λ s h. omega (arith, h, free) }

  pub print-IsWithin : (text : Chars) → Keeps (IsWithin n) (emit (print text))
  print-IsWithin text = emit-IsWithin (print text) refl

  pub prints-IsWithin : Keeps (IsWithin n) print_instructions
  prints-IsWithin = print_instructions-Keeps (IsWithin n) print-IsWithin

  local-IsWithin : Keeps (IsWithin n) print_local_player_stats
  local-IsWithin = local_stats-Keeps (IsWithin n) print-IsWithin

  flag-IsWithin :
      (flag : Bool)
      → Keeps (IsWithin n) (modify (λ s. record s { player = record s.player { ready = flag } }))
  flag-IsWithin flag = Keeps-modify _ λ s h. h

  module _ (net : RakNet) (laws : RakNetLaws net) where
    sent-IsWithin :
        (o : Option Bits) (s : Client)
        → s.my_turn ≡ true
        → IsWithin n s
        → Ends (send_game_message net o s) (λ _. IsWithin n)
    unfolding ◌>>=◌ emit
    sent-IsWithin none s has h = h
    sent-IsWithin (some bits) s has h =
        omega (arith, h, ap one_if has, turn_of-le net laws (to_server net (net.to_bytes bits)))

    input-IsWithin :
        (input : Chars) (s : Client)
        → s.my_turn ≡ true
        → IsWithin n s
        → Ends (handle_game_input net input s) (λ _. IsWithin n)
    unfolding handle_game_input ◌>>=◌
    input-IsWithin input s has h = sent-IsWithin (game_message net s input) s has h

    bare-IsWithin :
        (b : ℕ)
        → b < 256
        → b ≢ c_job_chosen
        → b ≢ c_action_taken
        → Keeps (IsWithin n) (emit (to_server net (net.to_bytes (net.byte_bits b))))
    bare-IsWithin b h job action = emit-IsWithin _ (bare_packet net laws b h job action)

    chat-IsWithin : (input : Chars) → Keeps (IsWithin n) (send_chat net input)
    unfolding send_chat
    chat-IsWithin [] = search keeps_rules
    chat-IsWithin (c ∷ cs) =
        Keeps-if (to_lower c == 46)
          (emit (print (codes "Whoops! Try again!\n")) >> print_instructions) _
          (search (keeps_rules, print-IsWithin, prints-IsWithin))
          (emit-IsWithin _
            (free_packet net laws c_chat _ (omega arith) (omega arith) (omega arith)))

    unless-IsWithin : (input : Chars) (b : Bool) → Keeps (IsWithin n) (chat_unless net input b)
    unless-IsWithin input true = search keeps_rules
    unless-IsWithin input false = chat-IsWithin input

    ready-IsWithin : Keeps (IsWithin n) (ready net)
    unfolding ready
    ready-IsWithin =
        Keeps-bind _ _ (flag-IsWithin true)
          λ _. bare-IsWithin c_ready (omega arith) (omega arith) (omega arith)

    unready-IsWithin : Keeps (IsWithin n) (unready net)
    unfolding unready
    unready-IsWithin =
        Keeps-bind _ _ (flag-IsWithin false)
          λ _. bare-IsWithin c_unready (omega arith) (omega arith) (omega arith)

    players-IsWithin : Keeps (IsWithin n) (request_players_from_server net)
    unfolding request_players_from_server
    players-IsWithin = bare-IsWithin c_player_list_request (omega arith) (omega arith) (omega arith)

    lobby-IsWithin : (input : Chars) → Keeps (IsWithin n) (handle_lobby_input net input)
    unfolding handle_lobby_input
    lobby-IsWithin input =
        search (keeps_rules, ready-IsWithin, unready-IsWithin, players-IsWithin) depth 12

    request-IsWithin : Keeps (IsWithin n) (request_player_stats_from_server net)
    unfolding request_player_stats_from_server
    request-IsWithin =
        bare-IsWithin c_player_stats_request (omega arith) (omega arith) (omega arith)

    -- Only a client that has the turn gets to `HandleGameInput`.
    turn-IsWithin :
        (has : Bool) (input lower : Chars) (s : Client)
        → s.my_turn ≡ has
        → IsWithin n s
        → Ends
            ((if has then handle_game_input net lower >>= chat_unless net input else pure tt) s)
            (λ _. IsWithin n)
    unfolding ◌>>=◌
    turn-IsWithin true input lower s has h =
        Ends-bind (handle_game_input net lower s) (chat_unless net input)
          (input-IsWithin lower s has h) (unless-IsWithin input)
    turn-IsWithin false input lower s has h = h

    game-IsWithin :
        (input lower : Chars) (s : Client)
        → IsWithin n s
        → Ends (game_round net input lower s) (λ _. IsWithin n)
    unfolding game_round ◌>>=◌
    game-IsWithin input lower s h = elim (Bool-cases (chars_eq lower (codes ".stats"))) [
      | inl stats ↦ rw stats (request-IsWithin.at s h)
      | inr other ↦ elim (Bool-cases (chars_eq lower (codes ".localstats"))) [
        | inl here ↦ rw (other, here) (local-IsWithin.at s h)
        | inr chat ↦ rw (other, chat) (turn-IsWithin s.my_turn input lower s refl h)
      ]
    ]

    round-IsWithin :
        (state : NetworkState) (input lower : Chars)
        → Keeps (IsWithin n) (round_in net state input lower)
    unfolding round_in
    round-IsWithin ns_lobby input lower =
        search (keeps_rules, lobby-IsWithin, unless-IsWithin) depth 12
    round-IsWithin ns_game_started input lower = record { at = game-IsWithin input lower }
    round-IsWithin ns_initialization input lower = search keeps_rules
    round-IsWithin ns_create_socket input lower = search keeps_rules
    round-IsWithin ns_pending_connection input lower = search keeps_rules
    round-IsWithin ns_connected input lower = search keeps_rules
    round-IsWithin ns_running input lower = search keeps_rules

    pub line-IsWithin : (line : Chars) → Keeps (IsWithin n) (handle_input net line)
    unfolding handle_input
    line-IsWithin line = search (keeps_rules, print-IsWithin, round-IsWithin) depth 12
