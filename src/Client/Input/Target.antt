-- ===== src/Client/Input/Target.antt =====
-- RRPG/RRPG.cpp: at whom a typed line can be aimed. `InputHandler` hands the line on in lower case.
use mathlib.Core.Path.{subst}
use rrpg.Common.{
  ℕ, ◌+◌, ◌==◌, true, false, Bool, List, [], ◌∷◌, ◌++◌, Option, none, some, ◌≡◌, refl, sym, ap, ◌∙◌,
  ◌⊎◌, inl, inr, All, Chars, codes, chars_eq, map, length, to_lower, to_lower_idem, split_words,
  split_words-All, arith, Bool-cases, Ends, Ends-bind, Keeps, Keeps-bind, Keeps-modify, Keeps-if,
  keeps_rules, pure, ◌>>=◌, ◌>>◌,
}
use rrpg.RakNet.{RakNet, Bits, Effect, print}
use rrpg.Protocol.{c_chat, c_player_stats_request, gs_main}
use rrpg.Client.{Client, ns_game_started, emit, to_server, print_instructions}
use rrpg.Client.Input.{
  action_of_word, target_of_word, action_bits, action_message, action_of_words, game_message,
  send_game_message, handle_game_input, send_chat, chat_unless, print_local_player_stats,
  request_player_stats_from_server, game_round, round_in, handle_input,
}
use rrpg.Client.Input.Prints.{print_instructions-Keeps, local_stats-Keeps}
use rrpg.Client.Input.Turn.{type_lines}

-- No character is an upper-case letter.
abbrev pub IsLower : Chars → Type 0
IsLower = All (λ c. to_lower c ≡ c)

-- What a client sends and prints in the main game: an action is aimed at the player itself, or at a
-- name without upper-case letters.
pub data IsUsual (net : RakNet) (own : Chars) (e : Effect) : Type 0 where
  printed : (text : Chars) → e ≡ print text → IsUsual net own e
  requested :
      e ≡ to_server net (net.to_bytes (net.byte_bits c_player_stats_request)) → IsUsual net own e
  chatted :
      (text : Chars)
      → e
        ≡ to_server net
            (net.to_bytes (net.byte_bits c_chat ++ net.encode_string text (length text + 1)))
      → IsUsual net own e
  acted :
      (action : ℕ) (name : Chars)
      → e ≡ to_server net (net.to_bytes (action_bits net action name))
      → (name ≡ own) ⊎ IsLower name
      → IsUsual net own e

-- The main game is on, under that name.
abbrev pub IsPlaying : RakNet → Chars → Client → Type 0
IsPlaying net own c =
    (c.network_state ≡ ns_game_started)
    × (c.game_state ≡ gs_main)
    × (c.player.name ≡ own)
    × All (IsUsual net own) c.out

map-to_lower-IsLower : (line : Chars) → IsLower (map to_lower line)
map-to_lower-IsLower [] = tt
map-to_lower-IsLower (c ∷ line) = (to_lower_idem c, map-to_lower-IsLower line)

target_of_word-own :
    (c : Client) (word name : Chars)
    → target_of_word c word ≡ some name
    → (name ≡ c.player.name) ⊎ (name ≡ word)
unfolding target_of_word
target_of_word-own c word name h = elim (Bool-cases (chars_eq word (codes "me"))) [
  | inl me ↦ inl (ground arith)
  | inr other ↦ inr (ground arith)
]

module _ (net : RakNet) (own : Chars) where
  -- What `HandleGameInput` writes, if anything.
  abbrev IsAimed : Option Bits → Type 0
  IsAimed none = Unit
  IsAimed (some bits) =
      (action : ℕ) × (name : Chars) × (bits ≡ action_bits net action name)
      × ((name ≡ own) ⊎ IsLower name)

  message-IsAimed :
      (o : Option ℕ) (target : Option Chars)
      → ((name : Chars) → target ≡ some name → (name ≡ own) ⊎ IsLower name)
      → IsAimed (action_message net o target)
  message-IsAimed none target h = tt
  message-IsAimed (some action) none h = tt
  message-IsAimed (some action) (some name) h = (action, name, refl, h name refl)

  words-IsAimed :
      (c : Client) (words : List Chars)
      → c.player.name ≡ own
      → All IsLower words
      → IsAimed (action_of_words net c words)
  unfolding action_of_words
  words-IsAimed c [] named lower = tt
  words-IsAimed c (word ∷ []) named lower = tt
  words-IsAimed c (word ∷ (target ∷ words)) named lower =
      message-IsAimed (action_of_word word) (target_of_word c target) λ name aimed.
        elim (target_of_word-own c target name aimed) [
          | inl me ↦ inl (me ∙ named)
          | inr typed ↦ inr (rw typed lower.1.0)
        ]

  line-IsAimed :
      (c : Client) (input : Chars)
      → c.game_state ≡ gs_main
      → c.player.name ≡ own
      → IsLower input
      → IsAimed (game_message net c input)
  unfolding game_message action_of_words target_of_word
  line-IsAimed c input main named lower = rw main (
      words-IsAimed c (split_words input) named (split_words-All (λ c. to_lower c ≡ c) input lower))

  usual : (e : Effect) → IsUsual net own e → Keeps (IsPlaying net own) (emit e)
  unfolding emit
  usual e h = record { at = λ s k. (k.0, k.1, k.2, (h, k.3)) }

  print-usual : (text : Chars) → Keeps (IsPlaying net own) (emit (print text))
  print-usual text = usual _ (printed text refl)

  ruleset usual_rules = (keeps_rules, print-usual)

  sent-usual : (o : Option Bits) → IsAimed o → Keeps (IsPlaying net own) (send_game_message net o)
  sent-usual none aimed = search usual_rules
  sent-usual (some bits) (action, name, same, whom) = Keeps-bind _ _ (Keeps-modify _ λ s h. h) λ _.
      Keeps-bind _ _
        (usual _ (acted action name (ap (λ b. to_server net (net.to_bytes b)) same) whom))
        λ _. search usual_rules

  -- The line that `HandleGameInput` gets is in lower case.
  input-usual :
      (input : Chars) → IsLower input → Keeps (IsPlaying net own) (handle_game_input net input)
  unfolding handle_game_input ◌>>=◌
  input-usual input lower = record {
    at = λ s h. (sent-usual (game_message net s input) (line-IsAimed s input h.1 h.2 lower)).at s h;
  }

  prints-usual : Keeps (IsPlaying net own) print_instructions
  prints-usual = print_instructions-Keeps (IsPlaying net own) print-usual

  chat-usual : (input : Chars) → Keeps (IsPlaying net own) (send_chat net input)
  unfolding send_chat
  chat-usual [] = search usual_rules
  chat-usual (c ∷ cs) =
      Keeps-if (to_lower c == 46)
        (emit (print (codes "Whoops! Try again!\n")) >> print_instructions) _
        (search (usual_rules, prints-usual)) (usual _ (chatted (c ∷ cs) refl))

  unless-usual : (input : Chars) (b : Bool) → Keeps (IsPlaying net own) (chat_unless net input b)
  unless-usual input true = search usual_rules
  unless-usual input false = chat-usual input

  local-usual : Keeps (IsPlaying net own) print_local_player_stats
  local-usual = local_stats-Keeps (IsPlaying net own) print-usual

  request-usual : Keeps (IsPlaying net own) (request_player_stats_from_server net)
  unfolding request_player_stats_from_server
  request-usual = usual _ (requested refl)

  round-usual :
      (input lower : Chars) → IsLower lower → Keeps (IsPlaying net own) (game_round net input lower)
  unfolding game_round
  round-usual input lower h = Keeps-bind _ _ (search usual_rules) λ s.
      Keeps-if (chars_eq lower (codes ".stats")) _ _ request-usual (
        Keeps-if (chars_eq lower (codes ".localstats")) _ _ local-usual (
          Keeps-if s.my_turn _ (pure tt)
            (Keeps-bind _ _ (input-usual lower h) λ handled. unless-usual input handled)
            (search usual_rules)))

  line-usual : (line : Chars) → Keeps (IsPlaying net own) (handle_input net line)
  unfolding handle_input ◌>>=◌ round_in
  line-usual line = record {
    at = λ s h. elim (Bool-cases (chars_eq (map to_lower line) (codes ".whoami"))) [
      | inl who ↦ rw who ((print-usual _).at s h)
      | inr other ↦ rw other (
          subst (λ n. Ends (round_in net n line (map to_lower line) s) (λ _. IsPlaying net own))
            (sym h.0) ((round-usual line (map to_lower line) (map-to_lower-IsLower line)).at s h))
    ];
  }

  -- Whatever lines are typed in the main game, an action is aimed at the player itself or at a name
  -- without upper-case letters: a player whose name has such a letter cannot be chosen by anyone
  -- else. Beside the actions, nothing leaves the client but lines of the chat and requests for the
  -- statistics.
  pub type_lines-IsPlaying :
      (lines : List Chars) (c : Client)
      → IsPlaying net own c
      → Ends (type_lines net lines c) (λ _. IsPlaying net own)
  unfolding type_lines ◌>>=◌
  type_lines-IsPlaying [] s h = h
  type_lines-IsPlaying (line ∷ lines) s h =
      Ends-bind (handle_input net line s) (λ _. type_lines net lines) ((line-usual line).at s h)
        λ _. record { at = type_lines-IsPlaying lines }
