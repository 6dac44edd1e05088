-- ===== src/Session/MainGame.antt =====
-- `StartMainGame` on the server and `OnGameStateUpdate` with `OnMainGameStart` on the client.
use mathlib.Core.List.{append-nil, append_assoc}
use rrpg.Common.{
  ℕ, suc, ◌<◌, Bool, false, List, [], ◌∷◌, ◌++◌, map, Option, none, some, ◌≡◌, refl, sym, ap, ◌∙◌,
  ok, ◌>>=◌, length, arith, ℤ, pos, All, Chars, lt→ltb,
}
use rrpg.RakNet.{RakNet, RakNetLaws, Bits, Packet}
use rrpg.Protocol.{Player, get_packet_identifier, s_update_game_state, gs_main}
use rrpg.Server.Game.{main_game_entries, main_game_packet}
use rrpg.Server.Invariant.{IsWellFormed}
use rrpg.Client
use rrpg.Client.Packets.{
  new_entry, add_entry, read_entries, on_main_game_start, on_game_state_update,
}
use rrpg.Session.Mirror.{Mirrors}
use rrpg.Session.Wire.{identify_lem, second_payload_lem, client-dispatch}

-- The client's state once the players are added in turn.
pub add_all : List (ℕ × Player) → Client.Client → Client.Client
add_all [] c = c
add_all ((id, player) ∷ players) c =
    add_all players (add_entry player.name player.health player.ready player.job c)

module _ (net : RakNet) (laws : RakNetLaws net) where
  read_entries_round :
      (left : ℕ) (h : Option ℤ) (r : Option Bool) (j : Option ℕ) (bits b₁ b₂ b₃ b₄ : Bits)
      (c : Client.Client) (name : Chars) (health : ℤ) (ready : Bool) (job : ℕ)
      → net.decode_string 256 bits ≡ (name, b₁)
      → net.read_int b₁ ≡ some (health, b₂)
      → net.read_bool b₂ ≡ some (ready, b₃)
      → net.read_byte b₃ ≡ some (job, b₄)
      → read_entries net (suc left) h r j bits c
        ≡ read_entries net left
            (some health)
            (some ready)
            (some job)
            b₄
            (add_entry name health ready job c)
  unfolding read_entries
  read_entries_round left h r j bits b₁ b₂ b₃ b₄ c name health ready job e₁ e₂ e₃ e₄ = ground arith

  read_entries-main :
      (players : List (ℕ × Player)) (h : Option ℤ) (r : Option Bool) (j : Option ℕ) (rest : Bits)
      (c : Client.Client)
      → All (λ entry. IsWellFormed entry.1) players
      → read_entries net (length players) h r j (main_game_entries net players ++ rest) c
        ≡ ok (tt, add_all players c)
  unfolding main_game_entries add_all
  read_entries-main [] h r j rest c w = unfold read_entries in refl
  read_entries-main ((id, player) ∷ players) h r j rest c w =
      let tail : Bits = main_game_entries net players ++ rest in
      let stream : main_game_entries net ((id, player) ∷ players) ++ rest
          ≡ net.encode_string player.name 256
            ++ (net.int_bits player.health
                ++ (net.bool_bits player.ready ++ (net.byte_bits player.job ++ tail))) =
        simp append_assoc in
      ap (λ bits. read_entries net (suc (length players)) h r j bits c) stream
      ∙ read_entries_round (length players) h r j _ _ _ _ _ c player.name player.health player.ready
          player.job (laws.decode-encode player.name 256 256 _ w.0.terminated w.0.short w.0.short)
          (laws.read_int_lem player.health _ w.0.fits) (laws.read_bool_lem player.ready _)
          (laws.read_byte_lem player.job _ w.0.class_byte)
      ∙ read_entries-main players _ _ _ rest
          (add_entry player.name player.health player.ready player.job c) w.1

  main_game_start_lem :
      (p : Packet) (players : List (ℕ × Player)) (pad : Bits) (c : Client.Client)
      → net.ignore_bits 16 (net.from_bytes p.bytes)
        ≡ (net.int_bits (pos (length players)) ++ main_game_entries net players) ++ pad
      → All (λ entry. IsWellFormed entry.1) players
      → length players < 2147483648
      → on_main_game_start net p c ≡ ok (tt, add_all players c)
  unfolding on_main_game_start ◌>>=◌
  main_game_start_lem p players pad c stream w h =
      let entries : Bits = main_game_entries net players ++ pad in
      ground (
        arith,
        stream
            ∙ append_assoc (net.int_bits (pos (length players))) (main_game_entries net players)
                pad,
        laws.read_int_lem (pos (length players)) entries (lt→ltb _ _ h),
        read_entries-main players none none none pad c w,
      )

add_all-game_state :
    (players : List (ℕ × Player)) (c : Client.Client)
    → (add_all players c).game_state ≡ c.game_state
unfolding add_all
add_all-game_state [] c = refl
add_all-game_state ((id, player) ∷ players) c =
    add_all-game_state players (add_entry player.name player.health player.ready player.job c)

abbrev copy_of : ℕ × Player → Player
copy_of entry = new_entry entry.1.name entry.1.health entry.1.ready entry.1.job

add_all-players :
    (players : List (ℕ × Player)) (c : Client.Client)
    → (add_all players c).players ≡ c.players ++ map copy_of players
unfolding add_all
add_all-players [] c = sym (append-nil c.players)
add_all-players ((id, player) ∷ players) c =
    add_all-players players (add_entry player.name player.health player.ready player.job c)
    ∙ append_assoc c.players (copy_of (id, player) ∷ []) (map copy_of players)

copies-Mirrors :
    (players : List (ℕ × Player))
    → All (λ entry. entry.1.dead ≡ false) players
    → Mirrors players (map copy_of players)
copies-Mirrors [] alive = tt
copies-Mirrors ((id, player) ∷ players) alive = (
  record { same_name = refl; same_health = refl; same_job = refl; same_dead = sym alive.0 },
  copies-Mirrors players alive.1,
)

module _ (net : RakNet) (laws : RakNetLaws net) where
  state_update_lem :
      (p : Packet) (players : List (ℕ × Player)) (c : Client.Client)
      → p.bytes ≡ main_game_packet net players
      → All (λ entry. IsWellFormed entry.1) players
      → length players < 2147483648
      → on_game_state_update net p c ≡ ok (tt, add_all players (record c { game_state = gs_main }))
  unfolding on_game_state_update ◌>>=◌
  state_update_lem p players c sent w h =
      let (pad, first, second) =
        second_payload_lem net laws p s_update_game_state gs_main
          (net.int_bits (pos (length players)) ++ main_game_entries net players)
          (unfold main_game_packet in sent) (omega arith) (omega arith) in
      let started : Client.Client = record c { game_state = gs_main } in
      ground (
        arith,
        first,
        laws.read_byte_lem gs_main
            ((net.int_bits (pos (length players)) ++ main_game_entries net players) ++ pad)
            (omega arith),
        main_game_start_lem net laws p players pad started second w h,
        add_all-game_state players started,
      )

  main_game_identified :
      (p : Packet) (players : List (ℕ × Player))
      → p.bytes ≡ main_game_packet net players
      → get_packet_identifier p ≡ ok s_update_game_state
  unfolding main_game_packet
  main_game_identified p players sent =
      identify_lem net laws p s_update_game_state _ sent (omega arith) (omega arith)

  -- The packet that `StartMainGame` sends gives a client that lists nobody the server's players:
  -- the same names, health, classes and deaths in the same order, and the state of the game. The
  -- players are well formed and alive, and fewer than 2 ^ 31.
  pub main_game-Mirrors :
      (p : Packet) (players : List (ℕ × Player)) (c : Client.Client)
      → p.bytes ≡ main_game_packet net players
      → All (λ entry. IsWellFormed entry.1) players
      → All (λ entry. entry.1.dead ≡ false) players
      → length players < 2147483648
      → c.players ≡ []
      → (c' : Client.Client) × (Client.Dispatch.handle_packet net p c ≡ ok (tt, c'))
        × Mirrors players c'.players
        × (c'.game_state ≡ gs_main)
  main_game-Mirrors p players c sent w alive h empty =
      let started : Client.Client = record c { game_state = gs_main } in
      (
        add_all players started,
        client-dispatch net p s_update_game_state c (main_game_identified p players sent)
              (omega arith)
            ∙ to_state_update p c
            ∙ state_update_lem p players c sent w h,
        rw (add_all-players players started, empty) (copies-Mirrors players alive),
        add_all-game_state players started,
      )
    where
      to_state_update :
          (p : Packet) (c : Client.Client)
          → Client.Dispatch.server_packet net s_update_game_state p c ≡ on_game_state_update net p c
      to_state_update p c = unfold Client.Dispatch.server_packet in refl
