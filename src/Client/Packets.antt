-- ===== src/Client/Packets.antt =====
-- RRPG/RRPG.cpp: the handlers of the server's packets. A local variable that nothing has set yet is
-- `none`.
pub mod Health
use rrpg.Common.{
  ℕ, zero, suc, ◌+◌, ◌==◌, if◌then◌else◌, Bool, true, false, List, [], ◌∷◌, ◌++◌, Option, none,
  some, M, pure, raise, modify, get, guard, ok, fault, uninitialized, int_overflow, exception,
  ◌>>=◌, ◌>>◌, Chars, codes, chars_eq, ℤ, pos, negsuc, is_positive, show_int, not, any, length,
  ◌||◌,
}
use rrpg.RakNet.{RakNet, Bits, Packet, send, print, to}
use rrpg.Protocol.{Player, c_intro, gs_character_select, gs_main, gs_game_over}
use rrpg.Client.{Client, ns_lobby, ns_game_started, emit, print_instructions}
use rrpg.Client.Input.{stats_line}

-- The stream over a packet's data, behind its identifier.
abbrev pub payload : RakNet → Packet → Bits
payload net p = net.ignore_bits 8 (net.from_bytes p.bytes)

-- `bs.Read(x)`: `x` afterwards, given what it held, and the rest of the stream.
abbrev pub read_into : {A : Type 0} → Option (A × Bits) → Option A → Bits → Option A × Bits
read_into none old bits = (old, bits)
read_into (some (a, rest)) old bits = (some a, rest)

-- The use of a variable.
abbrev pub use_of : {A : Type 0} → Option A → M Client A
use_of none = raise uninitialized
use_of (some a) = pure a

abbrev pub is_not_negative : ℤ → Bool
is_not_negative (pos n) = true
is_not_negative (negsuc n) = false

-- How often `for (int i = 1; i <= n; i++)` goes round.
abbrev pub rounds : ℤ → ℕ
rounds (pos n) = n
rounds (negsuc n) = 0

abbrev pub list_line : ℕ → Chars → Bool → Chars
list_line i name ready =
    show_int (pos i)
    ++ (codes ". "
        ++ (name
            ++ (codes " | "
                ++ ((if ready then codes "Ready" else codes "Not Ready") ++ codes "\n"))))

abbrev pub numbered_stats_line : ℕ → Chars → ℕ → ℤ → Chars
numbered_stats_line i name job health =
    show_int (pos i) ++ (codes ". " ++ stats_line name job health)

abbrev pub new_entry : Chars → ℤ → Bool → ℕ → Player
new_entry name health ready job = record {
  name = name;
  health = health;
  ready = ready;
  job = job;
  dead = false;
}

-- One round of `OnMainGameStart`, once its variables are set.
abbrev pub add_entry : Chars → ℤ → Bool → ℕ → Client → Client
add_entry name health ready job s = record s {
  players = s.players ++ new_entry name health ready job ∷ [];
  player = if chars_eq name s.player.name then record s.player { job = job } else s.player;
}

abbrev pub or_kept : Option (ℕ × Bits) → ℕ → ℕ
or_kept none old = old
or_kept (some (b, rest)) old = b

unfoldable pub on_game_start : M Client (Unit {0})
on_game_start = do
  modify (λ s. record s { network_state = ns_game_started; game_state = gs_character_select })
  emit (print (codes "WE HAVE BEEGUNN!!!\n"))

unfoldable pub on_game_over : M Client (Unit {0})
on_game_over = do
  modify (λ s. record s { game_state = gs_game_over })
  emit (print (codes "Game over.\n"))

unfoldable pub on_take_turn : M Client (Unit {0})
on_take_turn = do modify (λ s. record s { my_turn = true }); print_instructions

module _ (net : RakNet) where
  unfoldable pub on_connection_accepted : Packet → M Client (Unit {0})
  on_connection_accepted p = do
    emit (print (codes "Connection accepted!\n"))
    modify (λ s. record s { network_state = ns_lobby })
    print_instructions
    s ← get
    emit (
        send
          (net.to_bytes (
            net.byte_bits c_intro
            ++ (net.encode_string s.player.name (length s.player.name + 1)
                ++ net.bool_bits s.player.ready)))
          (to p.system_address))

  -- The loop of `OnPlayersListReceived`, from its round `i`, with the rounds left.
  unfoldable pub print_list : ℕ → ℕ → Option Bool → Bits → M Client (Unit {0})
  print_list zero i old bits s = ok (tt, s)
  print_list (suc left) i old bits s =
      let (name, after_name) = net.decode_string 256 bits in
      let (ready, rest) = read_into (net.read_bool after_name) old after_name in
      elim ready [
        | none ↦ fault uninitialized
        | some r ↦
            print_list left (i + 1) (some r) rest
              (record s { out = print (list_line i name r) ∷ s.out })
      ]

  -- With the greatest int for a count, `i++` overflows after the last round.
  unfoldable pub on_players_list_received : Packet → M Client (Unit {0})
  on_players_list_received p = do
    let (count, rest) = read_into (net.read_int (payload net p)) none (payload net p)
    n ← use_of count
    print_list (rounds n) 1 none rest
    guard (not (rounds n == 2147483647)) int_overflow

  -- The loop of `OnPlayersStatsReceived`.
  unfoldable pub print_stats_list : ℕ → ℕ → Option ℕ → Option ℤ → Bits → M Client (Unit {0})
  print_stats_list zero i old_class old_health bits s = ok (tt, s)
  print_stats_list (suc left) i old_class old_health bits s =
      let (name, after_name) = net.decode_string 256 bits in
      let (class, after_class) = read_into (net.read_byte after_name) old_class after_name in
      let (health, rest) = read_into (net.read_int after_class) old_health after_class in
      elim class [
        | none ↦ fault uninitialized
        | some c ↦ elim health [
          | none ↦ fault uninitialized
          | some h ↦
              print_stats_list left (i + 1) (some c) (some h) rest
                (record s { out = print (numbered_stats_line i name c h) ∷ s.out })
        ]
      ]

  unfoldable pub on_players_stats_received : Packet → M Client (Unit {0})
  on_players_stats_received p = do
    let (count, rest) = read_into (net.read_int (payload net p)) none (payload net p)
    n ← use_of count
    print_stats_list (rounds n) 1 none none rest
    guard (not (rounds n == 2147483647)) int_overflow

  unfoldable pub read_entries : ℕ → Option ℤ → Option Bool → Option ℕ → Bits → M Client (Unit {0})
  read_entries zero old_health old_ready old_job bits s = ok (tt, s)
  read_entries (suc left) old_health old_ready old_job bits s =
      let (name, after_name) = net.decode_string 256 bits in
      let (health, after_health) = read_into (net.read_int after_name) old_health after_name in
      let (ready, after_ready) = read_into (net.read_bool after_health) old_ready after_health in
      let (job, rest) = read_into (net.read_byte after_ready) old_job after_ready in
      elim health [
        | none ↦ fault uninitialized
        | some h ↦ elim ready [
          | none ↦ fault uninitialized
          | some r ↦ elim job [
            | none ↦ fault uninitialized
            | some j ↦ read_entries left (some h) (some r) (some j) rest (add_entry name h r j s)
          ]
        ]
      ]

  -- A negative count makes `players.reserve` throw.
  unfoldable pub on_main_game_start : Packet → M Client (Unit {0})
  on_main_game_start p = do
    let bits = net.ignore_bits 16 (net.from_bytes p.bytes)
    let (count, rest) = read_into (net.read_int bits) none bits
    n ← use_of count
    guard (is_not_negative n) exception
    read_entries (rounds n) none none none rest

  unfoldable pub on_game_state_update : Packet → M Client (Unit {0})
  on_game_state_update p = do
    modify (λ s. record s { game_state = or_kept (net.read_byte (payload net p)) s.game_state })
    s ← get
    if s.game_state == gs_main then on_main_game_start p else pure tt
    t ← get
    if t.game_state == gs_game_over then on_game_over else pure tt

-- What a new health does to one player of that name.
abbrev pub take_health : ℤ → Player → Player
take_health health player =
    if is_positive health
    then record player { health = health }
    else record player { health = health; dead = true }

abbrev pub health_line : Chars → ℤ → Chars
health_line name health =
    if is_positive health
    then name ++ (codes " is now at " ++ (show_int health ++ codes " health\n\n"))
    else name ++ codes " is dead\n\n"

-- The loop over the players: all of that name are changed.
unfoldable pub update_health : Chars → ℤ → List Player → List Player
update_health name health [] = []
update_health name health (player ∷ players) =
    (if chars_eq player.name name then take_health health player else player)
    ∷ update_health name health players

unfoldable pub health_lines : Chars → ℤ → List Player → M Client (Unit {0})
health_lines name health [] = pure tt
health_lines name health (player ∷ players) = do
  if chars_eq player.name name then emit (print (health_line name health)) else pure tt
  health_lines name health players

-- `if (player.name == name)` at the end, for the client's own player.
unfoldable pub own_health : Chars → ℤ → M Client (Unit {0})
own_health name health = do
  s ← get
  if chars_eq s.player.name name
      then (do
        modify (λ t. record t { player = take_health health t.player })
        if is_positive health then pure tt else emit (print (codes "You are dead.\n")))
      else pure tt

unfoldable pub named : Chars → Client → Bool
named name s = any (λ player. chars_eq player.name name) s.players || chars_eq s.player.name name

-- With no health in the packet, the variable is used as soon as a player has the name.
unfoldable pub apply_health : Chars → Option ℤ → M Client (Unit {0})
apply_health name none = do s ← get; if named name s then raise uninitialized else pure tt
apply_health name (some health) = do
  s ← get
  modify (λ t. record t { players = update_health name health t.players })
  health_lines name health s.players
  own_health name health

module _ (net : RakNet) where
  unfoldable pub on_players_health_updated : Packet → M Client (Unit {0})
  on_players_health_updated p = do
    let (name, rest) = net.decode_string 256 (payload net p)
    apply_health name (read_into (net.read_int rest) none rest).0
