-- ===== src/Session/Battle/Whole.antt =====
-- RRPG Server/server.cpp: the main game, one action after the other.
use mathlib.Core.Path.{subst}
use rrpg.Common.{
  ℕ, ◌+◌, ◌≤◌, true, List, [], ◌∷◌, ◌++◌, some, ◌≡◌, refl, sym, ap, ◌∙◌, ◌⊎◌, inl, inr, ok, All,
  Chars, Ends, ℤ, ==_iff,
}
use rrpg.RakNet.{RakNet, RakNetLaws, Packet}
use rrpg.Protocol.{Player, gs_game_over}
use rrpg.StdMap
use rrpg.StdMap.{keys}
use rrpg.StdMap.Order.{has_key, lookup-has_key, All-lookup, keys-adjust}
use rrpg.Server.{Server, is_running, ns_game_started}
use rrpg.Server.Broadcast.{add_health}
use rrpg.Server.Handlers.{sender, get_player_with_name}
use rrpg.Server.Turn.{alive_count}
use rrpg.Server.Invariant.{Inv}
use rrpg.Server.Invariant.Step.{run-Inv}
use rrpg.Server.Frame.Facts.{run-is_running}
use rrpg.Server.Frame.Phases.{phase, Changes, Changes-started, run-Changes}
use rrpg.Server.Battle.{view, Move, passes, wins, Moves, no_move, one_move}
use rrpg.Server.Battle.Alive.{two_alive}
use rrpg.Server.Battle.Refines.{Stands-lookup}
use rrpg.Server.Dispatch.{Event, receive, handle_packet, run}
use rrpg.Server.Dispatch.Run.{run_receive, run_last}
use rrpg.Session.Battle.{IsAction, action_lem}
use rrpg.Session.Battle.Names.{
  get_player_with_name-hit, get_player_with_name-found, HasRoom-IsModerate, HasRoom, AllHaveRoom,
  AllHaveRoom-hit,
}

-- A packet with an action against the player of a key.
pub record Act : Type 0 where
  pub packet : Packet
  pub action : ℕ
  pub name : Chars
  pub target : ℕ

-- The action is one of a client of the map against a player of the map.
pub record IsPlayed (net : RakNet) (players : List (ℕ × Player)) (a : Act) : Type 0 where
  pub taken : IsAction net a.packet a.action a.name
  pub known : has_key (sender net a.packet) (keys players) ≡ true
  pub named : get_player_with_name a.name players ≡ some a.target

abbrev pub packets : List Act → List Event
packets [] = []
packets (a ∷ acts) = receive a.packet ∷ packets acts

abbrev pub moves_of : List Act → List (ℕ × ℕ)
moves_of [] = []
moves_of (a ∷ acts) = (a.action, a.target) ∷ moves_of acts

-- By how much so many actions may change a player's health.
abbrev pub reach : List Act → ℕ
reach [] = 0
reach (a ∷ acts) = 18 + reach acts

IsPlayed-hit :
    (net : RakNet) (id : ℕ) (diff : ℤ) (players : List (ℕ × Player)) (acts : List Act)
    → All (IsPlayed net players) acts
    → All (IsPlayed net (StdMap.adjust id (add_health diff) players)) acts
IsPlayed-hit net id diff players [] h = tt
IsPlayed-hit net id diff players (a ∷ acts) h = (
  record {
    taken = h.0.taken;
    known =
        ap (has_key (sender net a.packet)) (keys-adjust id (add_health diff) players) ∙ h.0.known;
    named = get_player_with_name-hit a.name id diff players ∙ h.0.named;
  },
  IsPlayed-hit net id diff players acts h.1,
)

-- After a move either two players are alive or the game is over.
Move-ends :
    (action target : ℕ) (s s' : Server)
    → Move action target (view s) (view s')
    → (2 ≤ alive_count s'.players) ⊎ (s'.game_state ≡ gs_game_over)
Move-ends action target s s' (passes diff f effect there fighters over turn up other away up') =
    let (p, found, alive) = Stands-lookup s' s'.current_player_turn up in
    let (q, found', alive') = Stands-lookup s' other up' in
    inl (
      two_alive s'.current_player_turn other p q s'.players (λ e. away (sym e)) found alive found'
        alive')
Move-ends action target s s' (wins diff f effect there fighters over up only) =
    inr ((==_iff s'.game_state gs_game_over).0 over)

module _ (net : RakNet) (laws : RakNetLaws net) where
  -- What holds of the server holds behind a packet.
  after_packet :
      (p : Packet) (s s' : Server)
      → Inv s
      → s.network_state ≡ ns_game_started
      → is_running s ≡ true
      → handle_packet net p s ≡ ok (tt, s')
      → Inv s' × (s'.network_state ≡ ns_game_started) × (is_running s' ≡ true)
  after_packet p s s' inv started running ended =
      let ran = run_last net p s running ∙ ended in
      let es = receive p ∷ [] in
      (
        subst (λ r. Ends r (λ _. Inv)) ran (run-Inv net laws es s inv),
        Changes-started (phase s) (phase s')
            (subst (λ r. Ends r (λ _ u. Changes (phase s) (phase u))) ran (run-Changes net es s))
            started,
        subst (λ r. Ends r (λ _ u. is_running u ≡ is_running s)) ran (run-is_running net es s)
            ∙ running,
      )

  -- A whole main game, as long as anybody acts: however many actions of clients of the map against
  -- players of the map arrive, the server performs them one after the other, each as the move of the
  -- battle that has this action and this target, until all are performed or the game is over. No fault and no endless loop stops it
  -- on the way. It is in a consistent state and runs, the game has started with at least two
  -- players alive, and no health comes near the ends of an int with so many actions.
  pub battle-Moves :
      (acts : List Act) (s : Server)
      → Inv s
      → s.network_state ≡ ns_game_started
      → is_running s ≡ true
      → 2 ≤ alive_count s.players
      → AllHaveRoom (reach acts) s.players
      → All (IsPlayed net s.players) acts
      → (made left : List Act) × (s' : Server) × (acts ≡ made ++ left)
        × (run net (packets made) s ≡ ok (tt, s'))
        × Moves (moves_of made) (view s) (view s')
        × ((left ≡ []) ⊎ (s'.game_state ≡ gs_game_over))
  unfolding run
  battle-Moves [] s inv started running two room played = ([], [], s, refl, refl, no_move, inl refl)
  battle-Moves (a ∷ acts) s inv started running two room played =
      let act = played.0 in
      let (origin, known) = lookup-has_key (sender net a.packet) s.players act.known in
      let (target, found) = get_player_with_name-found a.name a.target s.players act.named in
      let moderate = HasRoom-IsModerate (reach acts) target.health (
        All-lookup (λ e. HasRoom (18 + reach acts) e.1.health) a.target s.players target found
          room) in
      let (s1, diff, ended, move, asks, effect, players) =
        action_lem net laws a.packet s a.action a.name origin target a.target act.taken inv started
          two known act.named found moderate in
      let (inv1, started1, running1) = after_packet a.packet s s1 inv started running ended in
      let room1 =
        subst (AllHaveRoom (reach acts)) (sym players)
          (AllHaveRoom-hit a.action (reach acts) a.target diff s.players effect room) in
      let played1 =
        subst (λ m. All (IsPlayed net m) acts) (sym players)
          (IsPlayed-hit net a.target diff s.players acts played.1) in
      elim (Move-ends a.action a.target s s1 move) [
        | inl two1 ↦
            let (made, left, s', whole, ran, moves, ends) =
              battle-Moves acts s1 inv1 started1 running1 two1 room1 played1 in
            (
              a ∷ made,
              left,
              s',
              ap (λ xs. a ∷ xs) whole,
              run_receive net a.packet (packets made) s s1 running ended ∙ ran,
              one_move a.action a.target move moves,
              ends,
            )
        | inr over ↦ (
          a ∷ [],
          acts,
          s1,
          refl,
          run_last net a.packet s running ∙ ended,
          one_move a.action a.target move no_move,
          inr over,
        )
      ]
