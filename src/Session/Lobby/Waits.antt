-- ===== src/Session/Lobby/Waits.antt =====
-- RRPG Server/server.cpp: the clients that say that they are ready, before the game starts.
use rrpg.Common.{
  ℕ, ◌==◌, true, false, ◌≢◌, ◌⊎◌, inl, inr, List, [], ◌∷◌, ◌++◌, Option, some, none, ◌≡◌, refl, ap,
  ◌∙◌, ok, arith, codes, length, length-append, sym, All,
}
use rrpg.RakNet.{RakNet, RakNetLaws, Packet, Effect, send, everyone, print}
use rrpg.Protocol.{Player}
use rrpg.StdMap
use rrpg.StdMap.Order.{All-lookup, lookup-adjust, has_key}
use rrpg.Server.{Server, is_running, expected_players}
use rrpg.Server.Broadcast.{text_bytes}
use rrpg.Server.Broadcast.Outcome.{said}
use rrpg.Server.Invariant.{Inv, IsWellFormed}
use rrpg.Server.Handlers.{sender, set_ready}
use rrpg.Server.Handlers.Ready.{can_start, on_player_ready_waits}
use rrpg.Server.Invariant.Parts.{adjust-IsConsistent}
use rrpg.Server.Dispatch.{handle_packet, run}
use rrpg.Server.Dispatch.Run.{packets_of, run_receive}
use rrpg.Session.Lobby.{
  IsDistinct, AreWaiting, AreWaiting-make_ready, IsReady, make_ready, all_ready-idle, ready_handled,
}

-- Everyone is told that a player is ready.
abbrev pub told : Player → List Effect → List Effect
told player out =
    send (text_bytes (codes "[Server] " ++ (player.name ++ codes " is ready."))) everyone
    ∷ print (
        codes "Broadcast: "
        ++ (codes "[Server] " ++ ((player.name ++ codes " is ready.") ++ codes "\n")))
    ∷ out

pub said-told :
    (player : Player) (s : Server)
    → said (player.name ++ codes " is ready.") s ≡ record s { out = told player s.out }
said-told player s =
    let spoken : (length (player.name ++ codes " is ready.") == 0) ≡ false =
      ground (arith, length-append player.name (codes " is ready.")) in
    rw spoken refl

-- Another player of the map is not ready, or not as many are connected as the game needs.
abbrev pub IsMissing : Server → ℕ → Type 0
IsMissing s k =
    ((j : ℕ) × (q : Player) × (j ≢ k) × (StdMap.lookup j s.players ≡ some q) × (q.ready ≡ false))
    ⊎ (s.total_connections ≢ expected_players)

IsMissing-can_start : (s : Server) (k : ℕ) → IsMissing s k → can_start (set_ready true k s) ≡ false
IsMissing-can_start s k (inl (j, q, away, found, idle)) =
    let kept : StdMap.lookup j (make_ready k s.players) ≡ some q =
      ground (arith, lookup-adjust j k (λ player. record player { ready = true }) s.players) in
    rw (all_ready-idle j q (make_ready k s.players) kept idle) refl
IsMissing-can_start s k (inr other) = ground (arith, other)

module _ (net : RakNet) (laws : RakNetLaws net) where
  -- A client of the map that says that it is ready is ready from then on, and everyone is told so;
  -- that is all, as long as another player of the map is not ready or the number of connections is
  -- not the number of players expected. The other players and the state of the game stay as they
  -- are, and no turn is given. The server is in a consistent state.
  pub ready-waits :
      (p : Packet) (k : ℕ) (s : Server) (player : Player)
      → IsReady net p k
      → StdMap.lookup k s.players ≡ some player
      → Inv s
      → IsMissing s k
      → handle_packet net p s
        ≡ ok (
          tt,
          record s {
            players = StdMap.adjust k (λ q. record q { ready = true }) s.players;
            out = told player s.out;
          },
        )
  ready-waits p k s player ready found inv missing =
      let known : StdMap.lookup (sender net p) s.players ≡ some player =
        ap (λ id. StdMap.lookup id s.players) ready.from ∙ found in
      let formed : IsWellFormed player =
        All-lookup (λ e. IsWellFormed e.1) k s.players player found inv.well_formed in
      ready_handled net laws p k s ready
      ∙ on_player_ready_waits net p s player known formed.short
          (ap (λ id. can_start (set_ready true id s)) ready.from ∙ IsMissing-can_start s k missing)
      ∙ ap (λ t. ok (tt, t)) (said-told player (set_ready true (sender net p) s))
      ∙ ap (λ id. ok (tt, record s { players = make_ready id s.players; out = told player s.out }))
          ready.from

abbrev told_by : Option Player → List Effect → List Effect
told_by none out = out
told_by (some player) out = told player out

-- The players once some clients are ready, and what everyone has been told by then.
abbrev pub ready_all : List ℕ → List (ℕ × Player) → List (ℕ × Player)
ready_all [] players = players
ready_all (k ∷ ks) players = ready_all ks (make_ready k players)

abbrev pub told_all : List ℕ → List (ℕ × Player) → List Effect → List Effect
told_all [] players out = out
told_all (k ∷ ks) players out =
    told_all ks (make_ready k players) (told_by (StdMap.lookup k players) out)

pub told_all-found :
    (k : ℕ) (ks : List ℕ) (players : List (ℕ × Player)) (player : Player) (out : List Effect)
    → StdMap.lookup k players ≡ some player
    → told_all ks (make_ready k players) (told player out) ≡ told_all (k ∷ ks) players out
told_all-found k ks players player out found =
    ap (λ o. told_all ks (make_ready k players) (told_by o out)) (sym found)

All-middle : {A : Type 0} (P : A → Type 0) (xs ys : List A) (y : A) → All P (xs ++ y ∷ ys) → P y
All-middle P [] ys y h = h.0
All-middle P (x ∷ xs) ys y h = All-middle P xs ys y h.1

pub has_key-middle : (k j : ℕ) (ks js : List ℕ) → has_key k (ks ++ j ∷ js) ≡ false → j ≢ k
has_key-middle k j [] js h = λ e. ground (arith, h, e)
has_key-middle k j (i ∷ ks) js h = has_key-middle k j ks js (ground (arith, h))

pub ready-Inv :
    (k : ℕ) (out : List Effect) (s : Server)
    → Inv s
    → Inv (record s { players = make_ready k s.players; out = out })
ready-Inv k out s inv =
    adjust-IsConsistent s k (λ q. record q { ready = true })
      (λ q w. record {
        fits = w.fits;
        mortal = w.mortal;
        short = w.short;
        terminated = w.terminated;
        class_byte = w.class_byte;
      })
      inv

module _ (net : RakNet) (laws : RakNetLaws net) (packet : ℕ → Packet) where
  -- Some clients are ready, and another one is not.
  pub waits_run :
      (early late : List ℕ) (j : ℕ) (s : Server)
      → Inv s
      → is_running s ≡ true
      → IsDistinct (early ++ j ∷ late)
      → AreWaiting s.players (early ++ j ∷ late)
      → All (λ k. IsReady net (packet k) k) (early ++ j ∷ late)
      → run net (packets_of packet early) s
        ≡ ok (
          tt,
          record s { players = ready_all early s.players; out = told_all early s.players s.out },
        )
  unfolding run is_running
  waits_run [] late j s inv running distinct waits packets = refl
  waits_run (k ∷ ks) late j s inv running distinct waits packets =
      let (player, found, idle) = waits.0 in
      let (other, there, still) = All-middle _ ks late j waits.1 in
      let t : Server = record s { players = make_ready k s.players; out = told player s.out } in
      let step =
        ready-waits net laws (packet k) k s player packets.0 found inv
          (inl (j, other, has_key-middle k j ks late distinct.0, there, still)) in
      run_receive net (packet k) (packets_of packet ks) s t running step
      ∙ waits_run ks late j t (ready-Inv k (told player s.out) s inv) running distinct.1
          (AreWaiting-make_ready k (ks ++ j ∷ late) s.players distinct.0 waits.1) packets.1
      ∙ ap (λ out. ok (tt, record s { players = ready_all (k ∷ ks) s.players; out = out }))
          (told_all-found k ks s.players player s.out found)
