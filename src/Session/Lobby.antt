-- ===== src/Session/Lobby.antt =====
-- RRPG Server/server.cpp: the lobby, one packet after the other.
pub mod Waits
pub mod Starts
use mathlib.Core.List.{append-nil}
use mathlib.Core.Path.{subst}
use rrpg.Common.{
  ℕ, ◌<◌, ◌==◌, Bool, true, false, not, List, [], ◌∷◌, ◌++◌, some, none, ◌≡◌, refl, sym, ap, ◌∙◌,
  ◌≢◌, ok, arith, All, ==_iff, ◌⊎◌, inl, inr, map, Bool-cases,
}
use rrpg.RakNet.{RakNet, RakNetLaws, Packet, Effect, send, to, everyone}
use rrpg.Protocol.{Player, c_ready}
use rrpg.StdMap
use rrpg.StdMap.{keys}
use rrpg.StdMap.Order.{Above, Above-weaken, IsSorted, has_key, lookup-adjust}
use rrpg.Server
use rrpg.Server.Handlers.{sender, on_player_ready, all_ready, set_ready}
use rrpg.Server.Handlers.Ready.{none_ready}
use rrpg.Server.Dispatch.{Event, receive, handle_packet}
use rrpg.Session.Wire.{identify_lem, server-dispatch}

-- The packet with which the client of a key says that it is ready.
pub record IsReady (net : RakNet) (p : Packet) (id : ℕ) : Type 0 where
  pub from : sender net p ≡ id
  pub sent : p.bytes ≡ net.to_bytes (net.byte_bits c_ready)

abbrev pub IsDistinct : List ℕ → Type 0
IsDistinct [] = Unit
IsDistinct (k ∷ ks) = (has_key k ks ≡ false) × IsDistinct ks

-- The players of a list of keys are there and not ready.
abbrev pub AreWaiting : List (ℕ × Player) → List ℕ → Type 0
AreWaiting players =
    All (λ k. (player : Player) × (StdMap.lookup k players ≡ some player) × (player.ready ≡ false))

-- All players but those of a list of keys are ready.
abbrev pub OthersReady : List ℕ → List (ℕ × Player) → Type 0
OthersReady order = All (λ e. (e.1.ready ≡ true) ⊎ (has_key e.0 order ≡ true))

abbrev pub make_ready : ℕ → List (ℕ × Player) → List (ℕ × Player)
make_ready k = StdMap.adjust k (λ player. record player { ready = true })

pub AreWaiting-make_ready :
    (k : ℕ) (ks : List ℕ) (players : List (ℕ × Player))
    → has_key k ks ≡ false
    → AreWaiting players ks
    → AreWaiting (make_ready k players) ks
AreWaiting-make_ready k [] players other waits = tt
AreWaiting-make_ready k (j ∷ js) players other waits =
    let (player, found, idle) = waits.0 in
    (
      (
        player,
        ground (arith, lookup-adjust j k (λ player. record player { ready = true }) players),
        idle,
      ),
      AreWaiting-make_ready k js players (ground arith) waits.1,
    )

OthersReady-Above :
    (k : ℕ) (ks : List ℕ) (players : List (ℕ × Player))
    → Above k players
    → OthersReady (k ∷ ks) players
    → OthersReady ks players
OthersReady-Above k ks [] a others = tt
OthersReady-Above k ks ((j, player) ∷ players) a others = (
  ground arith,
  OthersReady-Above k ks players (Above-weaken k j players (omega (arith, a.0)) a.1) others.1,
)

OthersReady-in :
    (b k : ℕ) (ks : List ℕ) (players : List (ℕ × Player))
    → Above b players
    → OthersReady (k ∷ ks) players
    → OthersReady ks (make_ready k players)
unfolding StdMap.adjust
OthersReady-in b k ks [] a others = tt
OthersReady-in b k ks ((j, player) ∷ players) a others = elim (Bool-cases (j == k)) [
  | inl hit ↦ rw hit (
    inl refl,
    OthersReady-Above k ks players (subst (λ i. Above i players) ((==_iff j k).0 hit) a.1) others.1,
  )
  | inr miss ↦ rw miss (ground arith, OthersReady-in j k ks players a.1 others.1)
]

pub OthersReady-make_ready :
    (k : ℕ) (ks : List ℕ) (players : List (ℕ × Player))
    → IsSorted players
    → OthersReady (k ∷ ks) players
    → OthersReady ks (make_ready k players)
unfolding StdMap.adjust
OthersReady-make_ready k ks [] a others = tt
OthersReady-make_ready k ks ((j, player) ∷ players) a others = elim (Bool-cases (j == k)) [
  | inl hit ↦ rw hit (
    inl refl,
    OthersReady-Above k ks players (subst (λ i. Above i players) ((==_iff j k).0 hit) a) others.1,
  )
  | inr miss ↦ rw miss (ground arith, OthersReady-in j k ks players a others.1)
]

-- With nobody left, everybody is ready.
pub all_ready-OthersReady :
    (players : List (ℕ × Player)) → OthersReady [] players → all_ready players ≡ true
all_ready-OthersReady [] others = refl
all_ready-OthersReady ((j, player) ∷ players) others =
    ground (arith, all_ready-OthersReady players others.1, others.0)

-- Somebody who is not ready keeps the game from starting.
pub all_ready-idle :
    (k : ℕ) (player : Player) (players : List (ℕ × Player))
    → StdMap.lookup k players ≡ some player
    → player.ready ≡ false
    → all_ready players ≡ false
unfolding StdMap.lookup
all_ready-idle k player [] found idle = ground arith
all_ready-idle k player ((j, other) ∷ players) found idle = elim (Bool-cases (j == k)) [
  | inl hit ↦ let same : other ≡ player = ground arith in ground (arith, ap (λ q. q.ready) same)
  | inr miss ↦ ground (arith, all_ready-idle k player players (ground arith) idle)
]

pub none_ready-make_ready :
    (k : ℕ) (players : List (ℕ × Player)) → none_ready (make_ready k players) ≡ none_ready players
unfolding StdMap.adjust StdMap.for_each
none_ready-make_ready k [] = refl
none_ready-make_ready k ((j, player) ∷ players) = ground (arith, none_ready-make_ready k players)

module _ (net : RakNet) (laws : RakNetLaws net) where
  pub ready_handled :
      (p : Packet) (id : ℕ) (s : Server.Server)
      → IsReady net p id
      → handle_packet net p s ≡ on_player_ready net p s
  ready_handled p id s ready =
      server-dispatch net p c_ready s
        (identify_lem net laws p c_ready []
          (ready.sent ∙ ap net.to_bytes (sym (append-nil (net.byte_bits c_ready)))) (omega arith)
          (omega arith))
        (omega arith)
      ∙ to_ready p s
    where
      to_ready :
          (p : Packet) (s : Server.Server)
          → Server.Dispatch.client_packet net c_ready p s ≡ on_player_ready net p s
      to_ready p s = unfold Server.Dispatch.client_packet in refl
