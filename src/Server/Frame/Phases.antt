-- ===== src/Server/Frame/Phases.antt =====
-- RRPG Server/server.cpp: `networkState` and `gameState` along a run.
use rrpg.Common.{sym, ap, ◌∙◌, ℕ, List, ◌≡◌, refl, Ends}
use rrpg.RakNet.{RakNet}
use rrpg.Protocol.{gs_character_select, gs_main, gs_game_over}
use rrpg.Server.{Server, NetworkState, ns_create_socket, ns_lobby, ns_game_started}
use rrpg.Server.Dispatch.{Event, run}
use rrpg.Server.Frame.{IsFrame}
use rrpg.Server.Frame.Handlers.{run-frame}

pub record Phase : Type 0 where
  pub network : NetworkState
  pub game : ℕ

abbrev pub phase : Server → Phase
phase s = record { network = s.network_state; game = s.game_state }

-- One change: the socket is opened, the selection of characters starts, the main game starts, or
-- the game is over.
pub data Change (p q : Phase) : Type 0 where
  opens : p.network ≡ ns_create_socket → q ≡ record p { network = ns_lobby } → Change p q
  starts : q ≡ record p { network = ns_game_started; game = gs_character_select } → Change p q
  plays : q ≡ record p { game = gs_main } → Change p q
  ends : q ≡ record p { game = gs_game_over } → Change p q

pub data Changes (p : Phase) : Phase → Type 0 where
  no_change : Changes p p
  one_more : {q r : Phase} → Changes p q → Change q r → Changes p r

Changes-frame : (p : Phase) → IsFrame (λ s. Changes p (phase s))
Changes-frame p = record {
  out_lem = λ s out h. h;
  random_lem = λ s random h. h;
  input_lem = λ s good h. h;
  count_lem = λ s n h. h;
  address_lem = λ s m h. h;
  turn_lem = λ s id h. h;
  main_lem = λ s h. one_more h (plays refl);
  over_lem = λ s h. one_more h (ends refl);
  start_lem = λ s h. one_more h (starts refl);
  lobby_lem = λ s here h. one_more h (opens here refl);
  emplace_lem = λ s id player h. h;
  adjust_lem = λ s id f tame h. h;
  each_lem = λ s f tame h. h;
}

not_created : ns_game_started ≡ ns_create_socket → ⊥
not_created h = cc

Change-started :
    (p q : Phase) → Change p q → p.network ≡ ns_game_started → q.network ≡ ns_game_started
Change-started p q (opens here e) started = absurd (not_created (sym started ∙ here))
Change-started p q (starts e) started = ap (λ r. r.network) e
Change-started p q (plays e) started = ap (λ r. r.network) e ∙ started
Change-started p q (ends e) started = ap (λ r. r.network) e ∙ started

-- A game that has started stays started.
pub Changes-started :
    (p q : Phase) → Changes p q → p.network ≡ ns_game_started → q.network ≡ ns_game_started
Changes-started p q no_change started = started
Changes-started p q (one_more {q = m} before change) started =
    Change-started m q change (Changes-started p m before started)

-- Whatever arrives and is typed, in any order and number, as long as no fault stops the server, the
-- state of the network and that of the game change only in these ways: the lobby opens when the
-- socket was to be opened, a selection of characters starts with the game's start, the main game
-- starts, and the game is over. So the socket is not opened again after that, and a game that has
-- started stays started.
pub run-Changes :
    (net : RakNet) (es : List Event) (s : Server)
    → Ends (run net es s) (λ _ s'. Changes (phase s) (phase s'))
run-Changes net es s = (run-frame (Changes-frame (phase s)) net es).at s no_change
