-- ===== src/Server/Dispatch/Run.antt =====
-- RRPG Server/server.cpp: the rounds of the threads, one after the other.
use rrpg.Common.{ℕ, ◌++◌, true, List, [], ◌∷◌, ◌≡◌, refl, ap, ◌∙◌, Result, ok, fault, Fault, ◌>>=◌}
use rrpg.RakNet.{RakNet, Packet}
use rrpg.Server.{Server, is_running}
use rrpg.Server.Dispatch.{handle_packet, handle, Event, receive, step, run}

-- The packets of some clients, in that order.
abbrev pub packets_of : (ℕ → Packet) → List ℕ → List Event
packets_of packet [] = []
packets_of packet (k ∷ ks) = receive (packet k) ∷ packets_of packet ks

abbrev then_do :
    (Server → Result (Unit {0} × Server)) → Result (Unit {0} × Server) → Result (Unit {0} × Server)
then_do k (fault f) = fault f
then_do k (ok (u, s)) = k s

module _ (net : RakNet) where
  step-handle : (e : Event) (s : Server) → is_running s ≡ true → step net e s ≡ handle net e s
  unfolding step ◌>>=◌
  step-handle e s running = rw running refl

  -- A round that goes through is followed by the rest of the rounds.
  pub run-handle :
      (e : Event) (es : List Event) (s t : Server)
      → is_running s ≡ true
      → handle net e s ≡ ok (tt, t)
      → run net (e ∷ es) s ≡ run net es t
  unfolding run
  run-handle e es s t running handled =
      ap (then_do (run net es)) (step-handle e s running ∙ handled)

  -- A round with a fault is the last one.
  pub run_fault :
      (e : Event) (es : List Event) (s : Server) (f : Fault)
      → is_running s ≡ true
      → handle net e s ≡ fault f
      → run net (e ∷ es) s ≡ fault f
  unfolding run
  run_fault e es s f running handled = ap (then_do (run net es)) (step-handle e s running ∙ handled)

  pub run_receive :
      (p : Packet) (es : List Event) (s t : Server)
      → is_running s ≡ true
      → handle_packet net p s ≡ ok (tt, t)
      → run net (receive p ∷ es) s ≡ run net es t
  unfolding handle
  run_receive p es s t running handled = run-handle (receive p) es s t running handled

  same_result :
      (r : Result (Unit {0} × Server)) → elim r [ fault f ↦ fault f | ok (_, s') ↦ ok (tt, s') ] ≡ r
  same_result (fault f) = refl
  same_result (ok (u, s)) = refl

  -- The last packet of a run.
  pub run_last :
      (p : Packet) (s : Server)
      → is_running s ≡ true
      → run net (receive p ∷ []) s ≡ handle_packet net p s
  unfolding run handle
  run_last p s running =
      ap (then_do (λ t. ok (tt, t))) (step-handle (receive p) s running)
      ∙ same_result (handle_packet net p s)

  run_ok :
      (xs ys : List Event) (r : Result (Unit {0} × Server))
      → ((s : Server) → run net (xs ++ ys) s ≡ then_do (run net ys) (run net xs s))
      → then_do (run net (xs ++ ys)) r ≡ then_do (run net ys) (then_do (run net xs) r)
  run_ok xs ys (fault f) h = refl
  run_ok xs ys (ok (u, s)) h = h s

  run_append :
      (xs ys : List Event) (s : Server) → run net (xs ++ ys) s ≡ then_do (run net ys) (run net xs s)
  unfolding run
  run_append [] ys s = refl
  run_append (x ∷ xs) ys s = run_ok xs ys (step net x s) (run_append xs ys)

  -- What follows a run goes on where it ended.
  pub run_then :
      (xs ys : List Event) (s t : Server)
      → run net xs s ≡ ok (tt, t)
      → run net (xs ++ ys) s ≡ run net ys t
  run_then xs ys s t ended = run_append xs ys s ∙ ap (then_do (run net ys)) ended
