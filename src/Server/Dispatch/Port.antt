-- ===== src/Server/Dispatch/Port.antt =====
-- The search of `Start` for a port: RRPG Server/server.cpp and, with a narrower counter, RRPG.cpp.
use mathlib.Core.Path.{subst}
use rrpg.Common.{ℕ, zero, suc, ◌+◌, ◌%◌, ◌^◌, ◌<◌, true, false, some, ◌≡◌, sym, ap, ◌∙◌, arith}
use rrpg.RakNet.{RakNet}
use rrpg.Server.Handlers.{u16}
use rrpg.Server.Dispatch.{first_free_port}

shift : (port i : ℕ) → port + suc i ≡ port + 1 + i
shift port i = omega arith

module _ (net : RakNet) where
  -- If the ports from the one typed in, of which the system takes 16 bits, are in use up to a free
  -- one, that free one is found: so
  -- many rounds as there are ports in use, and one more, suffice for the search to end. The free
  -- port is below 2 ^ 32, so that the counter does not wrap.
  pub first_free_port_lem :
      (skipped fuel port : ℕ)
      → port + skipped < 4294967296
      → ((i : ℕ) → i < skipped → net.is_port_in_use (u16 (port + i)) ≡ true)
      → net.is_port_in_use (u16 (port + skipped)) ≡ false
      → skipped < fuel
      → first_free_port net fuel port ≡ some (port + skipped)
  unfolding first_free_port
  first_free_port_lem skipped zero port small used free h = absurd (omega arith)
  first_free_port_lem zero (suc fuel) port small used free h =
      let here : net.is_port_in_use (u16 port) ≡ false =
        subst (λ n. net.is_port_in_use (u16 n) ≡ false) (omega arith) free in
      rw (here, first_free_port) (ap some (omega arith))
  first_free_port_lem (suc skipped) (suc fuel) port small used free h =
      let busy : net.is_port_in_use (u16 port) ≡ true =
        subst (λ n. net.is_port_in_use (u16 n) ≡ true) (omega arith) (used 0 (omega arith)) in
      let next : (port + 1) % 2 ^ 32 ≡ port + 1 = omega arith in
      rw (busy, first_free_port)
        (rw next (
          first_free_port_lem skipped fuel (port + 1) (omega arith)
            (λ i h'.
              subst (λ n. net.is_port_in_use (u16 n) ≡ true) (shift port i)
                (used (suc i) (omega arith)))
            (subst (λ n. net.is_port_in_use (u16 n) ≡ false) (shift port skipped) free)
            (omega arith)
          ∙ ap some (sym (shift port skipped))))
