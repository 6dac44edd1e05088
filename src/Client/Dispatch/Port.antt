-- ===== src/Client/Dispatch/Port.antt =====
-- The search of `GameLoop` in RRPG/RRPG.cpp for a port, whose counter is an unsigned short.
use mathlib.Core.Path.{subst}
use rrpg.Common.{
  ℕ, zero, suc, ◌+◌, ◌-◌, ◌%◌, ◌<◌, ◌≤◌, false, some, ◌≡◌, refl, ap, ◌∙◌, inl, inr, arith,
  Bool-cases,
}
use rrpg.RakNet.{RakNet}
use rrpg.Client.Dispatch.{first_free_port}

step_around : (port d : ℕ) → (port + suc d) % 65536 ≡ ((port + 1) % 65536 + d) % 65536
step_around port d = omega arith

module _ (net : RakNet) where
  -- A free port that is `ahead` further on, around the end of the range.
  found_within :
      (ahead fuel port : ℕ)
      → ahead < fuel
      → port < 65536
      → net.is_port_in_use ((port + ahead) % 65536) ≡ false
      → (r : ℕ) × (first_free_port net fuel port ≡ some r) × (net.is_port_in_use r ≡ false)
  unfolding first_free_port
  found_within ahead zero port h small free = absurd (omega arith)
  found_within zero (suc fuel) port h small free =
      let here : net.is_port_in_use port ≡ false =
        subst (λ n. net.is_port_in_use n ≡ false) (omega arith) free in
      (port, rw (here, first_free_port) refl, here)
  found_within (suc ahead) (suc fuel) port h small free =
      elim (Bool-cases (net.is_port_in_use port)) [
        | inr here ↦ (port, rw (here, first_free_port) refl, here)
        | inl busy ↦
            let (r, found, there) =
              found_within ahead fuel ((port + 1) % 65536) (omega arith) (omega arith)
                (subst (λ n. net.is_port_in_use n ≡ false) (step_around port ahead) free) in
            (r, rw (busy, first_free_port) found, there)
      ]

  around :
      (port q : ℕ) → port < 65536 → q < 65536 → (d : ℕ) × (d < 65536) × ((port + d) % 65536 ≡ q)
  around port q h k = ((q + 65536 - port) % 65536, omega arith, omega arith)

  -- If any port is free, the client's search for one ends, from any port on, after at most 65536
  -- rounds, and what it finds is free: the counter wraps at the end of the range.
  pub first_free_port-ends :
      (fuel port q : ℕ)
      → port < 65536
      → q < 65536
      → net.is_port_in_use q ≡ false
      → 65536 ≤ fuel
      → (r : ℕ) × (first_free_port net fuel port ≡ some r) × (net.is_port_in_use r ≡ false)
  first_free_port-ends fuel port q h k free enough =
      let (d, small, there) = around port q h k in
      found_within d fuel port (omega arith) h (ap net.is_port_in_use there ∙ free)
