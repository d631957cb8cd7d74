-- ===== src/Provisioner/Ports.antt =====
-- The port scan of provisioner.go.
use fox_fleet.Prelude.{
  ℕ, zero, suc, ◌^◌, ◌+◌, ◌≤◌, ◌<◌, ◌≡◌, ◌≢◌, refl, List, [], ◌∷◌, true, false, arith, length, ite,
  ℕ_discrete, ◌∙◌, Bool-cases, inl, inr,
}
use fox_fleet.Prelude.Int.{wrap_int-le, wrap_int-pos}
use fox_fleet.Provisioner.Defs.{
  Settings, contains, scan_ports, scan_length, allocate_port, max_port_scan,
}

-- A port of the range from `p` on is the result where it is the first that is not used.
pub record IsFirstFree (used : List ℕ) (p k r : ℕ) : Type 0 where
  pub above : p ≤ r
  pub below : r < p + k
  pub free : contains r used ≡ false
  pub first : (q : ℕ) → p ≤ q → q < r → contains q used ≡ true

scan-first :
    (used : List ℕ) (p k : ℕ) → scan_ports used p k ≢ 0 → IsFirstFree used p k (scan_ports used p k)
unfolding scan_ports
scan-first used p zero h = absurd (h refl)
scan-first used p (suc k) h = elim (Bool-cases (contains p used)) [
  | inr free ↦ rw free (record {
    above = omega arith;
    below = omega arith;
    free = free;
    first = λ q a b. absurd (omega arith);
  })
  | inl taken ↦
      let rest = scan-first used (p + 1) k (rw taken at h) in
      rw taken (record {
        above = omega (arith, rest.above);
        below = omega (arith, rest.below);
        free = rest.free;
        first = λ q a b. elim (ℕ_discrete q p) [
          | yes e ↦ rw e taken
          | no e ↦ rest.first q (omega arith) b
        ];
      })
]

scan_zero :
    (used : List ℕ) (p k : ℕ)
    → 0 < p
    → scan_ports used p k ≡ 0
    → (q : ℕ) → p ≤ q
    → q < p + k
    → contains q used ≡ true
unfolding scan_ports
scan_zero used p zero pos h q a b = absurd (omega arith)
scan_zero used p (suc k) pos h q a b = elim (Bool-cases (contains p used)) [
  | inr free ↦ absurd (ground arith)
  | inl taken ↦ elim (ℕ_discrete q p) [
    | yes e ↦ rw e taken
    | no e ↦ scan_zero used (p + 1) k (omega arith) (rw taken at h) q (omega arith) (omega arith)
  ]
]

remove_port : ℕ → List ℕ → List ℕ
remove_port p [] = []
remove_port p (q ∷ qs) = ite (ℕ_discrete q p) qs (q ∷ remove_port p qs)

length-remove_port :
    (p : ℕ) (qs : List ℕ) → contains p qs ≡ true → length (remove_port p qs) + 1 ≡ length qs
unfolding remove_port contains
length-remove_port p [] h = cc
length-remove_port p (q ∷ qs) h = ground (arith, length-remove_port p qs)

contains-remove_port :
    (p q : ℕ) (qs : List ℕ) → q ≢ p → contains q (remove_port p qs) ≡ contains q qs
unfolding remove_port contains
contains-remove_port p q [] h = refl
contains-remove_port p q (x ∷ qs) h = ground (arith, contains-remove_port p q qs h)

-- A list that has `k` ports in a row is that long.
pigeonhole :
    (k p : ℕ) (used : List ℕ)
    → ((q : ℕ) → p ≤ q → q < p + k → contains q used ≡ true)
    → k ≤ length used
pigeonhole zero p used h = omega arith
pigeonhole (suc k) p used h =
    let here = h (p + k) (omega arith) (omega arith) in
    let rest =
      pigeonhole k p (remove_port (p + k) used)
        (λ q a b. contains-remove_port (p + k) q used (omega arith) ∙ h q a (omega arith)) in
    omega (arith, length-remove_port (p + k) used here)

scan_length-le : (start : ℕ) → scan_length start ≤ max_port_scan
unfolding scan_length
scan_length-le start = omega (arith, wrap_int-le (start + max_port_scan))

scan_length-eq : (start : ℕ) → start + max_port_scan < 2 ^ 63 → scan_length start ≡ max_port_scan
unfolding scan_length
scan_length-eq start h = rw (wrap_int-pos (start + max_port_scan) h) (omega arith)

-- A port that is found is the first free one of the thousand from the start of the range on.
pub allocate_port-first :
    (c : Settings) (used : List ℕ)
    → allocate_port c used ≢ 0
    → IsFirstFree used c.port_range_start max_port_scan (allocate_port c used)
unfolding allocate_port
allocate_port-first c used h =
    let start = c.port_range_start in
    let found = scan-first used start (scan_length start) h in
    record {
      above = found.above;
      below = omega (arith, found.below, scan_length-le start);
      free = found.free;
      first = found.first;
    }

-- With fewer than a thousand ports in use one is found, where the range does not begin at 0 and its
-- end is below 2^63.
pub allocate_port-found :
    (c : Settings) (used : List ℕ)
    → 0 < c.port_range_start
    → c.port_range_start + max_port_scan < 2 ^ 63
    → length used < max_port_scan
    → allocate_port c used ≢ 0
unfolding allocate_port
allocate_port-found c used pos fits few none_free =
    let e = scan_length-eq c.port_range_start fits in
    absurd (
      omega (
        arith,
        pigeonhole max_port_scan c.port_range_start used
            (scan_zero used c.port_range_start max_port_scan pos (rw e at none_free)),
      ))
