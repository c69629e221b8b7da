-- ===== src/Program/Quorum.antt =====
-- The quorum that `configure` computes.
use mongoctl.Prelude.{ℕ, ◌+◌, ◌-◌, ◌^◌, ◌<◌, ◌≤◌, ◌≡◌, ◌⊎◌, arith}
use mongoctl.Program.{quroum_of}

-- The quorum of a cluster whose size is a 64-bit number is computed without overflow. It is a
-- majority, and the least one: two quorums have a member in common, and with one member less they
-- need not. A cluster that is not empty has a quorum; an empty one has none.
pub quroum_of_majority :
    (size : ℕ)
    → size < 2 ^ 64
    → (size < quroum_of size + quroum_of size)
      × ((quroum_of size - 1) + (quroum_of size - 1) ≤ size)
      × (((size ≡ 0) × (size < quroum_of size)) ⊎ ((0 < size) × (quroum_of size ≤ size)))
unfolding quroum_of
quroum_of_majority size h = (omega arith, omega arith, ground arith)
