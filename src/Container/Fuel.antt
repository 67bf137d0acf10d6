-- ===== src/Container/Fuel.antt =====
-- The fuel of the wait for the container's interface in src/container.c.
use docker.Base.{◌∷◌, ℕ, zero, suc, ◌+◌, ◌*◌, ◌≤◌, ◌<◌, ◌≡◌, Bytes, arith}
use docker.Sys.{Kernel, Trace, Call, steps}
use docker.Container.Network.{wait_visible}

ends_from :
    (rounds fuel more waited : ℕ) (name : Bytes) (k : Kernel) (t : Trace)
    → 5000 ≤ waited + 100 * rounds
    → rounds < fuel
    → rounds < more
    → wait_visible more name waited k t ≡ wait_visible fuel name waited k t
unfolding wait_visible steps
ends_from rounds zero more waited name k t enough h h' = elim h [ ]
ends_from rounds (suc fuel) zero waited name k t enough h h' = elim h' [ ]
ends_from zero (suc fuel) (suc more) waited name k t enough h h' = ground arith
ends_from (suc rounds) (suc fuel) (suc more) waited name k t enough h h' = ground (
  arith,
  ends_from rounds fuel more (waited + 100) name k
      (Call.usleep 100000 ∷ Call.if_nametoindex name ∷ t) (omega arith) (omega arith) (omega arith),
)

-- The wait for the container's interface ends within the 51 rounds that the model gives it: more of
-- them change neither the time that it returns nor its calls, whatever the polls see.
pub wait_visible_ends :
    (more : ℕ) (name : Bytes) (k : Kernel) (t : Trace)
    → 51 ≤ more
    → wait_visible more name 0 k t ≡ wait_visible 51 name 0 k t
wait_visible_ends more name k t h =
    ends_from 50 51 more 0 name k t (omega arith) (omega arith) (omega arith)
