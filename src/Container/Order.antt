-- ===== src/Container/Order.antt =====
-- What has happened when `container_start` runs the command.
use docker.Base.{◌≡◌, is_neg, true, false, Bool-cases, inl, inr, ◌∷◌, arith, List, Option, Bytes}
use docker.Sys.{Kernel, Trace, Call, steps}
use docker.User.{user_namespace_init}
use docker.User.Range.{RefusesUnmapped, user_namespace_init-mapped}
use docker.Mount.{mount_set}
use docker.Container.{
  ContainerConfig, container_start, prepare, restrict, fail, set_hostname, configure_network,
}
use docker.Container.Laws.{restrict-eq-namespace}

prepared_mounts :
    (config : ContainerConfig) (k : Kernel) (t : Trace)
    → (prepare config k t).0 ≡ true
    → is_neg (mount_set config.mnt k (set_hostname config.hostname k t).1).0 ≡ false
unfolding prepare steps
prepared_mounts config k t h = ground arith

prepared_network :
    (config : ContainerConfig) (k : Kernel) (t : Trace)
    → (prepare config k t).0 ≡ true
    → (configure_network config k (mount_set config.mnt k (set_hostname config.hostname k t).1).1).0
      ≡ true
unfolding prepare steps
prepared_network config k t h = ground arith

-- If the socket of the container is not negative and the last call of `container_start` is an
-- `execve`, then the change of the root succeeded, the network was configured behind it without a
-- failure, nothing else of the stages 1 and 2 failed, and the user namespace was entered.
pub container_start_order :
    (config : ContainerConfig) (k : Kernel) (t : Trace) (path : Bytes) (argv : List (Option Bytes))
    (rest : Trace)
    → is_neg config.fd ≡ false
    → (container_start config k t).1 ≡ Call.execve path argv ∷ rest
    → (is_neg (mount_set config.mnt k (set_hostname config.hostname k t).1).0 ≡ false)
      × (let u = (mount_set config.mnt k (set_hostname config.hostname k t).1).1 in
          (configure_network config k u).0 ≡ true)
      × ((prepare config k t).0 ≡ true)
      × (is_neg (user_namespace_init config.uid config.fd k (prepare config k t).1).0 ≡ false)
unfolding container_start fail steps
container_start_order config k t path argv rest h e = elim (Bool-cases (prepare config k t).0) [
  | inr unprepared ↦ ground arith
  | inl prepared ↦ elim (Bool-cases (restrict config k (prepare config k t).1).0) [
    | inr unrestricted ↦ ground arith
    | inl restricted ↦ ground (
      arith,
      prepared_mounts config k t,
      prepared_network config k t,
      restrict-eq-namespace config k (prepare config k t).1,
    )
  ]
]

-- If the socket of the container is not negative, the kernel refuses ids that have no mapping, and
-- the last call of `container_start` is an `execve`, then the container was asked for with uid 0:
-- the one id that the parent's end maps.
pub container_start-root :
    (config : ContainerConfig) (k : Kernel) (t : Trace) (path : Bytes) (argv : List (Option Bytes))
    (rest : Trace)
    → is_neg config.fd ≡ false
    → RefusesUnmapped k
    → (container_start config k t).1 ≡ Call.execve path argv ∷ rest
    → config.uid ≡ 0
container_start-root config k t path argv rest h refuses e =
    let (mounted, connected, prepared, entered) =
      container_start_order config k t path argv rest h e in
    let mapped =
      user_namespace_init-mapped config.uid config.fd k (prepare config k t).1 refuses entered in
    ground arith
