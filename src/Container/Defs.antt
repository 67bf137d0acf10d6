-- ===== src/Container/Defs.antt =====
-- The configuration that include/container.h declares.
use docker.Base.{ℕ, ℤ, Bool, Bytes, Option}

abbrev pub container_stack_size : ℕ
container_stack_size = 1048576

-- A pointer that may be NULL is an `Option`.
pub record ContainerConfig : Type 0 where
  pub uid : ℕ
  pub fd : ℤ
  pub hostname : Option Bytes
  pub cmd : Bytes
  pub arg : Option Bytes
  pub mnt : Bytes
  pub veth_name : Option Bytes
  pub veth_peer : Option Bytes
  pub veth_tmp : Option Bytes
  pub container_ip : Option Bytes
  pub host_ip : Option Bytes
  pub dns_server : Option Bytes
  pub enable_nat : Bool
