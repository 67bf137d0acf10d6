-- ===== src/Barco/Defs.antt =====
-- The arguments of `main` as argtable3 parses them, its local variables, and its jumps.
use docker.Base.{ℕ, ℤ, pos, Bool, Bytes, Option}
use docker.Sys.{M, pure, ◌>>=◌}
use docker.Container.{ContainerConfig}

-- What `arg_parse` returns and stores. An option that is given has its value.
pub record Args : Type 0 where
  pub errors : ℕ
  pub help : Bool
  pub uid : ℤ
  pub mnt : Bytes
  pub cmd : Bytes
  pub arg : Option Bytes
  pub veth_name : Option Bytes
  pub veth_peer : Option Bytes
  pub container_ip : Option Bytes
  pub host_ip : Option Bytes
  pub verbose : Bool
  pub nat : Bool
  pub dns : Option Bytes

pub record Locals : Type 0 where
  pub stack : Bool
  pub config : ContainerConfig
  pub container_pid : ℤ
  pub socket0 : ℤ
  pub socket1 : ℤ
  pub exitcode : ℤ
  pub veth_created : Bool
  pub nat_applied : Bool
  pub host_if : Bytes

-- How a part of `main` ends: it runs on, or jumps to `cleanup`. `waiting` stands for a run that is
-- still in the loop over `waitpid` when the rounds given to it are used up.
pub data Flow : Type 0 where
  next cleanup : Locals → Flow
  waiting : Flow

-- A part that ran on hands its variables to the next; a jump passes it over.
abbrev pub go_on : (Locals → M Flow) → Flow → M Flow
go_on g (next l) = g l
go_on g (cleanup l) = pure (cleanup l)
go_on g waiting = pure waiting

infixl 5 ◌>=>◌
abbrev pub ◌>=>◌ : (Locals → M Flow) → (Locals → M Flow) → Locals → M Flow
◌>=>◌ f g l = f l >>= go_on g

-- `exitcode = 1; goto cleanup;`
abbrev pub failed : Locals → Flow
failed l = cleanup (record l { exitcode = pos 1 })
