-- ===== src/Barco/Leftover.antt =====
-- Parts 8 and 9 of `main` when another container is running: all have one control group, which is
-- named after the fixed host name.
use docker.Base.{suc, ◌≡◌, ◌≢◌, is_neg, nonzero, true, false, Bytes, ◌∷◌, length, minus_one, arith}
use docker.Sys.{Kernel, Trace, Call, steps}
use docker.User.{user_namespace_prepare_mappings}
use docker.Cgroups.{cgroups_init, enable_controllers, make_dir, remake_dir, cgroup_dir}
use docker.Barco.Defs.{Locals, next}
use docker.Barco.Setup.{text_of}
use docker.Barco.Run.{confine}

-- The directory is there (EEXIST is 17) and cannot be removed (ENOENT, that it is not there, is 2).
pub record IsTaken (dir : Bytes) (k : Kernel) (u : Trace) : Type 0 where
  pub refused : nonzero (k (length u) (Call.mkdir dir)).ret ≡ true
  pub there : (k (length u) (Call.mkdir dir)).errno ≡ 17
  pub kept : is_neg (k (suc (length u)) (Call.rmdir dir)).ret ≡ true
  pub busy : (k (suc (length u)) (Call.rmdir dir)).errno ≢ 2

make_dir-IsTaken :
    (dir : Bytes) (k : Kernel) (u : Trace)
    → IsTaken dir k u
    → make_dir dir k u ≡ (minus_one, Call.rmdir dir ∷ Call.mkdir dir ∷ u)
unfolding make_dir remake_dir steps
make_dir-IsTaken dir k u taken = ground arith

-- If the directory of the control group is there when it is to be made and cannot be removed,
-- `cgroups_init` writes none of the limits, and parts 8 and 9 of `main` go on: what they come to is
-- what the handshake alone comes to, and behind the attempt only its calls are made.
pub confine-IsTaken :
    (l : Locals) (k : Kernel) (t : Trace)
    → let dir = cgroup_dir (text_of l.config.hostname) in
      let u = (enable_controllers k t).1 in
      let mapped =
        user_namespace_prepare_mappings l.container_pid l.socket0 k
          (Call.rmdir dir ∷ Call.mkdir dir ∷ u) in
      IsTaken dir k u → is_neg mapped.0 ≡ false → confine l k t ≡ (next l, mapped.1)
unfolding confine cgroups_init steps
confine-IsTaken l k t taken mapped = ground (
  arith,
  make_dir-IsTaken (cgroup_dir (text_of l.config.hostname)) k (enable_controllers k t).1 taken,
)
