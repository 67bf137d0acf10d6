-- ===== src/Tests/UserRuns.antt =====
-- The theorems about src/user.c at concrete inputs.
use docker.Base.{◌∷◌, [], ◌≡◌, refl, pos, minus_one, int_bytes}
use docker.Sys.{Kernel, Call, steps}
use docker.User.{user_namespace_init, switch_ids}
use docker.Tests.Kernels.{answer, generous}

-- The parent cannot open the files.
abbrev denied : Kernel
denied n (Call.open_file path mode) = answer minus_one []
denied n c = generous n c

entered : (user_namespace_init 0 (pos 6) generous []).0 ≡ pos 0
unfolding user_namespace_init steps switch_ids
entered = refl

zero_bytes : 0 ∷ 0 ∷ 0 ∷ 0 ∷ [] ≡ int_bytes (pos 0)
unfolding int_bytes
zero_bytes = refl
