-- ===== src/Tests/FilterRuns.antt =====
-- The rules of src/sec.c on concrete system calls.
use docker.Base.{ℕ, zero, suc, Bool, true, false, ◌≡◌, refl}
use docker.Sys.{Mask, Syscall}
use docker.Sec.{rules}
use docker.Sec.Filter.{refused}

-- `chmod` with S_ISUID alone.
abbrev set_user_id : ℕ → Mask → Bool
set_user_id (suc zero) Mask.s_isuid = true
set_user_id _ _ = false

chmod_refused : refused set_user_id rules Syscall.chmod ≡ true
unfolding refused rules
chmod_refused = refl

fchmod_at_argument_2 : refused set_user_id rules Syscall.fchmodat ≡ false
unfolding refused rules
fchmod_at_argument_2 = refl
