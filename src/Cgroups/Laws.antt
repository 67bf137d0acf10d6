-- ===== src/Cgroups/Laws.antt =====
-- What `cgroups_init` has written when it reports success.
use docker.Base.{
  nonzero, suc, not, ◌&&◌, ◌==ℤ◌, minus_one, true, Bool, ℤ, List, [], ◌∷◌, length, Bytes, codes,
  snprintf, decimal_ℤ,
}
use docker.Sys.{Kernel, Trace, Call, OpenMode}
use docker.Cgroups.{CgroupsSetting, setting_dir}

-- The trace once each setting was written to its file, in order.
abbrev pub wrote_settings : Kernel → Bytes → List CgroupsSetting → Trace → Trace
wrote_settings k dir [] t = t
wrote_settings k dir (s ∷ ss) t =
    let opening = Call.open_file (setting_dir dir s.name) OpenMode.o_wronly in
    let fd = (k (length t) opening).ret in
    wrote_settings k dir ss (Call.close fd ∷ Call.write fd s.value ∷ opening ∷ t)

-- Each of these opens, writes and closes succeeded.
abbrev pub all_accepted : Kernel → Bytes → List CgroupsSetting → Trace → Bool
all_accepted k dir [] t = true
all_accepted k dir (s ∷ ss) t =
    let opening = Call.open_file (setting_dir dir s.name) OpenMode.o_wronly in
    let fd = (k (length t) opening).ret in
    let n = (k (suc (length t)) (Call.write fd s.value)).ret in
    let closed = (k (suc (suc (length t))) (Call.close fd)).ret in
    let rest = all_accepted k dir ss (Call.close fd ∷ Call.write fd s.value ∷ opening ∷ t) in
    (not (fd ==ℤ minus_one) && (not (n ==ℤ minus_one) && not (nonzero closed))) && rest

-- The four settings, for a process.
abbrev pub four_settings : ℤ → List CgroupsSetting
four_settings pid =
    record { name = codes "memory.max"; value = codes "1G" }
    ∷ record { name = codes "cpu.weight"; value = codes "256" }
    ∷ record { name = codes "pids.max"; value = codes "64" }
    ∷ record { name = codes "cgroup.procs"; value = snprintf 256 (decimal_ℤ pid) }
    ∷ []
