-- ===== src/Tests/WholeRuns.antt =====
-- The theorems about the whole of `main` and of `container_start` at concrete inputs.
use docker.Barco.ExitRange.{main-IsByte}
use docker.Base.{is_neg, to_ℕ, false, ◌<◌}
use docker.Base.{◌∷◌, ◌+◌, ◌≤◌, ◌≡◌, refl, pos, [], some, true}
use docker.Sys.Alphabet.{Only}
use docker.Sys.Descriptors.{descriptor, opened, closed, times}
use docker.Container.{container_start}
use docker.Container.Descriptors.{container_start_leaks_nothing}
use docker.Barco.Main.{main}
use docker.Barco.Run.{status_of}
use docker.Barco.Calls.{host_call}
use docker.Barco.Calls.Whole.{main-Only}
use docker.Barco.Processes.{signals_own}
use docker.Barco.Processes.Signals.{main-signals_own}
use docker.Barco.Processes.Reaped.{reaped}
use docker.Barco.Processes.Orphans.{main_leaves_no_process}
use docker.Sys.{Block}
use docker.Barco.Heap.{allocated, freed}
use docker.Barco.Heap.Balance.{main_balances}
use docker.Barco.Descriptors.Leaks.{main_leaks_nothing}
use docker.Barco.ExitCode.{main_exit_status}
use docker.Tests.Kernels.{generous}
use docker.Tests.MainRuns.{plain, networked, confined, set_up, waited}
use docker.Tests.ProcessRuns.{shell}

main-Only_example : Only host_call (main 3 networked)
main-Only_example = main-Only 3 networked

main-signals_own_example : signals_own generous (main 1 plain generous []).1 ≡ true
unfolding signals_own
main-signals_own_example = main-signals_own 1 plain generous [] refl

exits : (main 1 plain generous []).0 ≡ some (pos 3)
unfolding status_of
exits = main_exit_status 1 plain generous [] confined 768 refl refl refl set_up waited

-- The descriptor 6 is the child's end of the socket pair.
main_leaks_nothing_example :
    let u = (main 1 plain generous []).1 in
    opened generous u (descriptor 6) + closed [] (descriptor 6)
    ≤ closed u (descriptor 6) + opened generous [] (descriptor 6)
main_leaks_nothing_example = main_leaks_nothing 1 plain (pos 3) generous [] (descriptor 6) exits

-- The process 42 is the container's.
main_leaves_no_process_example : reaped generous (main 1 plain generous []).1 (pos 42) ≡ true
unfolding reaped
main_leaves_no_process_example =
    main_leaves_no_process 1 plain (pos 3) (pos 42) generous [] (λ n d failed. absurd (cc)) refl
      exits

main_balances_example :
    let u = (main 1 plain generous []).1 in
    (allocated generous u Block.stack + freed [] Block.stack
      ≤ allocated generous [] Block.stack + freed u Block.stack)
    × (freed u Block.stack ≤ freed [] Block.stack + 1)
main_balances_example = main_balances 1 plain (pos 3) Block.stack generous [] exits

-- The descriptor 6 is the child's end of the socket pair, whose copy the process has.
container_start_leaks_nothing_example :
    let u = (container_start shell generous []).1 in
    opened generous u (descriptor 6) + closed [] (descriptor 6) + times (pos 6 ∷ []) (descriptor 6)
    ≤ closed u (descriptor 6) + opened generous [] (descriptor 6)
container_start_leaks_nothing_example =
    container_start_leaks_nothing shell generous [] (descriptor 6)

main-IsByte_example : (is_neg (pos 3) ≡ false) × (to_ℕ (pos 3) < 256)
main-IsByte_example = main-IsByte 1 plain (pos 3) generous [] exits
