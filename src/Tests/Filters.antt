-- ===== src/Tests/Filters.antt =====
-- The filter on a concrete libseccomp and kernel.
use mping_sender_mirror.Prelude.{◌≡◌, ◌⊎◌, refl, false, ◌||◌, [], ◌++◌}
use mping_sender_mirror.Prelude.Int.{ℤ}
use mping_sender_mirror.Asio.{HostAddress, concrete}
use mping_sender_mirror.Network.{little}
use mping_sender_mirror.Runtime.{History}
use mping_sender_mirror.Runtime.Makes.{Only}
use mping_sender_mirror.Seccomp.Concrete.{verdict, verdict-IsSeccomp, killed, killed-IsKernel}
use mping_sender_mirror.Seccomp.Decision.{hit}
use mping_sender_mirror.Configuration.Concrete.{concrete_options}
use mping_sender_mirror.Main.{exit_status, main}
use mping_sender_mirror.Main.Order.{full}
use mping_sender_mirror.Main.Sandbox.{blacklist}
use mping_sender_mirror.Main.Startup.{IsReport}
use mping_sender_mirror.Main.Parts.{is_sandbox_call}
use mping_sender_mirror.Main.Policy.{main_enforces}
use mping_sender_mirror.Tests.Samples.{kernel}
use mping_sender_mirror.Tests.Sandboxes.{raw}
use mping_sender_mirror.Tests.Loops.{event_loop, event_loop-not_load}

main_enforces_example :
    (early : History HostAddress) × (later : History HostAddress) × ((main concrete kernel
        (concrete_options false)
        little
        (event_loop kernel)
        full
        raw
        []
        []).1
      ≡ later ++ early)
    × Only is_sandbox_call early
    × ((IsReport later
          × ((main concrete kernel
                (concrete_options false)
                little
                (event_loop kernel)
                full
                raw
                []
                []).0
              ≡ exit_status 1))
        ⊎ ((after between : History HostAddress)
            → later ≡ after ++ between
            → (n : ℤ)
            → killed (between ++ early) n
              ≡ (hit kernel blacklist n || killed {Address = HostAddress} [] n)))
main_enforces_example =
    main_enforces concrete kernel (concrete_options false) little verdict verdict-IsSeccomp killed
      killed-IsKernel (λ ctx useable h action n. refl) (event_loop kernel)
      (event_loop-not_load kernel) full raw [] refl
