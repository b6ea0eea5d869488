-- ===== src/Tests/Locks.antt =====
-- The sandbox on a concrete libcap-ng and landlock.
use mping_sender_mirror.Prelude.{
  ◌≡◌, ◌⊎◌, refl, Bool, true, false, not, ◌||◌, ◌&&◌, [], ◌∷◌, ◌++◌, if◌then◌else◌, arith,
}
use mping_sender_mirror.Prelude.Int.{ℤ, is_zero, same_int, same_int_refl}
use mping_sender_mirror.Asio.{HostAddress, concrete}
use mping_sender_mirror.Network.{little}
use mping_sender_mirror.Runtime.{
  Answer, Call, Constant, History, capng_apply, landlock_create_ruleset, landlock_restrict_self,
}
use mping_sender_mirror.Runtime.Makes.{Only}
use mping_sender_mirror.Capability.Dropped.{IsCapng}
use mping_sender_mirror.Landlock.Domain.{IsLandlock}
use mping_sender_mirror.Seccomp.Filter.{contains}
use mping_sender_mirror.Configuration.Concrete.{concrete_options}
use mping_sender_mirror.Main.{exit_status, main}
use mping_sender_mirror.Main.Order.{full}
use mping_sender_mirror.Main.Startup.{IsReport}
use mping_sender_mirror.Main.Parts.{is_sandbox_call}
use mping_sender_mirror.Main.Locked.{Locked, main_locks}
use mping_sender_mirror.Tests.Samples.{kernel}
use mping_sender_mirror.Tests.Sandboxes.{raw}
use mping_sender_mirror.Tests.Loops.{event_loop, event_loop-any}

-- The first accepted `capng_apply` leaves no capability.
abbrev held : History HostAddress → Constant → Bool
held [] c = true
held ((capng_apply s, b) ∷ h) c = not (is_zero b.result) && held h c
held (e ∷ h) c = held h c

and_false : (b c : Bool) → c ≡ false → (b && c) ≡ false
and_false true c e = e
and_false false c e = refl

held-IsCapng : IsCapng held
held-IsCapng = record {
  after_apply = λ h a b c fine. rw fine;
  stays = λ h e c none. stays h e.0 e.1 c none;
}
  where
    stays :
        (h : History HostAddress) (c : Call HostAddress) (a : Answer) (x : Constant)
        → held h x ≡ false
        → held ((c, a) ∷ h) x ≡ false
    stays h c a x none = ground arith

-- What the newest ruleset of a descriptor handles.
abbrev handles : History HostAddress → ℤ → Constant → Bool
handles [] fd x = false
handles ((landlock_create_ruleset fs net, a) ∷ h) fd x =
    if same_int a.result fd then contains x fs || contains x net else handles h fd x
handles (e ∷ h) fd x = handles h fd x

abbrev denied : History HostAddress → Constant → Bool
denied [] x = false
denied ((landlock_restrict_self fd, b) ∷ h) x = (is_zero b.result && handles h fd x) || denied h x
denied (e ∷ h) x = denied h x

denied-IsLandlock : IsLandlock denied
denied-IsLandlock = record {
  after_restrict = λ h a b fs net x fine handled. rw (fine, same_int_refl a.result, handled);
  stays = λ h e x already. stays h e.0 e.1 x already;
}
  where
    stays :
        (h : History HostAddress) (c : Call HostAddress) (a : Answer) (x : Constant)
        → denied h x ≡ true
        → denied ((c, a) ∷ h) x ≡ true
    stays h c a x already = ground arith

main_locks_example :
    (early : History HostAddress) × (later : History HostAddress) × ((main concrete kernel
        (concrete_options false)
        little
        (event_loop kernel)
        full
        raw
        []
        []).1
      ≡ later ++ early)
    × Only is_sandbox_call early
    × ((IsReport later
          × ((main concrete kernel
                (concrete_options false)
                little
                (event_loop kernel)
                full
                raw
                []
                []).0
              ≡ exit_status 1))
        ⊎ ((more : History HostAddress)
            → Locked kernel held held-IsCapng denied denied-IsLandlock full (more ++ early)))
main_locks_example =
    main_locks concrete kernel (concrete_options false) little held held-IsCapng denied
      denied-IsLandlock (event_loop kernel) (event_loop-any kernel) full raw []
