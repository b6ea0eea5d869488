-- ===== src/Tests/Ends.antt =====
-- The end of `main` when the second send fails.
use package.text.Mathlib.Text.{◌==◌ as str_eq}
use mping_sender_mirror.Prelude.{
  ℕ, Bool, true, false, String, List, [], ◌∷◌, Option, none, some, ltb, if◌then◌else◌,
}
use mping_sender_mirror.Prelude.Outcome.{Outcome}
use mping_sender_mirror.Asio.{HostAddress, concrete, ipv4, ipv6}
use mping_sender_mirror.Network.{little}
use mping_sender_mirror.Runtime.Calm.{IsNoExit, Calm, Calm-pure, Calm-throw, Calm-bind}
use mping_sender_mirror.Configuration.Api.{codes}
use mping_sender_mirror.Configuration.Concrete.{concrete_options, after_ttl, notify_with, cast}
use mping_sender_mirror.Sender.{Sender}
use mping_sender_mirror.Sender.Calm.{run-Calm}
use mping_sender_mirror.Main.{error_handler, main}
use mping_sender_mirror.Main.Order.{full}
use mping_sender_mirror.Main.Ends.{IsReturning, Ends, main-Ends}
use mping_sender_mirror.Tests.Loops.{events, event_loop}
use mping_sender_mirror.Tests.Options.{garbage}
use mping_sender_mirror.Tests.Samples.{kernel}

if-IsNoExit :
    {A : Type 0} (b : Bool) (o o' : Outcome A)
    → IsNoExit o
    → IsNoExit o'
    → IsNoExit (if b then o else o')
if-IsNoExit true o o' p q = p
if-IsNoExit false o o' p q = q

cast-IsNoExit : (clang : Bool) (ns : List ℕ) → IsNoExit (cast clang ns)
cast-IsNoExit clang [] = tt
cast-IsNoExit clang (n ∷ []) = if-IsNoExit (ltb n 256) _ _ tt tt
cast-IsNoExit clang (n ∷ (m ∷ rest)) = tt

notify-IsNoExit : (clang : Bool) (t : Option String) → IsNoExit (notify_with clang t)
notify-IsNoExit clang none = tt
notify-IsNoExit clang (some t) = cast-IsNoExit clang (codes t)

concrete-IsReturning : IsReturning concrete (concrete_options false)
concrete-IsReturning = record {
  make_address_ends = λ t. if-IsNoExit (str_eq t "ff2e::42") _ _ tt (
      if-IsNoExit (str_eq t "fd00:8e13:ce5d:e::1") _ _ tt
        (if-IsNoExit (str_eq t "192.0.2.1") _ _ tt tt));
  parse_ends = λ specs style args. tt;
  notify_ends = λ vm. notify-IsNoExit false (after_ttl vm);
}

to_v6_ends : (a : HostAddress) → IsNoExit (concrete.to_v6 a)
to_v6_ends (ipv4 n) = tt
to_v6_ends (ipv6 n) = tt

to_v4_ends : (a : HostAddress) → IsNoExit (concrete.to_v4 a)
to_v4_ends (ipv4 n) = tt
to_v4_ends (ipv6 n) = tt

error_handler-Calm : (ec : ℕ) → Calm {Address = HostAddress} (error_handler ec)
unfolding error_handler
error_handler-Calm ec = Calm-throw

event_loop-Calm : (s : Sender HostAddress) → Calm (event_loop kernel s)
event_loop-Calm s =
    Calm-bind
      (run-Calm concrete little to_v6_ends to_v4_ends kernel error_handler error_handler
        error_handler-Calm error_handler-Calm events s)
      (λ _. Calm-pure)

main-Ends_example :
    Ends concrete kernel
      (concrete_options false)
      little
      concrete-IsReturning
      (event_loop kernel)
      event_loop-Calm
      full
      garbage
      ("--ttl" ∷ "5" ∷ [])
      []
      (main concrete kernel
        (concrete_options false)
        little
        (event_loop kernel)
        full
        garbage
        ("--ttl" ∷ "5" ∷ [])
        [])
main-Ends_example =
    main-Ends concrete kernel (concrete_options false) little concrete-IsReturning
      (event_loop kernel) event_loop-Calm full garbage ("--ttl" ∷ "5" ∷ []) []
