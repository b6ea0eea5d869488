-- ===== src/Runtime.antt =====
-- The calls that the program makes of the kernel and of its libraries, and how they are answered.
-- What they do is not under src/: each answer is a parameter, and a run is the history of the
-- calls.
pub mod Monad
pub mod Makes
pub mod Yields
pub mod Calm
pub mod Follow
use mping_sender_mirror.Prelude.{ℕ, Bool, String, List, [], ◌∷◌, map, Option, ◌≡◌}
use mping_sender_mirror.Prelude.Int.{ℤ}
use mping_sender_mirror.Prelude.Outcome.{Exception}

-- A named constant of a C header, and `a | b` of such constants.
abbrev pub Constant : Type 0
Constant = String

abbrev pub Flags : Type 0
Flags = List Constant

-- boost::asio::ip::udp::endpoint
pub record Endpoint (Address : Type 0) : Type 0 where
  pub address : Address
  pub port : ℕ

-- boost::log::trivial::severity_level, an enumeration from 0.
pub data Severity : Type 0 where
  trace debug info warning error fatal : Severity

abbrev pub severity_number : Severity → ℕ
severity_number trace = 0
severity_number debug = 1
severity_number info = 2
severity_number warning = 3
severity_number error = 4
severity_number fatal = 5

-- The lines of the log, with what they show. The version of Boost is a constant of the build, that
-- of libseccomp stands behind the pointer that is shown here.
pub data Line (Address : Type 0) : Type 0 where
  bind_on : Endpoint Address → Line Address
  sending_to : Endpoint Address → Line Address
  packet_sent : Line Address
  send_failed : ℕ → Line Address
  timer_failed : Line Address
  boost_version : Line Address
  libcapng_built : Bool → Line Address
  seccomp_built : Bool → Line Address
  seccomp_version_is : ℤ → Line Address
  landlock_built : Bool → Line Address
  exits : Exception → Line Address

-- Arguments that are the same at every call of the program (sizes, a last flag 0) are left out.
pub data Call (Address : Type 0) : Type 0 where
  -- libcap-ng
  capng_have_capability : Constant → Constant → Call Address
  capng_lock : Call Address
  capng_clear : Constant → Call Address
  capng_apply : Constant → Call Address
  -- landlock: the ABI query, a ruleset of handled accesses, a rule, and the restriction
  landlock_abi_version : Call Address
  landlock_create_ruleset : Flags → Flags → Call Address
  landlock_add_rule : ℤ → Flags → ℤ → Call Address
  landlock_restrict_self : ℤ → Call Address
  -- libseccomp: the context is the pointer that seccomp_init gave
  seccomp_init : Constant → Call Address
  seccomp_rule_add : ℤ → Constant → ℤ → Call Address
  seccomp_load : ℤ → Call Address
  seccomp_reset : ℤ → Constant → Call Address
  seccomp_release : ℤ → Call Address
  seccomp_version : Call Address
  -- net/if.h
  if_nametoindex : String → Call Address
  -- Boost.Asio sockets
  socket_open : Bool → Call Address
  reuse_address : Bool → Call Address
  outbound_interface : ℤ → Call Address
  enable_loopback : Bool → Call Address
  hops : ℕ → Call Address
  receive_buffer_size : ℕ → Call Address
  bind : Endpoint Address → Call Address
  async_send_to : List ℕ → Endpoint Address → Call Address
  -- Boost.Asio timers, the steady clock and the random numbers
  expires_after : ℕ → Call Address
  async_wait : Call Address
  steady_clock_now : Call Address
  random_u32 : Call Address
  -- Boost.Log and Boost.Program_options
  set_filter : ℕ → Call Address
  log : Severity → Line Address → Call Address
  print_usage : Call Address

-- What a call returns (a pointer is its number, 0 for nullptr), and `errno` after it. A call of
-- Boost.Asio that returns no value throws system_error if `result` is not 0.
pub record Answer : Type 0 where
  pub result : ℤ
  pub errno : ℕ

-- The newest call first.
abbrev pub History : Type 0 → Type 0
History Address = List (Call Address × Answer)

abbrev pub calls : {Address : Type 0} → History Address → List (Call Address)
calls h = map (λ e. e.0) h

-- The outside: the answers, which may depend on all that happened before, and the headers of the
-- platform: whether SYS_name is defined, and the value of SCMP_SYS(name).
pub record Env (Address : Type 0) : Type 0 where
  pub answer : History Address → Call Address → Answer
  pub defines : String → Bool
  pub scmp_sys : String → ℤ
