-- ===== src/Lib.antt =====
-- mping-sender: a program that sends an mping packet over UDP to a multicast group each second.
--
-- `main` (src/main.cpp) first confines the process: it drops the capabilities over libcap-ng
-- (src/capability_managment.cpp), restricts itself by landlock (src/landlock.cpp) and loads a
-- seccomp filter that kills a list of system calls (src/seccomp.cpp). Then it reads the command
-- line (src/configuration.cpp), makes the sender (src/mping_sender.cpp) and runs the event loop of
-- Boost.Asio. The sender opens a socket (src/multicast_tx_socket.cpp, src/posix_wrapper.cpp) and
-- sets a timer of one second; when it fires, its handler sets the timer anew, stamps the state of
-- the packet (src/mping_state.cpp) with the clock, serializes it (src/network_serialization.hpp),
-- hands it to the socket and counts the sequence number up.
--
-- Which file models which part:
--   Prelude        shared names: tests on the native numbers, lists, integers, outcomes of a call
--   Network        src/network_serialization.hpp: to_bigendian, to_littleendian, to_byte_array and
--                  the images ipv6_to_sockaddr_storage and ipv4_to_sockaddr_storage, with the
--                  iterator as a position in the array (Cursor)
--   State          src/mping_state.hpp and src/mping_state.cpp: MPingState as a record, with `new`
--                  and `new_with` for its constructors; serialize in its parts: serialize_head,
--                  serialize_host (the two equal blocks for the hosts) and serialize_tail;
--                  State/View has what a packet shows, State/Format the packet that the comments
--                  draw, State/Wire when two states share a packet
--   Sender         src/mping_sender.cpp: construct, schedule_send, on_timer (the handler of
--                  async_wait) and send_packet; Sender/Loop has the event loop as a relation,
--                  Sender/Schedule as a function of the order of the handlers
--   Socket         src/posix_wrapper.cpp and src/multicast_tx_socket.cpp: if_nametoindex,
--                  open_socket (the constructor), send (send_packet) and on_sent (its handler)
--   Configuration  src/configuration.cpp: the options, `configure` (the constructor) and
--                  the getters
--   Capability     src/capability_managment.cpp: check_for_capabilites, lock, drop_all_capabilies
--   Landlock       src/landlock.cpp: create (the constructor), restrict_self, abi_version,
--                  add_path_beneath_rule; Landlock/Wrappers has the functions of src/landlock.hpp
--                  for a C library that lacks them
--   Seccomp        src/seccomp.cpp: init (the constructor), rule_add, allow, kill, the twenty kill
--                  functions over the lists of Seccomp/Groups, load, reset, release, is_useable
--   Main           src/main.cpp: sandbox (with restrict_capabilities, restrict_landlock and
--                  restrict_seccomp), startup (up to the event loop) and main;
--                  Main/Program is the body of main for an order of the handlers
--   Dissector      wireshark/mping.lua: the plugin that reads the packet; Dissector/Plugin has the
--                  fields and experts that it declares and its registration for a port
--   Tests          the theorems at concrete inputs, and the unit tests of
--                  tests/mping_state_test.cpp (Tests/Unit)
--
-- State and errors: a class is a record of its members, and a function that changes it returns the
-- new one. A function that calls the kernel or a library is an Action (Runtime/Monad): it takes the
-- history of the calls made so far and gives an outcome (a value, an exception or a call of
-- std::exit) and the history after it. Every call is a constructor of Runtime.Call. Seccomp and
-- landlock objects are their one field, a pointer or a descriptor, as an integer.
--
-- Parameters: Env (Runtime) gives the answer to each call, which may depend on all that happened
-- before, and says which SYS_ names the headers define. Asio (Asio/Api) stands for the addresses
-- of Boost.Asio and ProgramOptions (Configuration/Api) for Boost.Program_options; their
-- IsDocumented records state what the documentation promises. IsSeccomp (Seccomp/Filter) states
-- what the manual pages of libseccomp promise of the rules of a filter, and IsKernel
-- (Seccomp/Kernel) what they promise of a filter that is loaded; IsCapng (Capability/Dropped) and
-- IsLandlock (Landlock/Domain) do so for the other two parts of the sandbox. DissectorTable
-- (Dissector/Plugin) stands for the table of Wireshark that the plugin adds itself to. IsReturning
-- (Main/Ends) says that Boost does not call std::exit. IsLog (Main/Printed) is what
-- Boost.Log promises: a line of the log is a call (Runtime.log) with its level and with what it
-- shows (Runtime.Line). `native` is the byte order of the host.
--
-- Numbers: unsigned members are native numbers, with the ranges of their types as hypotheses and
-- IsValid, and wrap-around written out; time points are integers, in nanoseconds. Byte order is
-- treated for integers of any width. There is no fuel: every loop runs over a list. The event loop
-- runs for ever, so a run of it is a finite sequence of steps of any length.
--
-- Not modelled: the text of the lines of the log and of the usage, the text of the absolute time
-- in the plugin with the failures of the Lua calls that build it, the call of restrict_self with an
-- argument, the build and the packages, and the configuration of systemd and AppArmor.
pub mod Prelude
pub mod Network
pub mod Asio
pub mod Runtime
pub mod Seccomp
pub mod Landlock
pub mod Capability
pub mod Socket
pub mod Configuration
pub mod Main
pub mod State
pub mod Sender
pub mod Dissector
pub mod Tests
