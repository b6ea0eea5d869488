-- ===== src/Socket.antt =====
-- src/posix_wrapper.cpp and src/multicast_tx_socket.cpp: the interface index, and the UDP socket
-- that sends to a multicast group.
pub mod Completion
pub mod Order
use mping_sender_mirror.Prelude.{ℕ, Bool, true, String, List, ◌==◌, if◌then◌else◌}
use mping_sender_mirror.Prelude.Int.{ℤ, is_zero}
use mping_sender_mirror.Prelude.Outcome.{system_error}
use mping_sender_mirror.Asio.Api.{Asio}
use mping_sender_mirror.Runtime.{
  Endpoint, Env, socket_open, reuse_address, outbound_interface, enable_loopback, hops,
  receive_buffer_size, bind, async_send_to, info, trace, fatal, bind_on, sending_to, packet_sent,
  send_failed,
}
use mping_sender_mirror.Runtime
use mping_sender_mirror.Runtime.Monad.{Action, ◌>>=◌, ◌>>◌, pure, throw, perform, attempt, say}

unfoldable pub if_nametoindex : {Address : Type 0} → Env Address → String → Action Address ℤ
if_nametoindex env ifname = do
  a ← perform env (Runtime.if_nametoindex ifname)
  if is_zero a.result
      then throw (system_error a.errno "Failed to get interface index.")
      else pure a.result

module _ (api : Asio) (env : Env api.Address) where
  -- The constructor. `endpoint.protocol()` is that of IPv4 if the address is one, else that of
  -- IPv6.
  unfoldable pub open_socket : Endpoint api.Address → ℕ → String → Action api.Address (Unit {0})
  open_socket endpoint ttl interface = do
    attempt env (socket_open (api.is_v4 endpoint.address))
    attempt env (reuse_address true)
    index ← if_nametoindex env interface
    attempt env (outbound_interface index)
    attempt env (enable_loopback true)
    attempt env (hops ttl)
    attempt env (receive_buffer_size 0)
    say env info (bind_on endpoint)
    attempt env (bind endpoint)

  -- `send_packet` starts the operation; its handler is called later.
  unfoldable pub send : List ℕ → Endpoint api.Address → Action api.Address (Unit {0})
  send message endpoint = do
    say env trace (sending_to endpoint)
    _ ← perform env (async_send_to message endpoint)
    pure tt

  -- The handler of a finished send: an error code other than 0 goes to the error handler.
  unfoldable pub on_sent : (ℕ → Action api.Address (Unit {0})) → ℕ → Action api.Address (Unit {0})
  on_sent error_handler ec =
      if ec == 0
      then say env trace packet_sent
      else (do say env fatal (send_failed ec); error_handler ec)
