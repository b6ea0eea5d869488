-- ===== src/Socket/Order.antt =====
-- The constructor of the socket: its calls and their order.
-- Code: src/multicast_tx_socket.cpp.
use mping_sender_mirror.Prelude.{ℕ, ◌≡◌, ap, ◌∙◌, true, false, String, List, ◌∷◌, arith}
use mping_sender_mirror.Prelude.Int.{ℤ, is_zero}
use mping_sender_mirror.Prelude.Outcome.{Outcome, returned}
use mping_sender_mirror.Asio.Api.{Asio}
use mping_sender_mirror.Runtime.{
  info, log, bind_on, Call, Answer, Endpoint, Env, History, calls, socket_open, reuse_address,
  outbound_interface, enable_loopback, hops, receive_buffer_size, bind,
}
use mping_sender_mirror.Runtime
use mping_sender_mirror.Runtime.Monad.{
  say, said, Action, ◌>>=◌, ◌>>◌, attempt, continue-eq-returned,
}
use mping_sender_mirror.Runtime.Follow.{attempt_step}
use mping_sender_mirror.Socket.{if_nametoindex, open_socket}

module _ (api : Asio) (env : Env api.Address) where
  module _ (endpoint : Endpoint api.Address) (ttl : ℕ) (interface : String) where
    abbrev bound : Action api.Address (Unit {0})
    bound = say env info (bind_on endpoint) >> attempt env (bind endpoint)

    abbrev no_receive : Action api.Address (Unit {0})
    no_receive = attempt env (receive_buffer_size 0) >> bound

    abbrev limited : Action api.Address (Unit {0})
    limited = attempt env (hops ttl) >> no_receive

    abbrev looped : Action api.Address (Unit {0})
    looped = attempt env (enable_loopback true) >> limited

    abbrev directed : ℤ → Action api.Address (Unit {0})
    directed index = attempt env (outbound_interface index) >> looped

    abbrev named : Action api.Address (Unit {0})
    named = if_nametoindex env interface >>= directed

    abbrev option_calls : ℤ → List (Call api.Address) → List (Call api.Address)
    option_calls index cs =
        bind endpoint
        ∷ log info (bind_on endpoint)
        ∷ receive_buffer_size 0
        ∷ hops ttl
        ∷ enable_loopback true
        ∷ outbound_interface index
        ∷ cs

    last_call :
        (c : Call api.Address) (h : History api.Address) → calls (attempt env c h).1 ≡ c ∷ calls h
    last_call c h = ground arith

    directed-calls :
        (index : ℤ) (h : History api.Address)
        → (directed index h).0 ≡ returned tt
        → calls (directed index h).1 ≡ option_calls index (calls h)
    directed-calls index h e =
        let P : Outcome (Unit {0}) × History api.Address → Type 0 =
          λ r. calls r.1 ≡ option_calls index (calls h) in
        attempt_step P env (outbound_interface index) looped tt h e λ e.
          attempt_step P env (enable_loopback true) limited tt _ e λ e.
            attempt_step P env (hops ttl) no_receive tt _ e λ e.
              attempt_step P env (receive_buffer_size 0) bound tt _ e
                λ e. last_call (bind endpoint) (said env info (bind_on endpoint) _)

    index-calls :
        (index : ℤ) (h : History api.Address)
        → (if_nametoindex env interface h).0 ≡ returned index
        → (is_zero index ≡ false)
          × (calls (if_nametoindex env interface h).1 ≡ Runtime.if_nametoindex interface ∷ calls h)
    unfolding if_nametoindex
    index-calls index h e = ground arith

    named-calls :
        (h : History api.Address)
        → (named h).0 ≡ returned tt
        → (index : ℤ) × (is_zero index ≡ false)
          × (calls (named h).1 ≡ option_calls index (Runtime.if_nametoindex interface ∷ calls h))
    named-calls h e =
        let (index, h₁, e₁, f₁) =
          continue-eq-returned (if_nametoindex env interface h) directed tt e in
        let (nonzero, asked) : (is_zero index ≡ false)
            × (calls h₁ ≡ Runtime.if_nametoindex interface ∷ calls h) =
          rw e₁ at (index-calls index h (ap (λ (r : Outcome ℤ × History api.Address). r.0) e₁)) in
        (index, nonzero, rw e₁ (directed-calls index h₁ f₁ ∙ ap (option_calls index) asked))

    -- If the constructor of the socket returns, it opened a socket of the family of `endpoint`, set
    -- its options with an interface index that is not 0, and bound it, with each call made once and
    -- in this order: the socket is bound last, when every option is set and the endpoint is logged.
    pub open_socket-calls :
        (h : History api.Address)
        → (open_socket api env endpoint ttl interface h).0 ≡ returned tt
        → (index : ℤ) × (is_zero index ≡ false)
          × (calls (open_socket api env endpoint ttl interface h).1
              ≡ bind endpoint
                ∷ log info (bind_on endpoint)
                ∷ receive_buffer_size 0
                ∷ hops ttl
                ∷ enable_loopback true
                ∷ outbound_interface index
                ∷ Runtime.if_nametoindex interface
                ∷ reuse_address true
                ∷ socket_open (api.is_v4 endpoint.address)
                ∷ calls h)
    unfolding open_socket
    open_socket-calls h e =
        let P : Outcome (Unit {0}) × History api.Address → Type 0 = λ r.
          (index : ℤ) × (is_zero index ≡ false)
          × (calls r.1
              ≡ option_calls index (
                  Runtime.if_nametoindex interface
                  ∷ reuse_address true
                  ∷ socket_open (api.is_v4 endpoint.address)
                  ∷ calls h)) in
        attempt_step P env (socket_open (api.is_v4 endpoint.address))
          (attempt env (reuse_address true) >> named) tt h e
          λ e. attempt_step P env (reuse_address true) named tt _ e λ e. named-calls _ e
