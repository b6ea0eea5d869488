-- ===== src/Sender/Construct.antt =====
-- The sender that the constructor makes.
-- Code: src/mping_sender.cpp.
use mathlib.Core.Bool.{false≢true}
use mping_sender_mirror.Prelude.{
  ℕ, ◌^◌, ◌<◌, ◌≡◌, refl, sym, subst, ap, ◌∙◌, Bool, true, false, String, [], ◌∷◌, ◌++◌, arith,
}
use mping_sender_mirror.Prelude.Int.{to_u32}
use mping_sender_mirror.Prelude.Outcome.{Outcome, returned}
use mping_sender_mirror.Asio.Api.{Asio}
use mping_sender_mirror.Network.{Endian}
use mping_sender_mirror.Runtime.{
  Answer, Call, Endpoint, expires_after, async_wait, random_u32, Env, History, async_send_to,
  steady_clock_now, if_nametoindex, socket_open, reuse_address, outbound_interface, enable_loopback,
  hops, receive_buffer_size, bind, log,
}
use mping_sender_mirror.Runtime.Monad.{lift, perform, attempt}
use mping_sender_mirror.Runtime.Makes.{Makes, Makes-weaken, Only, makes}
use mping_sender_mirror.Runtime.Yields.{
  Post, Yields, Yields-bind, Yields-then, Yields-pure, Yields-lift,
}
use mping_sender_mirror.Socket.{open_socket}
use mping_sender_mirror.Socket
use mping_sender_mirror.State.{sender, new}
use mping_sender_mirror.State.Validity.{IsValid}
use mping_sender_mirror.Sender.{Sender, draw, construct, schedule_send}
use mping_sender_mirror.Sender.Loop.{datagrams, readings}

-- Calls that neither send nor read the clock.
abbrev pub is_setup_call : {Address : Type 0} → Call Address → Bool
is_setup_call (async_send_to message endpoint) = false
is_setup_call steady_clock_now = false
is_setup_call _ = true

-- The calls of the constructor.
abbrev pub is_construct_call : {Address : Type 0} → Call Address → Bool
is_construct_call (if_nametoindex name) = true
is_construct_call (socket_open v4) = true
is_construct_call (reuse_address on) = true
is_construct_call (outbound_interface index) = true
is_construct_call (enable_loopback on) = true
is_construct_call (hops n) = true
is_construct_call (receive_buffer_size n) = true
is_construct_call (bind endpoint) = true
is_construct_call (log level line) = true
is_construct_call random_u32 = true
is_construct_call (expires_after n) = true
is_construct_call async_wait = true
is_construct_call _ = false

pub construct-setup :
    {Address : Type 0} (c : Call Address) → is_construct_call c ≡ true → is_setup_call c ≡ true
construct-setup c k = ground arith

pub datagrams-append :
    {Address : Type 0} (new h : History Address)
    → Only is_setup_call new
    → (datagrams (new ++ h) ≡ datagrams h) × (readings (new ++ h) ≡ readings h)
datagrams-append [] h k = (refl, refl)
datagrams-append ((async_send_to message endpoint, a) ∷ new) h k = absurd (false≢true k.0)
datagrams-append ((steady_clock_now, a) ∷ new) h k = absurd (false≢true k.0)
datagrams-append ((c, a) ∷ new) h k = datagrams-append new h k.1

same_value {ℓ} : {A : Type ℓ} (o : Outcome A) (a b : A) → o ≡ returned a → o ≡ returned b → a ≡ b
same_value o a b e f = cc

module _ (api : Asio) (env : Env api.Address) (native : Endian) where
  if_nametoindex-Makes : (name : String) → Makes is_construct_call (Socket.if_nametoindex env name)
  unfolding Socket.if_nametoindex
  if_nametoindex-Makes name = search makes depth 12

  open_socket-Makes :
      (endpoint : Endpoint api.Address) (limit : ℕ) (interface : String)
      → Makes is_construct_call (open_socket api env endpoint limit interface)
  unfolding open_socket
  open_socket-Makes endpoint limit interface = search (makes, if_nametoindex-Makes) depth 24

  schedule_send-Makes :
      (s : Sender api.Address) → Makes is_construct_call (schedule_send api env native s)
  unfolding schedule_send
  schedule_send-Makes s = search makes depth 12

  pub construct-Makes :
      (bind_address : String) (bind_port : ℕ) (address : String) (port ttl : ℕ) (interface : String)
      → Makes is_construct_call
          (construct api env native bind_address bind_port address port ttl interface)
  unfolding construct
  construct-Makes bind_address bind_port address port ttl interface =
      search (makes, open_socket-Makes, schedule_send-Makes) depth 24

  -- A sender that has just been made.
  pub record IsFresh (bind_port port ttl : ℕ) (s : Sender api.Address) : Type 0 where
    pub armed : s.waits ≡ 1
    pub idle : s.in_flight ≡ []
    pub type_sender : s.state.type ≡ sender
    pub ttl_given : s.state.ttl ≡ ttl
    pub from_port : s.state.src_port ≡ bind_port
    pub to_port : s.state.dest_port ≡ port
    pub first_number : s.state.sequence_number ≡ 0
    pub to_destination :
        s.endpoint ≡ record { address = s.state.dest_host; port = s.state.dest_port }
    pub valid : IsValid s.state

  module _ (bind_port port ttl : ℕ) (p : bind_port < 2 ^ 16) (q : port < 2 ^ 16)
      (t : ttl < 2 ^ 8) where
    -- The object when its constructor has armed the timer.
    abbrev armed_sender : api.Address → api.Address → api.Address → ℕ → ℕ → Sender api.Address
    armed_sender src dest target drawn waits = record {
      state = new sender ttl src bind_port dest port drawn;
      endpoint = record { address = target; port = port };
      waits = waits;
      in_flight = [];
    }

    armed_sender-IsFresh :
        (src dest target : api.Address) (drawn : ℕ)
        → drawn < 2 ^ 32
        → target ≡ dest
        → IsFresh bind_port port ttl (armed_sender src dest target drawn 1)
    unfolding new
    armed_sender-IsFresh src dest target drawn d e = record {
      armed = refl;
      idle = refl;
      type_sender = refl;
      ttl_given = refl;
      from_port = refl;
      to_port = refl;
      first_number = refl;
      to_destination = λ i. record { address = e i; port = port };
      valid = omega arith;
    }

    fresh :
        (src dest target : api.Address) (drawn : Answer)
        → target ≡ dest
        → Yields
            (IsFresh bind_port port ttl)
            (schedule_send api env native (armed_sender src dest target (to_u32 drawn.result) 0))
    unfolding schedule_send
    fresh src dest target drawn e = Yields-then (attempt env (expires_after 1)) (
        Yields-bind (perform env async_wait) λ _.
          Yields-pure (armed_sender-IsFresh src dest target (to_u32 drawn.result) (omega arith) e))

    construct-Yields :
        (bind_address address interface : String)
        → Yields
            (IsFresh bind_port port ttl)
            (construct api env native bind_address bind_port address port ttl interface)
    unfolding construct
    construct-Yields bind_address address interface =
        Yields-bind (lift (api.make_address bind_address)) λ bound.
          Yields-then
            (open_socket api env (record { address = bound; port = bind_port }) ttl interface)
            (Yields-bind (lift (api.make_address bind_address)) λ src.
              Yields-lift (api.make_address address) λ dest e. Yields-bind (draw env) λ drawn.
                Yields-lift (api.make_address address)
                  λ target f. fresh src dest target drawn (same_value _ _ _ f e))

    -- The constructor, for ports and a hop limit in the ranges of their types: if it returns, the
    -- timer is armed once, nothing is under way, the state is that of a sender with the given ports
    -- and hop limit and the sequence number 0, the packets go to its destination, and no datagram
    -- was sent and no clock read.
    pub construct-IsFresh :
        (bind_address address interface : String) (h h' : History api.Address)
        (s : Sender api.Address)
        → construct api env native bind_address bind_port address port ttl interface h
          ≡ (returned s, h')
        → IsFresh bind_port port ttl s × (datagrams h' ≡ datagrams h) × (readings h' ≡ readings h)
    construct-IsFresh bind_address address interface h h' s e =
        let a =
          (Makes-weaken construct-setup
              (construct-Makes bind_address bind_port address port ttl interface)).added
            h in
        let (none_sent, none_read) = datagrams-append a.new h a.kinds in
        let on_top : h' ≡ a.new ++ h =
          ap (λ (r : Outcome (Sender api.Address) × History api.Address). r.1) (sym e) ∙ a.on_top in
        (
          subst (Post (IsFresh bind_port port ttl))
              (ap (λ (r : Outcome (Sender api.Address) × History api.Address). r.0) e)
              ((construct-Yields bind_address address interface).post h),
          ap datagrams on_top ∙ none_sent,
          ap readings on_top ∙ none_read,
        )
