-- ===== src/Main/Program/Dissected.antt =====
-- The datagrams of the program, as Wireshark shows them with the plugin loaded.
-- Code: src/main.cpp, src/mping_sender.cpp and wireshark/mping.lua.
use mping_sender_mirror.Prelude.{
  ℕ, ◌≡◌, subst, ap, ◌∙◌, true, String, List, [], ◌∷◌, Option, none, some, All,
}
use mping_sender_mirror.Prelude.Int.{ℤ}
use mping_sender_mirror.Prelude.Outcome.{returned}
use mping_sender_mirror.Asio.Api.{Asio, IsDocumented as IsDocumentedAsio}
use mping_sender_mirror.Network.{Endian}
use mping_sender_mirror.Runtime.{Endpoint, Env, History}
use mping_sender_mirror.State.{State}
use mping_sender_mirror.Configuration.Api.{ProgramOptions, IsDocumented}
use mping_sender_mirror.Configuration.{Configuration, options}
use mping_sender_mirror.Configuration.Defaults.{configure_port}
use mping_sender_mirror.Sender.{Sender}
use mping_sender_mirror.Sender.Loop.{datagrams, readings, Reach, Counted}
use mping_sender_mirror.Sender.Run.{Reach-Inv}
use mping_sender_mirror.Sender.Service.{fresh-Inv}
use mping_sender_mirror.Sender.Delivered.{Delivered, Counted-Delivered}
use mping_sender_mirror.Dissector.{ipv6}
use mping_sender_mirror.Dissector.Plugin.{
  DissectorTable, IsDocumented as IsDocumentedTable, mping_protocol, register,
  dissector_of-register,
}
use mping_sender_mirror.Main.{Build, error_handler, startup}
use mping_sender_mirror.Main.Exit.{error_handler-IsFatal}
use mping_sender_mirror.Main.Program.Quiet.{Quiet, IsIdle, Fresh, startup-Quiet}

module _ (api : Asio) (env : Env api.Address) (native : Endian) where
  -- A numbered datagram goes to the endpoint of the sender.
  Counted-endpoint :
      (P : Endpoint api.Address → Type 0) (first : State api.Address)
      (endpoint : Endpoint api.Address) (ds : List (List ℕ × Endpoint api.Address)) (ts : List ℤ)
      → P endpoint
      → Counted api env native error_handler error_handler first endpoint ds ts
      → All (λ d. P d.1) ds
  Counted-endpoint P first endpoint [] ts p c = tt
  Counted-endpoint P first endpoint (d ∷ ds) [] p c = absurd c
  Counted-endpoint P first endpoint (d ∷ ds) (t ∷ ts) p c =
      (rw c.1 p, Counted-endpoint P first endpoint ds ts p c.2)

module _ {api : Asio} (addresses : IsDocumentedAsio api) (env : Env api.Address)
    (library : ProgramOptions) (native : Endian) (build : Build)
    (token : List String → String → Option String)
    (documented : IsDocumented library (options build.clang) token) (udp_port : DissectorTable)
    (promised : IsDocumentedTable udp_port) where
  -- A sender that was started without `--port`.
  abbrev Started : Sender api.Address → Type 0
  Started = Fresh api env library native build token documented (λ c. c.port ≡ 4321)

  started_lem :
      (raw : Configuration) (args : List String) (s : Sender api.Address) (h : History api.Address)
      → token args "port" ≡ none
      → startup api env library native build raw args [] ≡ (returned s, h)
      → Started s × IsIdle h
  started_lem raw args s h missing e = subst (Quiet Started) e (
      startup-Quiet api env library native build token documented raw args (λ c. c.port ≡ 4321)
        (λ c h e. configure_port env library build.clang token documented raw c args h missing e))

  -- The whole way, with the libraries and Wireshark as documented: if the program starts without
  -- `--port`, between IPv6 hosts v and w, then, in whatever order the event loop calls the
  -- handlers that return, each datagram goes to a port for which the loaded plugin is registered,
  -- and the plugin accepts it below headers with these hosts, reports no fault, and shows both
  -- hosts and the fields of the first state, but for the k-th datagram (from 0) the number k
  -- modulo 2 ^ 32 and the k-th reading of the clock.
  pub datagrams_shown :
      (raw : Configuration) (args : List String) (s s' : Sender api.Address)
      (h h' : History api.Address) (table : udp_port.Table) (v w : api.V6)
      → token args "port" ≡ none
      → startup api env library native build raw args [] ≡ (returned s, h)
      → Reach api env native error_handler error_handler s h s' h'
      → api.is_v6 s.state.src_host ≡ true
      → api.to_v6 s.state.src_host ≡ returned v
      → api.is_v6 s.state.dest_host ≡ true
      → api.to_v6 s.state.dest_host ≡ returned w
      → All
          (λ d. udp_port.dissector_of (register udp_port table) d.1.port ≡ some mping_protocol)
          (datagrams h')
        × Delivered s.state
            (record { address = ipv6 (api.v6_to_bytes v); port = s.state.src_port })
            (record { address = ipv6 (api.v6_to_bytes w); port = s.state.dest_port })
            (datagrams h')
            (readings h')
  datagrams_shown raw args s s' h h' table v w missing started r six e six' e' =
      let ((c, default, fresh), idle) = started_lem raw args s h missing started in
      let inv =
        Reach-Inv api env native error_handler error_handler error_handler-IsFatal
          error_handler-IsFatal s.state s.endpoint s h s' h'
          (fresh-Inv api env native error_handler error_handler error_handler-IsFatal
            error_handler-IsFatal s h fresh idle.none_sent idle.none_read)
          r in
      let port : s.endpoint.port ≡ 4321 =
        ap (λ (e : Endpoint api.Address). e.port) fresh.to_destination ∙ fresh.to_port ∙ default in
      (
        Counted-endpoint api env native
            (λ e. udp_port.dissector_of (register udp_port table) e.port ≡ some mping_protocol)
            s.state s.endpoint (datagrams h') (readings h')
            (ap (udp_port.dissector_of (register udp_port table)) port
              ∙ dissector_of-register udp_port promised table)
            inv.counted,
        Counted-Delivered addresses env native error_handler error_handler s.state s.endpoint v w
            six e six' e' fresh.valid (datagrams h') (readings h') inv.counted,
      )
