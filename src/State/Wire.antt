-- ===== src/State/Wire.antt =====
-- When two states have the same packet.
-- Code: src/mping_state.cpp.
use mping_sender_mirror.Prelude.{ℕ, ◌≡◌, sym, ap, ◌∙◌, ◌↔◌, List}
use mping_sender_mirror.Prelude.Outcome.{returned}
use mping_sender_mirror.Asio.Api.{Asio, IsDocumented}
use mping_sender_mirror.Network.{Endian}
use mping_sender_mirror.State.{State, serialize, get_seconds, get_microseconds}
use mping_sender_mirror.State.Clock.{to_u64-lt}
use mping_sender_mirror.State.Host.{IsHost}
use mping_sender_mirror.State.Inverse.{IsView, encode-inj}
use mping_sender_mirror.State.Validity.{IsValid}
use mping_sender_mirror.State.View.{View, view, encode, serialize-encode, address_length}

-- The states that `serialize` accepts, with members in the ranges of their types.
pub record IsSendable (api : Asio) (s : State api.Address) : Type 0 where
  pub valid : IsValid s
  pub src : IsHost api s.src_host
  pub dest : IsHost api s.dest_host

pub returned-inj : {xs ys : List ℕ} → returned xs ≡ returned ys → xs ≡ ys
returned-inj e = cc

module _ {api : Asio} (documented : IsDocumented api) where
  pub view-IsView : (s : State api.Address) → IsSendable api s → IsView (view api s)
  view-IsView s p = record {
    ttl_u8 = p.valid.ttl_u8;
    source_host = record {
      size = address_length documented s.src_host p.src;
      port_u16 = p.valid.src_port_u16;
    };
    destination_host = record {
      size = address_length documented s.dest_host p.dest;
      port_u16 = p.valid.dest_port_u16;
    };
    sequence_number_u32 = p.valid.sequence_number_u32;
    pid_u32 = p.valid.pid_u32;
    seconds_u64 = to_u64-lt (get_seconds s);
    microseconds_u64 = to_u64-lt (get_microseconds s);
  }

  -- With Boost.Asio as documented, for states with hosts of the two families and members in the
  -- ranges of their types: two packets, made on hosts of either byte order, are the same exactly if
  -- the states agree in all that a packet shows. No two states that differ in the type, the time to
  -- live, a host (family, address or port), the sequence number, the process id or a count of the
  -- time stamp share a packet.
  pub serialize-iff-view :
      (native native' : Endian) (s t : State api.Address)
      → IsSendable api s
      → IsSendable api t
      → (serialize api native s ≡ serialize api native' t) ↔ (view api s ≡ view api t)
  serialize-iff-view native native' s t p q =
      let e = serialize-encode documented native s p.src p.dest in
      let f = serialize-encode documented native' t q.src q.dest in
      (
        (λ same.
            encode-inj (view api s) (view api t) (view-IsView s p) (view-IsView t q)
              (returned-inj (sym e ∙ same ∙ f))),
        λ same. e ∙ ap (λ (v : View). returned (encode v)) same ∙ sym f,
      )
