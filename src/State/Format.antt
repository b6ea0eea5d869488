-- ===== src/State/Format.antt =====
-- The packet as the comments draw it, against the packet that the code writes.
-- Code: src/mping_state.cpp, the drawing above `serialize` and the function.
use mathlib.Core.Bool.{true≢false}
use mping_sender_mirror.Prelude.{
  ℕ, ◌≡◌, ◌↔◌, ◌⊎◌, refl, sym, ap, ◌∙◌, inl, inr, true, Bool-cases, List, [], ◌∷◌, ◌++◌,
  if◌then◌else◌, length, length-append, length-replicate, ap₂, replicate, append_inj, arith,
}
use mping_sender_mirror.Prelude.Outcome.{returned}
use mping_sender_mirror.Asio.Api.{Asio, IsDocumented}
use mping_sender_mirror.Network.{Endian}
use mping_sender_mirror.Network.Bytes.{little_bytes, big_bytes, length-big_bytes}
use mping_sender_mirror.Network.Layout.{image}
use mping_sender_mirror.State.{
  State, StateType, sender, receiver, to_underlying, version, serialize,
}
use mping_sender_mirror.State.Inverse.{IsHostView, IsView, length-host_image, length-encode_head}
use mping_sender_mirror.State.View.{HostView, View, host_image, encode, view, serialize-encode}
use mping_sender_mirror.State.Wire.{IsSendable, view-IsView, returned-inj}

-- "IPv6 Host" and "IPv4 Host": the family in little endian, the port, and the address behind four
-- zeros, or right behind the port; then zeros up to 128 bytes.
abbrev drawn_v6 : ℕ → List ℕ → List ℕ
drawn_v6 port address =
    10 ∷ 0 ∷ (big_bytes 2 port ++ (0 ∷ 0 ∷ 0 ∷ 0 ∷ (address ++ replicate 104 0)))

abbrev drawn_v4 : ℕ → List ℕ → List ℕ
drawn_v4 port address = 2 ∷ 0 ∷ (big_bytes 2 port ++ (address ++ replicate 120 0))

abbrev drawn_host : HostView → List ℕ
drawn_host h = if h.six then drawn_v6 h.port h.address else drawn_v4 h.port h.address

abbrev drawn_type : StateType → ℕ
drawn_type sender = b's'
drawn_type receiver = b'r'

-- "MPing packet": version, type, time to live, two zeros, the hosts, and four numbers.
abbrev drawn_head : View → List ℕ
drawn_head v = b'2' ∷ b'.' ∷ b'0' ∷ 0 ∷ drawn_type v.type ∷ (big_bytes 1 v.ttl ++ (0 ∷ 0 ∷ []))

abbrev drawn_tail : View → List ℕ
drawn_tail v =
    big_bytes 4 v.sequence_number
    ++ (big_bytes 4 v.pid ++ (big_bytes 8 v.seconds ++ big_bytes 8 v.microseconds))

abbrev pub drawn_packet : View → List ℕ
drawn_packet v = drawn_head v ++ (drawn_host v.source ++ (drawn_host v.destination ++ drawn_tail v))

-- Where the code and the drawing agree: at an IPv6 address, and at 0.0.0.0.
abbrev pub Agrees : HostView → Type 0
Agrees h = (h.six ≡ true) ⊎ (h.address ≡ replicate 4 0)

v6_lem : (port : ℕ) (address : List ℕ) → image 10 port address 104 ≡ drawn_v6 port address
unfolding little_bytes
v6_lem port address = refl

v4_zero :
    (port : ℕ) (address : List ℕ)
    → address ≡ replicate 4 0
    → image 2 port address 116 ≡ drawn_v4 port address
unfolding little_bytes
v4_zero port address e = rw e refl

v4_only :
    (port : ℕ) (address : List ℕ)
    → length address ≡ 4
    → image 2 port address 116 ≡ drawn_v4 port address
    → address ≡ replicate 4 0
unfolding little_bytes
v4_only port address size e =
    let (_, behind_family) = append_inj {xs = 2 ∷ 0 ∷ []} {xs' = 2 ∷ 0 ∷ []} 2 refl refl e in
    let (_, behind_port) =
      append_inj 2 (length-big_bytes 2 port) (length-big_bytes 2 port) behind_family in
    let (zeros, _) = append_inj {xs = replicate 4 0} {xs' = address} 4 refl size behind_port in
    sym zeros

host_iff : (h : HostView) → IsHostView h → (host_image h ≡ drawn_host h) ↔ Agrees h
host_iff h v = elim (Bool-cases h.six) [
  | inl six ↦ ((λ _. inl six), λ _. rw six (v6_lem h.port h.address))
  | inr four ↦ (
    (λ e. inr (v4_only h.port h.address (rw four at v.size) (rw four at e))),
    λ agree. elim agree [
      | inl six ↦ absurd (true≢false (sym six ∙ four))
      | inr zeros ↦ rw four (v4_zero h.port h.address zeros)
    ],
  )
]

type_lem : (t : StateType) → to_underlying t ≡ drawn_type t
type_lem sender = refl
type_lem receiver = refl

head_lem :
    (v : View)
    → version ++ (to_underlying v.type ∷ (big_bytes 1 v.ttl ++ (0 ∷ 0 ∷ []))) ≡ drawn_head v
head_lem v = ap (λ (n : ℕ). version ++ (n ∷ (big_bytes 1 v.ttl ++ (0 ∷ 0 ∷ [])))) (type_lem v.type)

length-drawn_host : (h : HostView) → IsHostView h → length (drawn_host h) ≡ 128
length-drawn_host h v = elim (Bool-cases h.six) [
  | inl six ↦ rw six (
      omega (
        arith,
        length-append (big_bytes 2 h.port) (0 ∷ 0 ∷ 0 ∷ 0 ∷ (h.address ++ replicate 104 0)),
        length-big_bytes 2 h.port,
        length-append h.address (replicate 104 0),
        length-replicate {A = ℕ} 104 0,
        rw six at v.size,
      ))
  | inr four ↦ rw four (
      omega (
        arith,
        length-append (big_bytes 2 h.port) (h.address ++ replicate 120 0),
        length-big_bytes 2 h.port,
        length-append h.address (replicate 120 0),
        length-replicate {A = ℕ} 120 0,
        rw four at v.size,
      ))
]

-- The bytes of the code are those of the drawing exactly if both hosts agree.
encode_iff :
    (v : View) → IsView v → (encode v ≡ drawn_packet v) ↔ (Agrees v.source × Agrees v.destination)
encode_iff v p =
    let source_iff = host_iff v.source p.source_host in
    let destination_iff = host_iff v.destination p.destination_host in
    (
      (λ e.
          let (_, hosts) =
            append_inj
              {xs = version ++ (to_underlying v.type ∷ (big_bytes 1 v.ttl ++ (0 ∷ 0 ∷ [])))}
              {xs' = drawn_head v} 8 (length-encode_head v)
              (ap length (sym (head_lem v)) ∙ length-encode_head v) e in
          let (sources, rest) =
            append_inj 128 (length-host_image v.source p.source_host)
              (length-drawn_host v.source p.source_host) hosts in
          let (destinations, _) =
            append_inj {ys = drawn_tail v} {ys' = drawn_tail v} 128
              (length-host_image v.destination p.destination_host)
              (length-drawn_host v.destination p.destination_host) rest in
          (source_iff.0 sources, destination_iff.0 destinations)),
      λ agree. ap₂ (◌++◌) (head_lem v) (
          ap₂ (λ (a b : List ℕ). a ++ (b ++ drawn_tail v)) (source_iff.1 agree.0)
            (destination_iff.1 agree.1)),
    )

module _ {api : Asio} (documented : IsDocumented api) where
  -- With Boost.Asio as documented, for hosts of the two families and members in the ranges of their
  -- types: on a host of either byte order, `serialize` returns the packet that the comments of
  -- mping_state.cpp draw exactly if each of the two hosts is an IPv6 address or 0.0.0.0. For any
  -- other IPv4 address the code and the drawing differ.
  pub serialize-drawn_packet :
      (native : Endian) (s : State api.Address)
      → IsSendable api s
      → (serialize api native s ≡ returned (drawn_packet (view api s)))
        ↔ (Agrees (view api s).source × Agrees (view api s).destination)
  serialize-drawn_packet native s p =
      let (there, back) = encode_iff (view api s) (view-IsView documented s p) in
      let written = serialize-encode documented native s p.src p.dest in
      ((λ e. there (returned-inj (sym written ∙ e))), λ agree. written ∙ ap returned (back agree))
