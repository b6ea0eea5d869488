-- ===== src/State/Inverse.antt =====
-- A packet shows nothing but its view: `encode` can be undone.
-- Code: src/mping_state.cpp.
use mping_sender_mirror.Prelude.{
  ℕ, ◌^◌, ◌<◌, ◌≡◌, refl, sym, ap, ◌∙◌, inl, inr, Bool, true, false, List, [], ◌∷◌, ◌++◌,
  if◌then◌else◌, length, length-append, replicate, append_inj, arith, Bool-cases,
}
use mping_sender_mirror.Network.Bytes.{
  little_bytes, length-little_bytes, big_bytes, length-big_bytes, big_bytes-inj,
}
use mping_sender_mirror.Network.Layout.{image, length-image}
use mping_sender_mirror.State.{StateType, sender, receiver, to_underlying, version}
use mping_sender_mirror.State.View.{HostView, View, host_image, encode}

-- The ranges of the fields of a view.
pub record IsHostView (h : HostView) : Type 0 where
  pub size : length h.address ≡ (if h.six then 16 else 4)
  pub port_u16 : h.port < 2 ^ 16

pub record IsView (v : View) : Type 0 where
  pub ttl_u8 : v.ttl < 2 ^ 8
  pub source_host : IsHostView v.source
  pub destination_host : IsHostView v.destination
  pub sequence_number_u32 : v.sequence_number < 2 ^ 32
  pub pid_u32 : v.pid < 2 ^ 32
  pub seconds_u64 : v.seconds < 2 ^ 64
  pub microseconds_u64 : v.microseconds < 2 ^ 64

to_underlying-inj : (t u : StateType) → to_underlying t ≡ to_underlying u → t ≡ u
to_underlying-inj sender sender e = refl
to_underlying-inj sender receiver e = absurd (omega arith)
to_underlying-inj receiver sender e = absurd (omega arith)
to_underlying-inj receiver receiver e = refl

pub length-host_image : (h : HostView) → IsHostView h → length (host_image h) ≡ 128
length-host_image h v = elim (Bool-cases h.six) [
  | inl six ↦ rw six (omega (arith, length-image 10 h.port h.address 104, rw six at v.size))
  | inr other ↦ rw other (omega (arith, length-image 2 h.port h.address 116, rw other at v.size))
]

-- The family is the first byte.
abbrev first : List ℕ → ℕ
first [] = 0
first (b ∷ bs) = b

image-inj :
    (family port port' : ℕ) (address address' : List ℕ) (rest : ℕ)
    → port < 2 ^ 16
    → port' < 2 ^ 16
    → length address ≡ length address'
    → image family port address rest ≡ image family port' address' rest
    → (port ≡ port') × (address ≡ address')
image-inj family port port' address address' rest p p' size e =
    let (_, behind_family) =
      append_inj 2 (length-little_bytes 2 family) (length-little_bytes 2 family) e in
    let (ports, behind_port) =
      append_inj 2 (length-big_bytes 2 port) (length-big_bytes 2 port') behind_family in
    let (_, behind_flow) =
      append_inj {xs = replicate 4 0} {xs' = replicate 4 0} 4 refl refl behind_port in
    let (addresses, _) =
      append_inj {ys = replicate rest 0} {ys' = replicate rest 0} (length address) refl (sym size)
        behind_flow in
    (big_bytes-inj 2 port port' p p' ports, addresses)

families_differ :
    (port port' : ℕ) (address address' : List ℕ) (rest rest' : ℕ)
    → image 10 port address rest ≡ image 2 port' address' rest'
    → ⊥
unfolding little_bytes
families_differ port port' address address' rest rest' e =
    let f : ◌≡◌ {A = ℕ} 10 2 = ap first e in absurd (omega arith)

-- The images of two hosts, by their families.
by_family :
    (six six' : Bool) (port port' : ℕ) (address address' : List ℕ)
    → length address ≡ (if six then 16 else 4)
    → length address' ≡ (if six' then 16 else 4)
    → port < 2 ^ 16
    → port' < 2 ^ 16
    → (if six then image 10 port address 104 else image 2 port address 116)
      ≡ (if six' then image 10 port' address' 104 else image 2 port' address' 116)
    → (six ≡ six') × (port ≡ port') × (address ≡ address')
by_family true true port port' address address' s s' p p' e =
    let (ports, addresses) = image-inj 10 port port' address address' 104 p p' (s ∙ sym s') e in
    (refl, ports, addresses)
by_family true false port port' address address' s s' p p' e =
    absurd (families_differ port port' address address' 104 116 e)
by_family false true port port' address address' s s' p p' e =
    absurd (families_differ port' port address' address 104 116 (sym e))
by_family false false port port' address address' s s' p p' e =
    let (ports, addresses) = image-inj 2 port port' address address' 116 p p' (s ∙ sym s') e in
    (refl, ports, addresses)

host_image-inj :
    (h k : HostView) → IsHostView h → IsHostView k → host_image h ≡ host_image k → h ≡ k
host_image-inj h k v w e =
    let (six, port, address) =
      by_family h.six k.six h.port k.port h.address k.address v.size w.size v.port_u16 w.port_u16
        e in
    λ i. record { six = six i; address = address i; port = port i }

pub length-encode_head :
    (v : View)
    → length (version ++ (to_underlying v.type ∷ (big_bytes 1 v.ttl ++ (0 ∷ 0 ∷ [])))) ≡ 8
length-encode_head v =
    omega (arith, length-append (big_bytes 1 v.ttl) (0 ∷ 0 ∷ []), length-big_bytes 1 v.ttl)

-- The type and the time to live.
head-inj :
    (t u : StateType) (m n : ℕ)
    → m < 2 ^ 8
    → n < 2 ^ 8
    → version ++ (to_underlying t ∷ (big_bytes 1 m ++ (0 ∷ 0 ∷ [])))
      ≡ version ++ (to_underlying u ∷ (big_bytes 1 n ++ (0 ∷ 0 ∷ [])))
    → (t ≡ u) × (m ≡ n)
head-inj t u m n p q e =
    let (_, behind_version) = append_inj {xs = version} {xs' = version} 4 refl refl e in
    let (types, behind_type) =
      append_inj {xs = to_underlying t ∷ []} {xs' = to_underlying u ∷ []} 1 refl refl
        behind_version in
    let (bytes, _) =
      append_inj {ys = 0 ∷ 0 ∷ []} {ys' = 0 ∷ 0 ∷ []} 1 (length-big_bytes 1 m)
        (length-big_bytes 1 n) behind_type in
    (to_underlying-inj t u (ap first types), big_bytes-inj 1 m n p q bytes)

-- The four numbers behind the hosts.
tail-inj :
    (v w : View)
    → IsView v
    → IsView w
    → big_bytes 4 v.sequence_number
        ++ (big_bytes 4 v.pid ++ (big_bytes 8 v.seconds ++ big_bytes 8 v.microseconds))
      ≡ big_bytes 4 w.sequence_number
        ++ (big_bytes 4 w.pid ++ (big_bytes 8 w.seconds ++ big_bytes 8 w.microseconds))
    → (v.sequence_number ≡ w.sequence_number)
      × (v.pid ≡ w.pid)
      × (v.seconds ≡ w.seconds)
      × (v.microseconds ≡ w.microseconds)
tail-inj v w p q e =
    let (numbers, e₁) = append_inj 4 (length-big_bytes 4 _) (length-big_bytes 4 _) e in
    let (pids, e₂) = append_inj 4 (length-big_bytes 4 _) (length-big_bytes 4 _) e₁ in
    let (seconds, microseconds) = append_inj 8 (length-big_bytes 8 _) (length-big_bytes 8 _) e₂ in
    (
      big_bytes-inj 4 _ _ p.sequence_number_u32 q.sequence_number_u32 numbers,
      big_bytes-inj 4 _ _ p.pid_u32 q.pid_u32 pids,
      big_bytes-inj 8 _ _ p.seconds_u64 q.seconds_u64 seconds,
      big_bytes-inj 8 _ _ p.microseconds_u64 q.microseconds_u64 microseconds,
    )

-- Two views in the ranges of their types with the same packet are the same.
pub encode-inj : (v w : View) → IsView v → IsView w → encode v ≡ encode w → v ≡ w
encode-inj v w p q e =
    let (heads, e₁) = append_inj 8 (length-encode_head v) (length-encode_head w) e in
    let (sources, e₂) =
      append_inj 128 (length-host_image v.source p.source_host)
        (length-host_image w.source q.source_host) e₁ in
    let (destinations, tails) =
      append_inj 128 (length-host_image v.destination p.destination_host)
        (length-host_image w.destination q.destination_host) e₂ in
    let (type, ttl) = head-inj v.type w.type v.ttl w.ttl p.ttl_u8 q.ttl_u8 heads in
    let source = host_image-inj v.source w.source p.source_host q.source_host sources in
    let destination =
      host_image-inj v.destination w.destination p.destination_host q.destination_host
        destinations in
    let (number, pid, seconds, microseconds) = tail-inj v w p q tails in
    λ i. record {
      type = type i;
      ttl = ttl i;
      source = source i;
      destination = destination i;
      sequence_number = number i;
      pid = pid i;
      seconds = seconds i;
      microseconds = microseconds i;
    }
