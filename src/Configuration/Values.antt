-- ===== src/Configuration/Values.antt =====
-- The members of a configuration that was read.
-- Code: src/configuration.cpp.
use mping_sender_mirror.Prelude.{
  subst, ◌≡◌, ◌≢◌, refl, ap, ◌⊎◌, ◌<◌, ◌^◌, inl, inr, Bool, true, false, ℕ, String, List, [], ◌∷◌,
  All, Option, some, Bool-cases,
}
use mping_sender_mirror.Prelude.Outcome.{Outcome, returned, exited}
use mping_sender_mirror.Runtime.{Env, History, set_filter}
use mping_sender_mirror.Runtime.Monad.{continue-eq-returned, lift}
use mping_sender_mirror.Configuration.Api.{
  Value, Member, bind_port, port, ttl, HasKind, IsWritten, IsCharacter, codes, member_kind,
  ProgramOptions, IsDocumented,
}
use mping_sender_mirror.Configuration.{
  Configuration, options, style, write_all, configure, threshold,
}
use mping_sender_mirror.Configuration.Specs.{is_bound, options-set, ttl_kind, ttl_name, All-HasKind}
use mping_sender_mirror.Configuration.Writes.{value_of, write_all_member, Member-discrete}

exited-ne : {A : Type 0} (n : ℕ) (a : A) → exited n ≢ returned a
exited-ne n a e = cc

returned-inj : {A : Type 0} (a b : A) → returned a ≡ returned b → a ≡ b
returned-inj a b e = cc

module _ {Address : Type 0} (env : Env Address) (library : ProgramOptions) (clang : Bool)
    (token : List String → String → Option String)
    (documented : IsDocumented library (options clang) token) where
  -- How a constructor returned: the options were parsed and written.
  pub record Written (raw c : Configuration) (args : List String) : Type 0 where
    pub vm : library.VariablesMap
    pub writes : List (Member × Value)
    pub parsed : library.parse_and_store (options clang) style args ≡ returned vm
    pub notified : library.notify vm ≡ returned writes
    pub result : write_all (record raw { help = false }) writes ≡ c
    pub help : library.contains vm "help" ≡ false

  pub configure-eq-returned :
      (raw c : Configuration) (args : List String) (h : History Address)
      → (configure env library clang raw args h).0 ≡ returned c
      → Written raw c args
  unfolding configure
  configure-eq-returned raw c args h e =
      let (vm, h₁, e₁, f₁) =
        continue-eq-returned (lift (library.parse_and_store (options clang) style args) h) _ c e in
      elim (Bool-cases (library.contains vm "help")) [
        | inl help ↦ absurd (exited-ne 0 c (rw help at f₁))
        | inr plain ↦
            let (writes, h₂, e₂, f₂) =
              continue-eq-returned (lift (library.notify vm) h₁) _ c (rw plain at f₁) in
            record {
              vm = vm;
              writes = writes;
              parsed = ap (λ (r : Outcome library.VariablesMap × History Address). r.0) e₁;
              notified = ap (λ (r : Outcome (List (Member × Value)) × History Address). r.0) e₂;
              result = returned-inj _ _ f₂;
              help = plain;
            }
      ]

  pub typed :
      {raw c : Configuration} {args : List String} (w : Written raw c args)
      → All (λ w. HasKind (member_kind w.0) w.1) w.writes
  typed {args = args} w =
      All-HasKind clang w.writes (documented.typed style args w.vm w.writes w.parsed w.notified)

  complete :
      {raw c : Configuration} {args : List String} (w : Written raw c args) (m : Member)
      → is_bound clang m ≡ true
      → IsWritten m w.writes
  complete {args = args} w m bound =
      documented.complete style args w.vm w.writes m w.parsed w.notified (options-set clang m bound)

  -- A value of the member in the configuration has the member's type.
  has_kind :
      (raw c : Configuration) (args : List String) (h : History Address) (m : Member)
      → is_bound clang m ≡ true
      → (configure env library clang raw args h).0 ≡ returned c
      → HasKind (member_kind m) (value_of c m)
  has_kind raw c args h m set e =
      let w = configure-eq-returned raw c args h e in
      subst (λ (c : Configuration). HasKind (member_kind m) (value_of c m)) w.result
        (write_all_member (HasKind (member_kind m)) m _ w.writes (typed w) (each w.writes (typed w))
          (inr (complete w m set)))
    where
      each :
          (ws : List (Member × Value))
          → All (λ w. HasKind (member_kind w.0) w.1) ws
          → All (λ w. (w.0 ≢ m) ⊎ HasKind (member_kind m) w.1) ws
      each [] a = tt
      each ((m', v) ∷ ws) a = (own (Member-discrete m' m), each ws a.1)
        where
          own : Dec (m' ≡ m) → (m' ≢ m) ⊎ HasKind (member_kind m) v
          own (yes e) = inr (subst (λ (x : Member). HasKind (member_kind x) v) e a.0)
          own (no ne) = inl ne

  -- With Boost.Program_options as documented: the ports and the number of hops of a configuration
  -- that the constructor returns fit 16 and 8 bits.
  pub configure_bounds :
      (raw c : Configuration) (args : List String) (h : History Address)
      → (configure env library clang raw args h).0 ≡ returned c
      → (c.bind_port < 2 ^ 16) × (c.port < 2 ^ 16) × (c.ttl < 2 ^ 8)
  configure_bounds raw c args h e = (
    has_kind raw c args h bind_port refl e,
    has_kind raw c args h port refl e,
    has_kind raw c args h ttl refl e,
  )

  -- With Boost.Program_options as documented: given a text `t` for `--ttl` on the command line, a
  -- constructor that returns leaves in `ttl` the code of the only character of `t`: `--ttl 5`
  -- sets 53, and a text of two digits, such as the documented 64, is never accepted.
  pub configure_ttl :
      (raw c : Configuration) (args : List String) (h : History Address) (t : String)
      → token args "ttl" ≡ some t
      → (configure env library clang raw args h).0 ≡ returned c
      → codes t ≡ c.ttl ∷ []
  configure_ttl raw c args h t given e =
      let w = configure-eq-returned raw c args h e in
      subst (λ (c : Configuration). IsCharacter t (value_of c ttl)) w.result
        (write_all_member (IsCharacter t) ttl _ w.writes (typed w)
          (documented.characters style args w.vm w.writes ttl "ttl" t w.parsed w.notified
            (ttl_kind clang) (ttl_name clang) given)
          (inr (complete w ttl refl)))

-- A constructor that returned wrote everything in one go and set the threshold of the log last.
module _ {Address : Type 0} (env : Env Address) (library : ProgramOptions) (clang : Bool) where
  pub configure_lem :
      (raw : Configuration) (args : List String) (h : History Address) (vm : library.VariablesMap)
      (writes : List (Member × Value))
      → library.parse_and_store (options clang) style args ≡ returned vm
      → library.contains vm "help" ≡ false
      → library.notify vm ≡ returned writes
      → let c = write_all (record raw { help = false }) writes in
        configure env library clang raw args h ≡ (
          returned c,
          (set_filter (threshold clang c), env.answer h (set_filter (threshold clang c))) ∷ h,
        )
  unfolding configure
  configure_lem raw args h vm writes parsed plain notified = rw (parsed, plain, notified)
