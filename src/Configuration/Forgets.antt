-- ===== src/Configuration/Forgets.antt =====
-- What the constructor does with the object before it.
-- Code: src/configuration.cpp.
use mathlib.Core.Path.{fun_ext}
use mping_sender_mirror.Prelude.{
  if◌then◌else◌, ◌≡◌, refl, sym, ap, ◌∙◌, inr, Bool, true, false, ℕ, String, List, [], ◌∷◌, All,
  arith, Option,
}
use mping_sender_mirror.Prelude.Outcome.{Outcome, returned, thrown, exited}
use mping_sender_mirror.Runtime.{Env, History, set_filter, print_usage}
use mping_sender_mirror.Runtime.Monad.{exit, Action, ◌>>=◌, continue, perform, pure, lift}
use mping_sender_mirror.Runtime.{Severity, info, severity_number}
use mping_sender_mirror.Configuration.Api.{
  Value, severity, text, u16, u8, Member, log_level, bind_address, bind_port, address, port, ttl,
  interface_name, HasKind, IsWritten, member_kind, ProgramOptions, IsDocumented,
}
use mping_sender_mirror.Configuration.{
  Configuration, options, style, write, write_all, configure, threshold,
}
use mping_sender_mirror.Configuration.Specs.{is_bound, options-set, All-HasKind}
use mping_sender_mirror.Configuration.Writes.{value_of, write_all_forgets}

abbrev severity_of : Value → Severity
severity_of (severity v) = v
severity_of _ = info

abbrev text_of : Value → String
text_of (text v) = v
text_of _ = ""

abbrev number_of : Value → ℕ
number_of (u16 n) = n
number_of (u8 n) = n
number_of _ = 0

abbrev rebuild : Bool → (Member → Value) → Configuration
rebuild b v = record {
  help = b;
  log_level = severity_of (v log_level);
  bind_address = text_of (v bind_address);
  bind_port = number_of (v bind_port);
  address = text_of (v address);
  port = number_of (v port);
  ttl = number_of (v ttl);
  interface_name = text_of (v interface_name);
}

write-help : (c : Configuration) (m : Member) (v : Value) → (write c m v).help ≡ c.help
unfolding write
write-help c m v = ground arith

write_all-help : (c : Configuration) (ws : List (Member × Value)) → (write_all c ws).help ≡ c.help
unfolding write_all
write_all-help c [] = refl
write_all-help c ((m, v) ∷ ws) = write_all-help (write c m v) ws ∙ write-help c m v

-- What the two compilers set apart: with clang the log level is never written.
abbrev pub visible : Bool → Configuration → Configuration
visible true c = record c { log_level = info }
visible false c = c

abbrev pub visible_outcome : Bool → Outcome Configuration → Outcome Configuration
visible_outcome clang (returned c) = returned (visible clang c)
visible_outcome clang (thrown x) = thrown x
visible_outcome clang (exited n) = exited n

threshold-visible :
    (clang : Bool) (c c' : Configuration)
    → visible clang c ≡ visible clang c'
    → threshold clang c ≡ threshold clang c'
threshold-visible true c c' e = refl
threshold-visible false c c' e = ap (λ (c : Configuration). severity_number c.log_level) e

value_of-visible :
    (clang : Bool) (c c' : Configuration)
    → ((m : Member) → is_bound clang m ≡ true → value_of c m ≡ value_of c' m)
    → (m : Member) → value_of (visible clang c) m ≡ value_of (visible clang c') m
value_of-visible false c c' values m = values m (all_bound m)
  where
    all_bound : (m : Member) → is_bound false m ≡ true
    all_bound m = ground arith
value_of-visible true c c' values log_level = refl
value_of-visible true c c' values bind_address = values bind_address refl
value_of-visible true c c' values bind_port = values bind_port refl
value_of-visible true c c' values address = values address refl
value_of-visible true c c' values port = values port refl
value_of-visible true c c' values ttl = values ttl refl
value_of-visible true c c' values interface_name = values interface_name refl

visible-help : (clang : Bool) (c : Configuration) → (visible clang c).help ≡ c.help
visible-help true c = refl
visible-help false c = refl

module _ {Address : Type 0} (env : Env Address) (library : ProgramOptions) (clang : Bool)
    (token : List String → String → Option String)
    (documented : IsDocumented library (options clang) token) where
  abbrev finish : Configuration → List (Member × Value) → Action Address Configuration
  finish raw writes =
      let c = write_all (record raw { help = false }) writes in
      do _ ← perform env (set_filter (threshold clang c)); pure c

  configuration_eq :
      (c c' : Configuration)
      → c.help ≡ c'.help
      → ((m : Member) → value_of c m ≡ value_of c' m)
      → c ≡ c'
  configuration_eq c c' e values =
      ap (λ (b : Bool). rebuild b (value_of c)) e ∙ ap (rebuild c'.help) (fun_ext values)

  writes_forget :
      (raw raw' : Configuration) (ws : List (Member × Value))
      → All (λ w. HasKind (member_kind w.0) w.1) ws
      → ((m : Member) → is_bound clang m ≡ true → IsWritten m ws)
      → visible clang (write_all (record raw { help = false }) ws)
        ≡ visible clang (write_all (record raw' { help = false }) ws)
  writes_forget raw raw' ws typed complete =
      configuration_eq _ _
        (visible-help clang _
          ∙ write_all-help _ ws
          ∙ sym (write_all-help _ ws)
          ∙ sym (visible-help clang _))
        (value_of-visible clang _ _
          (λ m bound. write_all_forgets m _ _ ws typed (inr (complete m bound))))

  -- Both runs end alike, but for what is not visible.
  abbrev Alike :
      Outcome Configuration × History Address → Outcome Configuration × History Address → Type 0
  Alike r r' = (visible_outcome clang r.0 ≡ visible_outcome clang r'.0) × (r.1 ≡ r'.1)

  notified_forgets :
      (raw raw' : Configuration) (args : List String) (vm : library.VariablesMap)
      (notified : Outcome (List (Member × Value))) (h : History Address)
      → library.parse_and_store (options clang) style args ≡ returned vm
      → library.notify vm ≡ notified
      → Alike (continue (notified, h) (finish raw)) (continue (notified, h) (finish raw'))
  notified_forgets raw raw' args vm (returned writes) h parsed notified =
      let same =
        writes_forget raw raw' writes
          (All-HasKind clang writes (documented.typed style args vm writes parsed notified))
          (λ m bound.
            documented.complete style args vm writes m parsed notified
              (options-set clang m bound)) in
      (
        ap (λ (c : Configuration). returned c) same,
        ap (λ (n : ℕ). (set_filter n, env.answer h (set_filter n)) ∷ h)
            (threshold-visible clang _ _ same),
      )
  notified_forgets raw raw' args vm (thrown x) h parsed notified = (refl, refl)
  notified_forgets raw raw' args vm (exited n) h parsed notified = (refl, refl)

  abbrev body : Configuration → library.VariablesMap → Bool → Action Address Configuration
  body raw vm given =
      if given
      then (do _ ← perform env print_usage; exit 0)
      else (do writes ← lift (library.notify vm); finish raw writes)

  body_forgets :
      (raw raw' : Configuration) (args : List String) (vm : library.VariablesMap) (given : Bool)
      (h : History Address)
      → library.parse_and_store (options clang) style args ≡ returned vm
      → Alike (body raw vm given h) (body raw' vm given h)
  body_forgets raw raw' args vm true h parsed = (refl, refl)
  body_forgets raw raw' args vm false h parsed =
      notified_forgets raw raw' args vm (library.notify vm) h parsed refl

  parsed_forgets :
      (raw raw' : Configuration) (args : List String) (parsed : Outcome library.VariablesMap)
      (h : History Address)
      → library.parse_and_store (options clang) style args ≡ parsed
      → Alike
          (continue (parsed, h) (λ vm. body raw vm (library.contains vm "help")))
          (continue (parsed, h) (λ vm. body raw' vm (library.contains vm "help")))
  parsed_forgets raw raw' args (returned vm) h e =
      body_forgets raw raw' args vm (library.contains vm "help") h e
  parsed_forgets raw raw' args (thrown x) h e = (refl, refl)
  parsed_forgets raw raw' args (exited n) h e = (refl, refl)

  -- With Boost.Program_options as documented, the constructor does not read what stood in the
  -- object before it: from any two values of the uninitialised members it ends in the same way,
  -- after the same calls, and with the same configuration where it returns, but for the log level
  -- if `__clang__` is defined.
  pub configure_forgets :
      (raw raw' : Configuration) (args : List String) (h : History Address)
      → (visible_outcome clang (configure env library clang raw args h).0
          ≡ visible_outcome clang (configure env library clang raw' args h).0)
        × ((configure env library clang raw args h).1 ≡ (configure env library clang raw' args h).1)
  unfolding configure
  configure_forgets raw raw' args h =
      parsed_forgets raw raw' args (library.parse_and_store (options clang) style args) h refl
