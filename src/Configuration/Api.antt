-- ===== src/Configuration/Api.antt =====
-- Boost.Program_options as an interface.
-- Code: src/configuration.cpp.
use Prim.Native.Char.{code}
use mping_sender_mirror.Prelude.{
  if◌then◌else◌, true, false, ◌⊎◌, ◌≢◌, All, ℕ, ◌^◌, ◌<◌, ◌≡◌, Bool, String, Option, none, some,
  List, [], ◌∷◌,
}
use mping_sender_mirror.Prelude.Outcome.{Outcome, returned}
use mping_sender_mirror.Runtime.{Severity}

-- The type argument of value<T>.
pub data Kind : Type 0 where
  severity_kind text_kind u16_kind u8_kind : Kind

pub data Value : Type 0 where
  severity : Severity → Value
  text : String → Value
  u16 : ℕ → Value
  u8 : ℕ → Value

pub data Requirement : Type 0 where
  required optional : Requirement
  default_value : Value → Requirement

-- The member of Configuration that an option's pointer names.
pub data Member : Type 0 where
  log_level bind_address bind_port address port ttl interface_name : Member

pub record OptionSpec : Type 0 where
  pub name : String
  pub member : Option Member
  pub kind : Option Kind
  pub requirement : Requirement

-- boost::program_options::command_line_style
pub data Style : Type 0 where
  allow_long allow_sticky long_allow_next : Style

-- `parse_and_store` is command_line_parser(args).options(…).allow_unregistered().style(…).run()
-- and `store`; `notify` gives the writes through the pointers of the options, in order.
pub record ProgramOptions : Type 1 where
  pub VariablesMap : Type 0
  pub parse_and_store : List OptionSpec → List Style → List String → Outcome VariablesMap
  pub contains : VariablesMap → String → Bool
  pub notify : VariablesMap → Outcome (List (Member × Value))

abbrev pub member_eq : Member → Member → Bool
member_eq log_level log_level = true
member_eq bind_address bind_address = true
member_eq bind_port bind_port = true
member_eq address address = true
member_eq port port = true
member_eq ttl ttl = true
member_eq interface_name interface_name = true
member_eq _ _ = false

abbrev pub is_member : Member → Option Member → Bool
is_member m none = false
is_member m (some m') = member_eq m m'

-- The type and the name with which a member is bound, and whether an option must leave a value in
-- it.
abbrev pub kind_of : List OptionSpec → Member → Option Kind
kind_of [] m = none
kind_of (o ∷ os) m = if is_member m o.member then o.kind else kind_of os m

abbrev pub name_of : List OptionSpec → Member → Option String
name_of [] m = none
name_of (o ∷ os) m = if is_member m o.member then some o.name else name_of os m

abbrev pub always_set : Requirement → Bool
always_set required = true
always_set optional = false
always_set (default_value v) = true

abbrev pub default_in : Requirement → Option Value
default_in required = none
default_in optional = none
default_in (default_value v) = some v

abbrev pub default_of : List OptionSpec → Member → Option Value
default_of [] m = none
default_of (o ∷ os) m = if is_member m o.member then default_in o.requirement else default_of os m

abbrev pub is_set : List OptionSpec → Member → Bool
is_set [] m = false
is_set (o ∷ os) m = if is_member m o.member then always_set o.requirement else is_set os m

-- A value of the type that a kind stands for.
abbrev pub HasKind : Option Kind → Value → Type 0
HasKind (some severity_kind) (severity v) = Unit {0}
HasKind (some text_kind) (text v) = Unit {0}
HasKind (some u16_kind) (u16 n) = n < 2 ^ 16
HasKind (some u8_kind) (u8 n) = n < 2 ^ 8
HasKind _ _ = ⊥

-- The type of a member of Configuration.
abbrev pub member_kind : Member → Option Kind
member_kind log_level = some severity_kind
member_kind bind_address = some text_kind
member_kind bind_port = some u16_kind
member_kind address = some text_kind
member_kind port = some u16_kind
member_kind ttl = some u8_kind
member_kind interface_name = some text_kind

-- A write to the member.
abbrev pub IsWritten : Member → List (Member × Value) → Type 0
IsWritten m [] = ⊥
IsWritten m (w ∷ ws) = (w.0 ≡ m) ⊎ IsWritten m ws

-- The code points of a text: its bytes, if it is ASCII.
abbrev pub codes : String → List ℕ
codes String.[] = []
codes (String.◌∷◌ c s) = code c ∷ codes s

-- A value that the text on the command line gives for a character type: std::uint8_t is one, and
-- boost::lexical_cast reads a text of one character as that character.
abbrev pub IsCharacter : String → Value → Type 0
IsCharacter t (u8 n) = codes t ≡ n ∷ []
IsCharacter t _ = ⊥

-- What the documentation promises of the options `specs`, where `token args name` is the text that
-- the command line gives for an option: `notify` writes values of the types of the options, writes
-- each member of a required option and of one with a default value, converts a given text by
-- lexical_cast, and writes the default value where no text is given.
pub record IsDocumented (library : ProgramOptions) (specs : List OptionSpec)
    (token : List String → String → Option String) : Type 0 where
  pub typed :
      (style : List Style) (args : List String) (vm : library.VariablesMap)
      (writes : List (Member × Value))
      → library.parse_and_store specs style args ≡ returned vm
      → library.notify vm ≡ returned writes
      → All (λ w. HasKind (kind_of specs w.0) w.1) writes
  pub complete :
      (style : List Style) (args : List String) (vm : library.VariablesMap)
      (writes : List (Member × Value)) (m : Member)
      → library.parse_and_store specs style args ≡ returned vm
      → library.notify vm ≡ returned writes
      → is_set specs m ≡ true
      → IsWritten m writes
  pub characters :
      (style : List Style) (args : List String) (vm : library.VariablesMap)
      (writes : List (Member × Value)) (m : Member) (name t : String)
      → library.parse_and_store specs style args ≡ returned vm
      → library.notify vm ≡ returned writes
      → kind_of specs m ≡ some u8_kind
      → name_of specs m ≡ some name
      → token args name ≡ some t
      → All (λ w. (w.0 ≢ m) ⊎ IsCharacter t w.1) writes
  pub defaults :
      (style : List Style) (args : List String) (vm : library.VariablesMap)
      (writes : List (Member × Value)) (m : Member) (name : String) (v : Value)
      → library.parse_and_store specs style args ≡ returned vm
      → library.notify vm ≡ returned writes
      → name_of specs m ≡ some name
      → default_of specs m ≡ some v
      → token args name ≡ none
      → All (λ w. (w.0 ≢ m) ⊎ (w.1 ≡ v)) writes
