-- ===== src/Errors.antt =====
-- internal/ocppclient/errors.go, `classify` of internal/ocppclient/operations.go and
-- internal/cli/exit_codes.go. An error is what the code asks of it: the sentinels that `errors.Is`
-- finds in its chain, whether `errors.As` finds an `*ocpp.Error` or a `net.Error`, and its text.
pub mod Laws
use Prim.Native.String.{◌++◌}
use ocpp_cli.Prelude.{
  String, Bool, true, false, ◌||◌, Option, none, some, List, [], ◌∷◌, any, if◌then◌else◌,
}
use ocpp_cli.Text.{contains}

-- `deadline` is `context.DeadlineExceeded`, `help` is `flag.ErrHelp` and `output` is
-- `output.ErrOutput`; `config` is `config.ErrConfig`; the others are of errors.go.
pub data Sentinel : Type 0 where
  config validation connection protocol auth_security rejected timeout output deadline help :
      Sentinel

abbrev pub same : Sentinel → Sentinel → Bool
same Sentinel.config Sentinel.config = true
same Sentinel.validation Sentinel.validation = true
same Sentinel.connection Sentinel.connection = true
same Sentinel.protocol Sentinel.protocol = true
same Sentinel.auth_security Sentinel.auth_security = true
same Sentinel.rejected Sentinel.rejected = true
same Sentinel.timeout Sentinel.timeout = true
same Sentinel.output Sentinel.output = true
same Sentinel.deadline Sentinel.deadline = true
same Sentinel.help Sentinel.help = true
same _ _ = false

pub record Error : Type 0 where
  pub wraps : List Sentinel
  pub is_ocpp : Bool
  pub is_net : Bool
  pub text : String

-- A result that comes with an error, of which the callers read one.
pub data Outcome (A : Type 0) : Type 0 where
  got : A → Outcome A
  lost : Error → Outcome A

-- `if err != nil { return err }`
infixl 5 ◌>>=◌ ◌>>◌
abbrev pub ◌>>=◌ : {A B : Type 0} → Outcome A → (A → Outcome B) → Outcome B
got a >>= f = f a
lost e >>= f = lost e

abbrev pub ◌>>◌ : {A B : Type 0} → Outcome A → Outcome B → Outcome B
m >> k = m >>= λ _. k

abbrev pub refuse_when : Bool → Error → Outcome (Unit {0})
refuse_when refused e = if refused then lost e else got tt

-- `errors.Is`
abbrev pub is : Error → Sentinel → Bool
is e target = any (same target) e.wraps

-- The texts of the sentinels; `output_text` is that of the shared output library.
unfoldable pub text_of : String → Sentinel → String
text_of output_text Sentinel.config = "configuration error"
text_of output_text Sentinel.validation = "ocpp validation error"
text_of output_text Sentinel.connection = "ocpp connection error"
text_of output_text Sentinel.protocol = "ocpp protocol error"
text_of output_text Sentinel.auth_security = "ocpp authentication or security error"
text_of output_text Sentinel.rejected = "ocpp request rejected"
text_of output_text Sentinel.timeout = "ocpp operation timeout"
text_of output_text Sentinel.output = output_text
text_of output_text Sentinel.deadline = "context deadline exceeded"
text_of output_text Sentinel.help = "flag: help requested"

-- `fmt.Errorf("%w: ...", sentinel, ...)`: the chain keeps the sentinel only, and what followed `%v`
-- stays as text. No sentinel that is wrapped this way is an `*ocpp.Error` or a `net.Error`.
unfoldable pub wrap : String → Sentinel → String → Error
unfolding text_of
wrap output_text sentinel detail = record {
  wraps = sentinel ∷ [];
  is_ocpp = false;
  is_net = false;
  text = text_of output_text sentinel ++ ": " ++ detail;
}

-- `fmt.Errorf` without `%w`
unfoldable pub plain : String → Error
plain text = record { wraps = []; is_ocpp = false; is_net = false; text = text }

-- `errors.Is(err, context.DeadlineExceeded) || errors.Is(err, ErrTimeout) || ...`
unfoldable pub is_timeout : (String → String) → Error → Bool
is_timeout lower e =
    is e Sentinel.deadline || (is e Sentinel.timeout || contains (lower e.text) "timeout")

abbrev pub security_words : List String
security_words = "401" ∷ "403" ∷ "unauthorized" ∷ "forbidden" ∷ "certificate" ∷ "x509" ∷ "tls" ∷ []

unfoldable pub is_security : (String → String) → Error → Bool
is_security lower e = any (contains (lower e.text)) security_words

-- The sentinel that `classify` wraps; `lower` is `strings.ToLower`.
unfoldable pub kind_of : (String → String) → Error → Sentinel → Sentinel
unfolding is_timeout is_security
kind_of lower e fallback =
    if is_timeout lower e
    then Sentinel.timeout
    else if e.is_ocpp
    then Sentinel.protocol
    else if e.is_net
    then Sentinel.connection
    else if is_security lower e
    then Sentinel.auth_security
    else fallback

unfoldable pub classify : (String → String) → String → Option Error → Sentinel → Option Error
unfolding kind_of wrap
classify lower output_text none fallback = none
classify lower output_text (some e) fallback =
    some (wrap output_text (kind_of lower e fallback) e.text)

-- The exit codes 0 to 9 of the README, in its order.
pub data ExitCode : Type 0 where
  success general_error config_error connection protocol_request auth_security resource_missing
        rejected timeout output_error :
      ExitCode

abbrev pub flag_phrases : List String
flag_phrases =
    "flag provided but not defined" ∷ "flag needs an argument" ∷ "invalid value" ∷ "is required"
    ∷ []

unfoldable pub is_flag_parse_error : Error → Bool
is_flag_parse_error e = any (contains e.text) flag_phrases

-- The `switch` on an error that is not nil.
unfoldable pub code_of : Error → ExitCode
unfolding is_flag_parse_error
code_of e =
    if is e Sentinel.help
    then ExitCode.success
    else if is_flag_parse_error e || (is e Sentinel.config || is e Sentinel.validation)
    then ExitCode.config_error
    else if is e Sentinel.deadline || is e Sentinel.timeout
    then ExitCode.timeout
    else if is e Sentinel.output
    then ExitCode.output_error
    else if is e Sentinel.auth_security
    then ExitCode.auth_security
    else if is e Sentinel.rejected
    then ExitCode.rejected
    else if is e Sentinel.protocol
    then ExitCode.protocol_request
    else if is e Sentinel.connection
    then ExitCode.connection
    else ExitCode.general_error

unfoldable pub map_exit_code : Option Error → ExitCode
unfolding code_of
map_exit_code none = ExitCode.success
map_exit_code (some e) = code_of e
