-- ===== src/Opener/Ports.antt =====
-- The ports of crates/forward/src/callback.rs, bridge/port_policy.rs, bridge/ports.rs and localhost.rs:
-- which are the services' own, which the bridge may dial, and which a URL names.
use forward.Prelude.{
  ℕ, ◌-◌, Bool, false, not, ◌&&◌, ◌||◌, Option, none, some, List, [], ◌∷◌, ◌++◌, ltb, ◌==◌,
  if◌then◌else◌, Text, text_eq, codes, any, retain,
}
use forward.Opener.Url.{Url}

-- The configured ports.
pub record ServiceConfig : Type 0 where
  pub bridge_port : ℕ
  pub relay_port : ℕ
  pub pcsc_port : ℕ
  pub grant_port : ℕ
  pub pulse_port : ℕ

abbrev pub channel_port : ℕ
channel_port = 12800

abbrev pub files_port : ℕ
files_port = 12802

abbrev pub contains : ℕ → List ℕ → Bool
contains port = any (λ p. p == port)

unfoldable pub service_ports : ServiceConfig → List ℕ
service_ports cfg =
    channel_port ∷ files_port ∷ cfg.bridge_port ∷ cfg.relay_port ∷ cfg.pcsc_port ∷ cfg.grant_port
    ∷ cfg.pulse_port ∷ []

unfoldable pub is_dynamic_port : ServiceConfig → ℕ → Bool
is_dynamic_port cfg port = not (port == 0) && not (contains port (service_ports cfg))

abbrev pub lowest_callback_port : ℕ
lowest_callback_port = 1024

abbrev pub lethal_development_ports : List ℕ
lethal_development_ports = 2345 ∷ 2375 ∷ 2376 ∷ 3306 ∷ 5432 ∷ 5678 ∷ 6379 ∷ 8001 ∷ 9229 ∷ []

unfoldable pub globally_denied : ServiceConfig → ℕ → Bool
globally_denied cfg port =
    port == 0
    || ltb port lowest_callback_port
    || contains port (service_ports cfg)
    || contains port lethal_development_ports

unfoldable pub can_arm : ServiceConfig → ℕ → Bool
can_arm cfg port = not (globally_denied cfg port)

unfoldable pub denied_port : ServiceConfig → ℕ → ℕ → Bool
denied_port cfg listener_port port = globally_denied cfg port || port == listener_port

abbrev pub is_loopback_host : Option Text → Bool
is_loopback_host none = false
is_loopback_host (some host) =
    text_eq host (codes "localhost")
    || text_eq host (codes "127.0.0.1")
    || text_eq host (codes "[::1]")

unfoldable pub loopback_port : Url → Option ℕ
loopback_port url = if is_loopback_host url.host_str then url.port else none

abbrev pub push_new : Option ℕ → List ℕ → List ℕ
push_new none ports = ports
push_new (some port) ports = if contains port ports then ports else ports ++ port ∷ []

abbrev pub parsed_port : Option Url → Option ℕ
parsed_port none = none
parsed_port (some url) = loopback_port url

-- The loop over the pairs of the query, after the ports found before; `parse` is `Url::parse`.
unfoldable pub query_ports : (Text → Option Url) → List (Text × Text) → List ℕ → List ℕ
query_ports parse [] ports = ports
query_ports parse (pair ∷ pairs) ports = query_ports parse pairs (
    if text_eq pair.0 (codes "redirect_uri")
    then push_new (parsed_port (parse pair.1)) ports
    else ports)

abbrev pub first_port : Option ℕ → List ℕ
first_port none = []
first_port (some port) = port ∷ []

unfoldable pub forward_ports : (Text → Option Url) → Url → List ℕ
forward_ports parse url = query_ports parse url.query_pairs (first_port (loopback_port url))

abbrev pub max_dynamic_forwards : ℕ
max_dynamic_forwards = 4

-- `truncate`
abbrev pub truncate : ℕ → List ℕ → List ℕ
truncate n [] = []
truncate n (p ∷ ps) = if n == 0 then [] else p ∷ truncate (n - 1) ps

unfoldable pub callback_ports : ServiceConfig → (Text → Option Url) → Url → List ℕ
callback_ports cfg parse url =
    truncate max_dynamic_forwards (retain (is_dynamic_port cfg) (forward_ports parse url))
