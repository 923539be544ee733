-- ===== src/App.antt =====
-- app.rs and config.rs: the settings are handed to the router, proxy by proxy. The file and its parser
-- are parameters: the settings are what the parser gives.
pub mod Added
pub mod Configured
pub mod Run
use proxifyre_rs.Prelude.{Option, none, some, List, [], ◌∷◌, Result, ok, err, Text, ℕ}
use proxifyre_rs.Proxy.Dialer.{Socks5Dialer}
use proxifyre_rs.Proxy.Endpoint.{Names, EndpointError}
use proxifyre_rs.Proxy.Endpoint
use proxifyre_rs.Router.Lifecycle.{
  Driver, Host, Outcome, add_socks5_proxy, associate_process_name_to_proxy, start,
}
use proxifyre_rs.Proxy.Listener.{Sockets}

pub record ProxySettings : Type 0 where
  pub app_names : List Text
  pub endpoint : Text

abbrev pub ServiceSettings : Type 0
ServiceSettings = List ProxySettings

abbrev pub to_option : Result EndpointError Socks5Dialer → Option Socks5Dialer
to_option (ok dialer) = some dialer
to_option (err e) = none

-- The inner loop, over the names of one proxy.
unfoldable pub associate_all : ℕ → List Text → Host → Outcome (Unit {0})
associate_all proxy_id [] h = (h, ok tt)
associate_all proxy_id (app ∷ apps) h =
    let (h', associated) = associate_process_name_to_proxy app proxy_id h in
    elim associated [ err e ↦ (h', err e) | ok _ ↦ associate_all proxy_id apps h' ]

-- The outer loop, up to the first error.
unfoldable pub configure : Driver → Names → ServiceSettings → Host → Outcome (Unit {0})
configure d n [] h = (h, ok tt)
configure d n (proxy ∷ proxies) h =
    let (h', added) = add_socks5_proxy d (to_option (Endpoint.new n proxy.endpoint)) h in
    elim added [
      | err e ↦ (h', err e)
      | ok proxy_id ↦
          let (h'', associated) = associate_all proxy_id proxy.app_names h' in
          elim associated [ err e ↦ (h'', err e) | ok _ ↦ configure d n proxies h'' ]
    ]

-- The settings, and then the start of the router.
unfoldable pub start_service :
    {E : Type 0}
    → (ℕ → Sockets E)
    → Driver
    → Option (ℕ × ℕ)
    → Names
    → ServiceSettings
    → Host
    → Outcome (Unit {0})
start_service os d notified n settings h =
    let (h', configured) = configure d n settings h in
    elim configured [ err e ↦ (h', err e) | ok _ ↦ start os d notified h' ]
