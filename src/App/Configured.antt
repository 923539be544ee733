-- ===== src/App/Configured.antt =====
-- What the router knows once the settings have been taken.
use proxifyre_rs.App.{ProxySettings, ServiceSettings, to_option, associate_all, configure}
use proxifyre_rs.HashMap.{get}
use proxifyre_rs.Prelude.{
  or_else, ℕ, suc, ◌≡◌, refl, sym, ap, subst, ◌∙◌, ite, Bool, true, false, Option, none, some, List,
  [], ◌∷◌, ◌++◌, Result, ok, err, Text, length, map, arith, if◌then◌else◌, Result-cases, inl, inr,
  length-append, append_assoc, append-nil, map-append,
}
use proxifyre_rs.Proxy.Dialer.{Socks5Dialer}
use proxifyre_rs.Proxy.Endpoint.{Names, EndpointError}
use proxifyre_rs.Proxy.Endpoint
use proxifyre_rs.Proxy.Listener.{TransparentProxy}
use proxifyre_rs.Proxy.Listener
use proxifyre_rs.Router.Lifecycle.{
  Driver, Host, text_discrete, add_socks5_proxy, associate_process_name_to_proxy,
}
use proxifyre_rs.App.Added.{add-proxies, associate-get}

-- The last proxy that lists the name, where `k` is the number of the first proxy.
unfoldable pub lists : Text → List Text → Bool
lists name [] = false
lists name (app ∷ apps) = ite (text_discrete app name) true (lists name apps)

unfoldable pub owner : Text → ℕ → ServiceSettings → Option ℕ
owner name k [] = none
owner name k (p ∷ ps) =
    or_else (owner name (suc k) ps) (if lists name p.app_names then some k else none)

associate_all-get :
    (proxy_id : ℕ) (apps : List Text) (h h' : Host) (name : Text)
    → associate_all proxy_id apps h ≡ (h', ok tt)
    → (get text_discrete name h'.router.name_to_proxy ≡ (
        if lists name apps then some proxy_id else get text_discrete name h.router.name_to_proxy))
      × (h'.router.proxies ≡ h.router.proxies)
unfolding associate_all lists
associate_all-get proxy_id [] h h' name e =
    let to : h ≡ h' = ground arith in
    (
      ap (λ x. get text_discrete name x.router.name_to_proxy) (sym to),
      ap (λ x. x.router.proxies) (sym to),
    )
associate_all-get proxy_id (app ∷ apps) h h' name e =
    let o = associate_process_name_to_proxy app proxy_id h in
    elim (Result-cases o.1) [
      | inl (x, k) ↦ absurd (ground arith)
      | inr (u, k) ↦
          let one = associate-get proxy_id app h o.0 name (ap (λ r. (o.0, r)) k) in
          let rest = associate_all-get proxy_id apps o.0 h' name (ground arith) in
          (ground (arith, one.0, rest.0), rest.1 ∙ one.1)
    ]

-- The settings have been taken without an error.
abbrev IsConfigured : Names → ServiceSettings → Host → Host → Text → Type 0
IsConfigured n ps h h' name =
    (get text_discrete name h'.router.name_to_proxy
      ≡ or_else (owner name (length h.router.proxies) ps)
          (get text_discrete name h.router.name_to_proxy))
    × (map (λ p. ok p.socks5) h'.router.proxies
        ≡ map (λ p. ok p.socks5) h.router.proxies ++ map (λ s. Endpoint.new n s.endpoint) ps)

or_else_assoc :
    (a : Option ℕ) (b : Bool) (k : ℕ) (c : Option ℕ)
    → or_else (or_else a (if b then some k else none)) c ≡ or_else a (if b then some k else c)
or_else_assoc none true k c = refl
or_else_assoc none false k c = refl
or_else_assoc (some i) b k c = refl

abbrev dialers : List TransparentProxy → List (Result EndpointError Socks5Dialer)
dialers proxies = map (λ p. ok p.socks5) proxies

abbrev parsed_all : Names → ServiceSettings → List (Result EndpointError Socks5Dialer)
parsed_all n ps = map (λ s. Endpoint.new n s.endpoint) ps

parsed_ok :
    (r : Result EndpointError Socks5Dialer) (dialer : Socks5Dialer)
    → to_option r ≡ some dialer
    → r ≡ ok dialer
parsed_ok (ok x) dialer e = ground arith
parsed_ok (err x) dialer e = absurd (ground arith)

dialers-add :
    (n : Names) (p : ProxySettings) (ps : ServiceSettings) (proxies : List TransparentProxy)
    (dialer : Socks5Dialer)
    → Endpoint.new n p.endpoint ≡ ok dialer
    → dialers (proxies ++ Listener.new 0 dialer ∷ []) ++ parsed_all n ps
      ≡ dialers proxies ++ parsed_all n (p ∷ ps)
unfolding Listener.new
dialers-add n p ps proxies dialer e =
    ap (λ x. x ++ parsed_all n ps)
      (map-append (λ p. ok p.socks5) proxies (Listener.new 0 dialer ∷ []))
    ∙ append_assoc (dialers proxies) (ok dialer ∷ []) (parsed_all n ps)
    ∙ ap (λ x. dialers proxies ++ x ∷ parsed_all n ps) (sym e)

-- One proxy of the settings, and the names that it lists.
proxy-taken :
    (d : Driver) (n : Names) (p : ProxySettings) (h h1 h2 : Host) (proxy_id : ℕ) (name : Text)
    → add_socks5_proxy d (to_option (Endpoint.new n p.endpoint)) h ≡ (h1, ok proxy_id)
    → associate_all proxy_id p.app_names h1 ≡ (h2, ok tt)
    → (get text_discrete name h2.router.name_to_proxy ≡ (
        if lists name p.app_names
        then some (length h.router.proxies)
        else get text_discrete name h.router.name_to_proxy))
      × (length h2.router.proxies ≡ suc (length h.router.proxies))
      × ((ps : ServiceSettings)
          → dialers h2.router.proxies ++ parsed_all n ps
            ≡ dialers h.router.proxies ++ parsed_all n (p ∷ ps))
proxy-taken d n p h h1 h2 proxy_id name e f =
    let (dialer, parsed, added, number) =
      add-proxies d (to_option (Endpoint.new n p.endpoint)) h h1 proxy_id e in
    let (named, kept) = associate_all-get proxy_id p.app_names h1 h2 name f in
    let grown = kept ∙ ap (λ r. r.proxies) added in
    let answer : ℕ → Option ℕ → Option ℕ =
      λ i before. if lists name p.app_names then some i else before in
    (
      named
          ∙ ap (λ i. answer i (get text_discrete name h1.router.name_to_proxy)) number
          ∙ ap (λ r. answer (length h.router.proxies) (get text_discrete name r.name_to_proxy))
              added,
      omega (arith, ap length grown, length-append h.router.proxies (Listener.new 0 dialer ∷ [])),
      λ ps.
          ap (λ x. dialers x ++ parsed_all n ps) grown
          ∙ dialers-add n p ps h.router.proxies dialer
              (parsed_ok (Endpoint.new n p.endpoint) dialer parsed),
    )

-- When the settings are taken without an error, each name stands for the last proxy of the settings
-- that lists it, or for what it stood for before, and the proxies are those that were there and then
-- one for each proxy of the settings, in order, with the dialer that the parser makes of its
-- endpoint.
pub configure-IsConfigured :
    (d : Driver) (n : Names) (ps : ServiceSettings) (h h' : Host) (name : Text)
    → configure d n ps h ≡ (h', ok tt)
    → (get text_discrete name h'.router.name_to_proxy
        ≡ or_else
            (owner name (length h.router.proxies) ps)
            (get text_discrete name h.router.name_to_proxy))
      × (map (λ p. ok p.socks5) h'.router.proxies
          ≡ map (λ p. ok p.socks5) h.router.proxies ++ map (λ s. Endpoint.new n s.endpoint) ps)
unfolding configure owner
configure-IsConfigured d n [] h h' name e =
    let to : h ≡ h' = ground arith in
    subst (λ x. IsConfigured n [] h x name) to
      (refl, sym (append-nil (map (λ p. ok p.socks5) h.router.proxies)))
configure-IsConfigured d n (p ∷ ps) h h' name e =
    let o = add_socks5_proxy d (to_option (Endpoint.new n p.endpoint)) h in
    elim (Result-cases o.1) [
      | inl (x, k) ↦ absurd (ground arith)
      | inr (proxy_id, k) ↦
          let a = associate_all proxy_id p.app_names o.0 in
          elim (Result-cases a.1) [
            | inl (x, j) ↦ absurd (ground arith)
            | inr (u, j) ↦
                let (named, size, proxies) =
                  proxy-taken d n p h o.0 a.0 proxy_id name (ap (λ r. (o.0, r)) k)
                    (ap (λ r. (a.0, r)) j) in
                let (later, rest) = configure-IsConfigured d n ps a.0 h' name (ground arith) in
                let last : ℕ → Option ℕ = λ m. owner name m ps in
                let count = length h.router.proxies in
                (
                  later
                      ∙ ap (λ m. or_else (last m) (get text_discrete name a.0.router.name_to_proxy))
                          size
                      ∙ ap (or_else (last (suc count))) named
                      ∙ sym (
                          or_else_assoc (last (suc count)) (lists name p.app_names) count
                            (get text_discrete name h.router.name_to_proxy)),
                  rest ∙ proxies ps,
                )
          ]
    ]
