-- ===== src/Apis/Network/Clients.antt =====
-- The client that a request is sent with.
use plaid.Base.{
  ℕ, ◌≡◌, ◌⊎◌, refl, String, Option, none, some, [], ◌∷◌, arith, eq_iff, Option-cases, inl, inr,
}
use plaid.Base.Dict.{HashMap, lookup, IsMap}
use plaid.Apis.Network.{
  Request, Client, GeneralConfig, or_configured, create_specialized_client, specialized_clients,
  new_general, get_client,
}

abbrev specialized_for : ℕ → Option Request → Option Client
specialized_for n none = none
specialized_for n (some req) = create_specialized_client req n

lookup-specialized_clients :
    (n : ℕ) (name : String) (requests : HashMap Request)
    → IsMap requests
    → lookup name (specialized_clients n requests) ≡ specialized_for n (lookup name requests)
unfolding lookup specialized_clients
lookup-specialized_clients n name [] h = refl
lookup-specialized_clients n name ((head, req) ∷ rest) h =
    let ih = lookup-specialized_clients n name rest h.1 in
    elim (Option-cases (create_specialized_client req n)) [
      | inl plain ↦ ground (arith, plain, ih, eq_iff head name)
      | inr (client, is) ↦ ground (arith, is, ih, eq_iff head name)
    ]

-- The client as the request asks for it.
abbrev pub asked_for : GeneralConfig → Request → Client
asked_for config req = record {
  timeout = or_configured req.timeout config.api_timeout_seconds;
  root_certificate = req.root_certificate;
  tls_info = req.return_cert;
  redirects = req.enable_redirects;
}

create_specialized_client_lem :
    (config : GeneralConfig) (req : Request)
    → (create_specialized_client req config.api_timeout_seconds ≡ some (asked_for config req))
      ⊎ ((create_specialized_client req config.api_timeout_seconds ≡ none)
          × ((new_general config).default_client ≡ asked_for config req))
unfolding create_specialized_client new_general
create_specialized_client_lem config req = ground arith

-- The client of a configured request has its timeout, or else the configured one, its root
-- certificate, if any, and follows redirects or keeps the certificate of the peer exactly if the
-- request says so, whether or not a client was made for it. The names of requests are distinct.
pub get_client_lem :
    (config : GeneralConfig) (name : String) (req : Request)
    → IsMap config.web_requests
    → lookup name config.web_requests ≡ some req
    → get_client (new_general config) name ≡ asked_for config req
unfolding get_client new_general
get_client_lem config name req h e =
    let found = lookup-specialized_clients config.api_timeout_seconds name config.web_requests h in
    elim (create_specialized_client_lem config req) [
      | inl special ↦ ground (arith, found, special, e)
      | inr (plain, default) ↦ ground (arith, found, plain, default, e)
    ]
