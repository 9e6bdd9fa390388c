-- ===== src/Wire/Discovery.antt =====
-- noknowledge/wire/discovery.py, and `normalize_relay_urls` of noknowledge/wire/backends/
-- multi_relay.py. What Python does with a URL as a text is a parameter, and so are the answers of
-- the relays.
pub mod Known
mod Tests
use noknowledge.Base.Outcome.{◌>>=?◌}
use noknowledge.Base.{
  ℕ, suc, ◌+◌, String, Bool, true, false, ◌&&◌, ◌||◌, not, Option, none, some, List, [], ◌∷◌, ◌++◌,
  ◌==◌, eq_String, eq_ℕ, if◌then◌else◌, ltb, leb, take, length,
}

-- `urlparse`: the scheme, the host if there is one, and the port: `none` is a ValueError.
pub record Parsed : Type 0 where
  pub scheme : String
  pub hostname : Option String
  pub port : Option (Option ℕ)

-- `clean` is `url.strip().rstrip("/")`, `has_scheme` the test by `startswith`, `with_https` puts
-- "https://" before. `host_text` is `host.strip("[]").lower()`, `is_local` its test by `endswith`,
-- and `internal_address` tells an address that is private, loopback, link local, reserved,
-- multicast or unspecified: `none` for a text that is no address.
pub record Urls : Type 0 where
  pub clean : String → String
  pub has_scheme : String → Bool
  pub with_https : String → String
  pub urlparse : String → Parsed
  pub lower : String → String
  pub host_text : String → String
  pub is_local : String → Bool
  pub internal_address : String → Option Bool

-- What a relay answers to a request for its list: an exception is `none`. `payload` is `none`
-- where the body is no JSON, `relays` where it has no list, and an item that is no text is `none`.
pub record RelayList : Type 0 where
  pub status : ℕ
  pub payload : Option (Option (List (Option String)))

-- The same for its health check; `state` is the "status" of the body.
pub record Health : Type 0 where
  pub status : ℕ
  pub state : Option (Option String)

unfoldable pub contains : String → List String → Bool
contains x [] = false
contains x (y ∷ ys) = x == y || contains x ys

module _ (u : Urls) where
  unfoldable pub canonical : String → String
  canonical url =
      let cleaned = u.clean url in if u.has_scheme cleaned then cleaned else u.with_https cleaned

  -- The loop, with what it has seen.
  unfoldable pub normalize_on : List String → List String → List String
  normalize_on seen [] = seen
  normalize_on seen (url ∷ urls) =
      if u.clean url == ""
      then normalize_on seen urls
      else if contains (canonical url) seen
      then normalize_on seen urls
      else normalize_on (seen ++ canonical url ∷ []) urls

  unfoldable pub normalize_relay_urls : List String → List String
  normalize_relay_urls urls = normalize_on [] urls

  unfoldable pub host_is_internal : String → Bool
  host_is_internal host =
      let text = u.host_text host in
      if text == "" || text == "localhost" || u.is_local text
      then true
      else elim (u.internal_address text) [ none ↦ false | some internal ↦ internal ]

  unfoldable pub port_is_valid : Option (Option ℕ) → Bool
  port_is_valid none = false
  port_is_valid (some none) = true
  port_is_valid (some (some port)) = leb 1 port && leb port 65535

  -- A host that is empty is as one that is missing.
  unfoldable pub is_discoverable : Bool → String → Bool
  is_discoverable allow_private url =
      let parsed = u.urlparse url in
      (parsed.scheme == "http" || parsed.scheme == "https") && elim parsed.hostname [
        | none ↦ false
        | some host ↦
            not (host == "")
            && port_is_valid parsed.port
            && (not (host_is_internal host) || allow_private)
      ]

  -- `none` is the ValueError of a port that is no number below 65536.
  unfoldable pub host_key : String → Option (String × String × ℕ)
  host_key url =
      let parsed = u.urlparse url in
      let default : ℕ = if parsed.scheme == "https" then 443 else 80 in
      let host : String = u.lower (elim parsed.hostname [ none ↦ "" | some host ↦ host ]) in
      elim parsed.port [
        | none ↦ none
        | some none ↦ some (parsed.scheme, host, default)
        | some (some port) ↦ some (parsed.scheme, host, if port == 0 then default else port)
      ]

  abbrev pub same_key : String × String × ℕ → String × String × ℕ → Bool
  same_key a b = a.0 == b.0 && a.1 == b.1 && a.2 == b.2

  unfoldable pub key_seen : String × String × ℕ → List (String × String × ℕ) → Bool
  key_seen key [] = false
  key_seen key (k ∷ ks) = same_key key k || key_seen key ks

  unfoldable pub texts : List (Option String) → List String
  texts [] = []
  texts (none ∷ items) = texts items
  texts (some item ∷ items) = item ∷ texts items

  unfoldable pub fetch_known_relays : Option RelayList → ℕ → List String
  fetch_known_relays none limit = []
  fetch_known_relays (some response) limit =
      if not (response.status == 200) then [] else elim response.payload [
        | none ↦ []
        | some none ↦ []
        | some (some advertised) ↦ texts (take limit advertised)
      ]

  unfoldable pub probe_relay : Option Health → Bool
  probe_relay none = false
  probe_relay (some response) =
      response.status == 200
      && elim response.state [ some (some state) ↦ state == "ok" | _ ↦ false ]

  -- The set `seen` of the known relays.
  unfoldable pub known_keys : List String → Option (List (String × String × ℕ))
  known_keys [] = some []
  known_keys (url ∷ urls) = host_key url >>=? λ key. known_keys urls >>=? λ keys. some (key ∷ keys)

  -- The candidate of one advertised URL, with its key, if it is a new one.
  unfoldable pub candidate_of :
      Bool → List (String × String × ℕ) → String → Option (String × (String × String × ℕ))
  candidate_of allow_private seen advertised = elim (normalize_relay_urls (advertised ∷ [])) [
    | [] ↦ none
    | candidate ∷ _ ↦
        if not (is_discoverable allow_private candidate) then none else elim (host_key candidate) [
          | none ↦ none
          | some key ↦ if key_seen key seen then none else some (candidate, key)
        ]
  ]

  -- One relay's list; what it seen and the candidates come back.
  unfoldable pub collect_one :
      Bool
      → ℕ
      → List String
      → List (String × String × ℕ)
      → List String
      → List (String × String × ℕ) × List String
  collect_one allow_private cap [] seen candidates = (seen, candidates)
  collect_one allow_private cap (advertised ∷ rest) seen candidates =
      elim (candidate_of allow_private seen advertised) [
        | none ↦ collect_one allow_private cap rest seen candidates
        | some (candidate, key) ↦
            let candidates' = candidates ++ candidate ∷ [] in
            if leb cap (length candidates')
            then (key ∷ seen, candidates')
            else collect_one allow_private cap rest (key ∷ seen) candidates'
      ]

  unfoldable pub collect :
      Bool
      → ℕ
      → (String → Option RelayList)
      → List String
      → List (String × String × ℕ)
      → List String
      → List String
  collect allow_private cap ask [] seen candidates = candidates
  collect allow_private cap ask (relay ∷ relays) seen candidates =
      let (seen', candidates') =
        collect_one allow_private cap (fetch_known_relays (ask relay) cap) seen candidates in
      if leb cap (length candidates')
      then candidates'
      else collect allow_private cap ask relays seen' candidates'

  -- The candidates that are taken, `alive` where they are probed.
  unfoldable pub accept : ℕ → (String → Bool) → List String → List String → List String
  accept max_relays alive [] result = result
  accept max_relays alive (candidate ∷ candidates) result =
      if leb max_relays (length result)
      then result
      else accept max_relays alive candidates
          (if alive candidate then result ++ candidate ∷ [] else result)

  -- `none` is the exception of a configured URL whose port is none.
  unfoldable pub discover_relays :
      Bool
      → (String → Option RelayList)
      → (String → Option Health)
      → ℕ
      → Bool
      → ℕ
      → List String
      → Option (List String)
  discover_relays allow_private ask check max_relays probe max_candidates current =
      let known = normalize_relay_urls current in
      known_keys known >>=? λ seen. some (
        normalize_relay_urls (
          accept max_relays (λ url. not probe || probe_relay (check url))
            (collect allow_private max_candidates ask known seen []) known))
