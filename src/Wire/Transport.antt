-- ===== src/Wire/Transport.antt =====
-- noknowledge/wire/transport.py. The session of `requests` is a call that may fail; a request is
-- its method, its URL and the rest of it, of a type of its own.
use noknowledge.Base.{
  ℕ, zero, suc, max, String, Bool, true, false, ◌||◌, Option, none, some, ◌==◌, eq_String,
  if◌then◌else◌, ◌≡◌, arith, ◌⊎◌, inl, inr, Bool-cases, Option-cases,
}
use noknowledge.Base.Outcome.{Result, Action, ok, err}
use noknowledge.Wire.Errors.{Call, WireError, transport_error, other_error}

-- `urlparse(url).hostname` in lower case, empty where there is none, and `str.endswith`.
pub record Urls : Type 0 where
  pub hostname : String → String
  pub ends_with : String → String → Bool

pub record Transport : Type 0 where
  pub retries : ℕ
  pub proxy_url : Option String
  pub fail_closed : Bool

-- `retries = max(1, retries)`
unfoldable pub new_transport : ℕ → Option String → Bool → Transport
new_transport retries proxy_url fail_closed = record {
  retries = max 1 retries;
  proxy_url = proxy_url;
  fail_closed = fail_closed;
}

unfoldable pub is_local : Urls → String → Bool
is_local urls url =
    let host = urls.hostname url in
    host == "localhost"
    || host == "127.0.0.1"
    || host == "::1"
    || host == "[::1]"
    || urls.ends_with host ".local"

-- The proxy of a request, if it has one.
unfoldable pub proxies_for : Urls → Transport → String → Result WireError (Option String)
unfolding is_local
proxies_for urls t url = if is_local urls url then ok none else elim t.proxy_url [
  | some proxy ↦ if proxy == "" then refuse else ok (some proxy)
  | none ↦ refuse
]
  where
    refuse : Result WireError (Option String)
    refuse = if t.fail_closed then err transport_error else ok none

-- What the session raises: a connection error or a timeout, or something else.
pub data SessionError : Type 0 where
  connection_failed session_failed : SessionError

module _ {S R : Type 0} where
  -- The attempts that are left. The pauses between them have no effect here.
  unfoldable pub attempts : ℕ → Action S SessionError R → Call S R
  attempts zero send s = (err transport_error, s)
  attempts (suc rounds) send s =
      let (r, s') = send s in
      elim r [
        | ok response ↦ (ok response, s')
        | err connection_failed ↦ attempts rounds send s'
        | err session_failed ↦ (err other_error, s')
      ]

  -- `send` takes the proxy.
  unfoldable pub request :
      Urls → Transport → (Option String → Action S SessionError R) → String → Call S R
  unfolding proxies_for attempts
  request urls t send url s = elim (proxies_for urls t url) [
    | err e ↦ (err e, s)
    | ok proxy ↦ attempts t.retries (send proxy) s
  ]

module _ {S R : Type 0} (urls : Urls) (t : Transport)
    (send : Option String → Action S SessionError R) where
  -- In the fail-closed mode a request to a host that is not local is refused without a call of the
  -- session, or each of its attempts goes through the proxy that is configured, which is not empty.
  pub fail_closed_lem :
      (url : String) (s : S)
      → t.fail_closed ≡ true
      → is_local urls url ≡ false
      → (request urls t send url s ≡ (err transport_error, s))
        ⊎ ((proxy : String) × (t.proxy_url ≡ some proxy)
            × ((proxy == "") ≡ false)
            × (request urls t send url s ≡ attempts t.retries (send (some proxy)) s))
  unfolding request proxies_for
  fail_closed_lem url s closed remote = elim (Option-cases t.proxy_url) [
    | inl e ↦ inl (ground arith)
    | inr (proxy, e) ↦ elim (Bool-cases (proxy == "")) [
      | inl empty ↦ inl (ground arith)
      | inr given ↦ inr (proxy, e, given, ground arith)
    ]
  ]
