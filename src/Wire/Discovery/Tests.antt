-- ===== src/Wire/Discovery/Tests.antt =====
-- A concrete discovery.
use noknowledge.Base.{String, true, false, Option, none, some, List, [], ◌∷◌, eq_String}
use noknowledge.Wire.Discovery.{Urls, RelayList, Health}

-- Every text is clean and has a scheme.
abbrev urls : Urls
urls = record {
  clean = λ u. u;
  has_scheme = λ u. true;
  with_https = λ u. u;
  urlparse = λ u. record { scheme = "https"; hostname = some u; port = some none };
  lower = λ u. u;
  host_text = λ u. u;
  is_local = λ u. false;
  internal_address = λ u. none;
}

abbrev ask : String → Option RelayList
ask relay = some (record {
  status = 200;
  payload = some (some (some "https://a" ∷ none ∷ some "https://b" ∷ []));
})

abbrev check : String → Option Health
check relay = some (record { status = 200; state = some (some "ok") })

abbrev configured : List String
configured = "https://a" ∷ "https://a" ∷ []

abbrev found : List String
found = "https://a" ∷ "https://b" ∷ []
