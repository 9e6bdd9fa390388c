-- ===== src/Wire/Discovery/Known.antt =====
-- noknowledge/wire/discovery.py: the relays that are configured stay, and how many there are.

use noknowledge.Base.{String, true, false, ◌==◌, eq_String, eq_ℕ, ◌≡◌}
use noknowledge.Wire.Discovery.{Urls, canonical}

module _ (u : Urls) where
  -- A URL whose canonical form is stable under another cleaning, and has a scheme. Stripping spaces
  -- and then slashes is not stable for every text: "relay.example /" keeps a space at first.
  abbrev pub Settled : String → Type 0
  Settled url =
      (u.clean (canonical u url) ≡ canonical u url)
      × (u.has_scheme (canonical u url) ≡ true)
      × ((canonical u url == "") ≡ false)
