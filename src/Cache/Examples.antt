-- ===== src/Cache/Examples.antt =====
-- Tests and examples of the cache.
use noc_iq_be.Prelude.{ℕ, ◌≡◌, refl, none, some}
use noc_iq_be.Prelude.Dict.{lookup, insert}
use noc_iq_be.Cache.{TtlCache, empty, set, get}

abbrev filled : TtlCache ℕ
filled = set "sla:b" 8 100 (set "sla:a" 7 95 (set "wallet" 9 90 (empty 30)))

get_fresh : (get "sla:a" 101 filled).0 ≡ some 7
unfolding get set lookup insert
get_fresh = refl

get_expired : (get "sla:a" 126 filled).0 ≡ none
unfolding get set lookup insert
get_expired = refl
