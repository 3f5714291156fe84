-- ===== src/Examples/Names.antt =====
-- The theorems on host names and the resolver, at concrete inputs.
use fuelflux.Base.{
  ltb, ℕ, ◌+◌, ◌*◌, ◌≡◌, refl, arith, true, false, ◌==◌, List, [], ◌∷◌, none, some, Text, codes,
  All, if◌then◌else◌,
}
use fuelflux.Modem.{is_localhost}
use fuelflux.Modem.Groups.{IsGroup, join, nth_value, is_localhost-groups}
use fuelflux.Resolver.{
  Round, selected, Net, Resolver, initialized, address, resolve, ask, wait_loop, cache_ttl,
}
use fuelflux.Resolver.Cache.{resolve_all, resolve-cached}
use fuelflux.Resolver.Ends.{Ends, resolve-Ends}

abbrev a_global_address : List Text
a_global_address =
    codes "2001"
    ∷ codes "db8"
    ∷ codes "0"
    ∷ codes "0"
    ∷ codes "0"
    ∷ codes "0"
    ∷ codes "0"
    ∷ codes "1"
    ∷ []

a_global_address-groups : All IsGroup a_global_address
a_global_address-groups = (refl, (refl, (refl, (refl, (refl, (refl, (refl, (refl, tt))))))))

is_localhost-groups_example :
    is_localhost (join a_global_address) ≡ (nth_value 7 a_global_address == 1)
is_localhost-groups_example = is_localhost-groups a_global_address refl a_global_address-groups

-- The answer comes with the second round; the clock goes on by a second with each reading.
abbrev rounds : ℕ → Round
rounds n = record {
  elapsed = n;
  descriptors = 1;
  select = selected;
  callback = if n == 1 then some (address (codes "192.0.2.7")) else none;
}

abbrev net : Net
net = record {
  is_address = λ t. false;
  clock = λ n. n * 1000;
  query = λ n host interface. record { has_channel = true; at_once = none; rounds = rounds };
}

abbrev portal_host : Text
portal_host = codes "portal"

abbrev new_resolver : Resolver
new_resolver = record {
  state = initialized;
  cached_hostname = portal_host;
  backend_api_cache_entry = none;
  clock_reads = 0;
  queries = 0;
}

abbrev after_answer : Resolver
after_answer = record new_resolver {
  backend_api_cache_entry = some (record { ip = codes "192.0.2.7"; expires_at = cache_ttl });
  clock_reads = 1;
  queries = 1;
}

abbrev another_call : List (Text × Text)
another_call = (codes "ntp", codes "ppp0") ∷ []

resolve-cached_example :
    let r' = resolve_all net 9 after_answer another_call in
    let r'' = record r' { clock_reads = r'.clock_reads + 1 } in
    resolve net 9 r' portal_host [] ≡ (
      if ltb (net.clock r'.clock_reads) (net.clock 0 + cache_ttl)
      then some (r'', codes "192.0.2.7")
      else ask net 9 r'' portal_host [])
unfolding resolve ask wait_loop
resolve-cached_example =
    resolve-cached net 9 new_resolver after_answer portal_host [] (codes "192.0.2.7") another_call
      refl refl refl refl refl refl refl (refl, tt)

resolve-Ends_example : Ends (resolve net 60 new_resolver portal_host (codes "ppp0"))
resolve-Ends_example =
    resolve-Ends net 60 45 (omega arith) (λ q host interface. omega arith) new_resolver portal_host
      (codes "ppp0")
