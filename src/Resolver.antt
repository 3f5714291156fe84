-- ===== src/Resolver.antt =====
-- src/cares_resolver.cpp: the start of the c-ares library, and the resolver with its cache for the
-- portal's host. What c-ares and select() do is a parameter.
pub mod Cache
pub mod Ends
use fuelflux.Base.{
  ℕ, ◌+◌, ◌*◌, zero, suc, Bool, true, false, if◌then◌else◌, ◌&&◌, not, leb, ltb, ◌==◌, List, [],
  ◌∷◌, Option, none, some, Text, is_empty, text_eq,
}

pub data InitState : Type 0 where
  uninitialized initializing initialized failed : InitState

abbrev pub is_initialized : InitState → Bool
is_initialized initialized = true
is_initialized s = false

-- What InitializeCaresLibrary makes of the state, given what ares_library_init gives; a thread that
-- waits for another one's attempt sees how that ended.
pub initialize_library : InitState → Bool → InitState × Bool
initialize_library initialized works = (initialized, true)
initialize_library s works = if works then (initialized, true) else (failed, false)

pub cleanup_library : InitState → InitState
cleanup_library initialized = uninitialized
cleanup_library s = s

-- What HostCallback is called with: a failure, no address, an address of another family or one that
-- cannot be printed, or an address as inet_ntop prints it.
pub data HostAnswer : Type 0 where
  query_failed no_addresses unprintable : HostAnswer
  address : Text → HostAnswer

-- The result that the callback leaves; `none` is a status other than ARES_SUCCESS.
abbrev pub host_callback : HostAnswer → Option Text
host_callback (address t) = some t
host_callback a = none

pub data Select : Type 0 where
  interrupted select_failed selected : Select

-- A round of the loop that waits for c-ares: the seconds since its start, the descriptors to wait
-- for, what select() gives, and the callback that ares_process makes, if any.
pub record Round : Type 0 where
  pub elapsed : ℕ
  pub descriptors : ℕ
  pub select : Select
  pub callback : Option HostAnswer

-- A query: whether the channel is there, what ares_gethostbyname answers at once, if anything, and
-- the rounds after it.
pub record Query : Type 0 where
  pub has_channel : Bool
  pub at_once : Option HostAnswer
  pub rounds : ℕ → Round

-- The environment: inet_pton, the clock at its n-th reading, in milliseconds, and the n-th query,
-- for a host and an interface.
pub record Net : Type 0 where
  pub is_address : Text → Bool
  pub clock : ℕ → ℕ
  pub query : ℕ → Text → Text → Query

pub record CacheEntry : Type 0 where
  pub ip : Text
  pub expires_at : ℕ

pub record Resolver : Type 0 where
  pub state : InitState
  pub cached_hostname : Text
  pub backend_api_cache_entry : Option CacheEntry
  pub clock_reads : ℕ
  pub queries : ℕ

abbrev pub overall_timeout : ℕ
overall_timeout = 45

abbrev pub cache_ttl : ℕ
cache_ttl = 24 * 3600000

abbrev pub is_backend_hostname : Resolver → Text → Bool
is_backend_hostname r host = not (is_empty r.cached_hostname) && text_eq host r.cached_hostname

-- How the loop goes on after select(): it ends, goes round again, or lets c-ares work.
abbrev pub after_select :
    Select
    → Option HostAnswer
    → (Option HostAnswer → Option (Option HostAnswer))
    → Option (Option HostAnswer)
after_select interrupted callback next = next none
after_select select_failed callback next = some none
after_select selected callback next = next callback

-- The loop, with fuel; what the callback has been called with at its end, if it has.
unfoldable pub wait_loop : (ℕ → Round) → ℕ → ℕ → Option HostAnswer → Option (Option HostAnswer)
wait_loop rounds fuel n (some a) = some (some a)
wait_loop rounds zero n none = none
wait_loop rounds (suc fuel) n none =
    let r = rounds n in
    if leb overall_timeout r.elapsed
    then some none
    else if r.descriptors == 0
    then some none
    else after_select r.select r.callback (wait_loop rounds fuel (suc n))

-- What Resolve makes of the end of the loop.
abbrev pub answer_of : Option HostAnswer → Option Text
answer_of none = none
answer_of (some a) = host_callback a

module _ (net : Net) where
  abbrev pub remembered : Resolver → Text → Text → Resolver
  remembered r host ip =
      if is_backend_hostname r host
      then record r {
        backend_api_cache_entry =
            some (record { ip = ip; expires_at = net.clock r.clock_reads + cache_ttl });
        clock_reads = r.clock_reads + 1;
      }
      else r

  abbrev pub answered : Resolver → Text → Option Text → Resolver × Text
  answered r host none = (r, [])
  answered r host (some ip) = (remembered r host ip, ip)

  abbrev pub after_loop : Resolver → Text → Option (Option HostAnswer) → Option (Resolver × Text)
  after_loop r host none = none
  after_loop r host (some a) = some (answered r host (answer_of a))

  -- The query to c-ares.
  unfoldable pub ask : ℕ → Resolver → Text → Text → Option (Resolver × Text)
  unfolding wait_loop
  ask fuel r host interface =
      let q = net.query r.queries host interface in
      if not q.has_channel
      then some (r, [])
      else after_loop (record r { queries = r.queries + 1 }) host
          (wait_loop q.rounds fuel 0 q.at_once)

  -- The cached address is given while it is valid.
  abbrev pub ask_cache : ℕ → Resolver → Text → Text → Option CacheEntry → Option (Resolver × Text)
  ask_cache fuel r host interface none = ask fuel r host interface
  ask_cache fuel r host interface (some e) =
      let r' = record r { clock_reads = r.clock_reads + 1 } in
      if ltb (net.clock r.clock_reads) e.expires_at
      then some (r', e.ip)
      else ask fuel r' host interface

  -- Resolve
  unfoldable pub resolve : ℕ → Resolver → Text → Text → Option (Resolver × Text)
  unfolding ask
  resolve fuel r host interface =
      if not (is_initialized r.state)
      then some (r, [])
      else if net.is_address host
      then some (r, host)
      else if is_backend_hostname r host
      then ask_cache fuel r host interface r.backend_api_cache_entry
      else ask fuel r host interface
