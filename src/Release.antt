-- ===== src/Release.antt =====
-- app/bss/adapters/portaswitch/adapter.py: the release of the switch, read once in a while, and how
-- the call history detects a recorded call by it. Times are seconds of `time.monotonic`; what
-- `get_version` gives in time is an argument, none where it fails.
use porta_phone_adapter.Base.{
  ℕ, ◌+◌, ◌-◌, ◌*◌, ◌≤◌, ◌<◌, ◌≡◌, refl, Bool, true, false, ◌&&◌, Option, none, some, List, [], ◌∷◌,
  arith, ltb, leb, ◌==◌, if◌then◌else◌,
}
use porta_phone_adapter.Base.Eq.{Text}

-- `PORTASWITCH_VERSION_CACHE_TTL` and `PORTASWITCH_VERSION_RETRY_AFTER`
abbrev pub cache_ttl : ℕ
cache_ttl = 3600

abbrev pub retry_after : ℕ
retry_after = 60

abbrev pub is_digit : ℕ → Bool
is_digit c = leb b'0' c && leb c b'9'

-- `[int(d) for d in re.findall(r"\d+", t)]`, for ASCII digits, with the number that the text goes on with.
abbrev pub pending : Option ℕ → List ℕ → List ℕ
pending none ns = ns
pending (some n) ns = n ∷ ns

abbrev pub extend : Option ℕ → ℕ → ℕ
extend none c = c - b'0'
extend (some n) c = n * 10 + (c - b'0')

unfoldable pub numbers : Option ℕ → Text → List ℕ
numbers run [] = pending run []
numbers run (c ∷ t) =
    let rest = numbers (if is_digit c then some (extend run c) else none) t in
    if is_digit c then rest else pending run rest

-- `a >= b` of two lists of numbers.
unfoldable pub at_least : List ℕ → List ℕ → Bool
at_least a [] = true
at_least [] (n ∷ b) = false
at_least (m ∷ a) (n ∷ b) = let rest = at_least a b in if m == n then rest else ltb n m

-- `_portaswitch_version_cache`
abbrev pub VersionCache : Type 0
VersionCache = Option (ℕ × Option (List ℕ))

abbrev pub ttl_of : Option (List ℕ) → ℕ
ttl_of none = retry_after
ttl_of (some release) = cache_ttl

abbrev pub or_none : List ℕ → Option (List ℕ)
or_none [] = none
or_none (n ∷ ns) = some (n ∷ ns)

abbrev pub release_of : Option Text → Option (List ℕ)
release_of none = none
release_of (some version) = or_none (numbers none version)

unfoldable pub read_release : ℕ → Option Text → Option (List ℕ) × VersionCache
read_release now version = (release_of version, some (now, release_of version))

-- `_portaswitch_release`
unfoldable pub portaswitch_release : ℕ → Option Text → VersionCache → Option (List ℕ) × VersionCache
portaswitch_release now version none = read_release now version
portaswitch_release now version (some (read_at, release)) =
    if ltb (now - read_at) (ttl_of release)
    then (release, some (read_at, release))
    else read_release now version

abbrev pub detects : List ℕ → Option (List ℕ) → Bool
detects since none = true
detects since (some release) = at_least release since

-- `_recordings_by_cr_download_ids`, with the numbers of the first such release.
unfoldable pub recordings_by_cr_download_ids :
    List ℕ → ℕ → Option Text → VersionCache → Bool × VersionCache
recordings_by_cr_download_ids since now version cache =
    let (release, cache') = portaswitch_release now version cache in (detects since release, cache')

-- A release that was read, or that could not be, is kept for its time: whatever the switch would
-- answer then, a request less than an hour after a reading gets what it gave, and one less than a
-- minute after a failure gets none, and the cache stays.
pub release_kept :
    (now later : ℕ) (version version' : Option Text)
    → now ≤ later
    → later < now + ttl_of (release_of version)
    → let (release, cache) = portaswitch_release now version none in
      portaswitch_release later version' cache ≡ (release, cache)
unfolding portaswitch_release read_release
release_kept now later version version' order soon =
    let young : ltb (later - now) (ttl_of (release_of version)) ≡ true = ground arith in
    rw young refl
