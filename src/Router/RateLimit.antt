-- ===== src/Router/RateLimit.antt =====
-- gurtd/src/router/api.rs: the limiter of submissions per address. Instants are counts of one clock;
-- an address is its text.
pub mod Window
use google_co.Base.{
  ℕ, ◌-◌, ◌*◌, Bool, true, false, List, [], ◌∷◌, ◌++◌, if◌then◌else◌, ltb, length, Option, none,
  some, ◌>>=◌, unwrap_or,
}
use google_co.Str.Ascii.{Str}
use google_co.Str.Number.{u64_max, parse_unsigned}
use google_co.Dict.{Dict, lookup, insert}

abbrev pub IpAddr : Type 0
IpAddr = Str

pub record IpRateLimiter : Type 0 where
  pub max : ℕ
  pub window : ℕ
  pub map : Dict (List ℕ)

abbrev pub new : ℕ → ℕ → IpRateLimiter
new max window = record { max = max; window = window; map = [] }

-- The loop that pops the old instants off the front.
unfoldable pub pop_old : ℕ → ℕ → List ℕ → List ℕ
pop_old window now [] = []
pop_old window now (t ∷ q) =
    let rest = pop_old window now q in if ltb window (now - t) then rest else t ∷ q

abbrev pub decide : ℕ → ℕ → List ℕ → Bool × List ℕ
decide max now q = if ltb (length q) max then (true, q ++ now ∷ []) else (false, q)

-- One call for the queue of one address.
unfoldable pub admit : ℕ → ℕ → ℕ → List ℕ → Bool × List ℕ
admit max window now q = decide max now (pop_old window now q)

unfoldable pub allow : ℕ → IpAddr → IpRateLimiter → Bool × IpRateLimiter
allow now ip l =
    let (admitted, q) = admit l.max l.window now (unwrap_or (lookup ip l.map) []) in
    (admitted, record l { map = insert ip q l.map })

-- The limiter of the server, from the variables `GURT_SUBMIT_RATE` and `GURT_SUBMIT_WINDOW` (in seconds);
-- the clock counts `per_second` for a second.
unfoldable pub rate_limiter : ℕ → Option Str → Option Str → IpRateLimiter
rate_limiter per_second rate window =
    new (unwrap_or (rate >>= parse_unsigned u64_max) 5)
      (unwrap_or (window >>= parse_unsigned u64_max) 60 * per_second)
