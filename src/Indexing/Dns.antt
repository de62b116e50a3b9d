-- ===== src/Indexing/Dns.antt =====
-- gurtd/src/indexing/dns.rs: addresses of domains. JSON, the parser of addresses, what a query to the
-- service returns and the clock are parameters.
pub mod Laws
pub mod Request
use google_co.Base.{
  ℕ, zero, suc, ◌≤◌, ◌≡◌, refl, arith, Bool, true, false, leb, ltb, List, [], ◌∷◌, ◌==◌,
  if◌then◌else◌, Option, none, some, ◌>>=◌, or, unwrap_or, none≢some, sym, ◌∙◌, ◌-◌,
}
use google_co.Str.Ascii.{Str, codes, eq_refl, eq_ignore_ascii_case, trim, trim_end_by}
use google_co.Dict.{Dict, lookup, insert, remove, lookup-insert}
use google_co.Indexing.Service.{is_empty_text}

-- An address, and whether it is of version 4.
pub record IpAddr : Type 0 where
  pub text : Str
  pub is_ipv4 : Bool

-- The texts below `type` and `value` of a record, where they are texts.
pub record DnsRecord : Type 0 where
  pub type_text : Option Str
  pub value : Option Str

abbrev pub dns_cache_ttl : ℕ
dns_cache_ttl = 60

abbrev pub DnsCache : Type 0
DnsCache = Dict (IpAddr × ℕ)

abbrev pub cached : ℕ → Str → Option (IpAddr × ℕ) → DnsCache → Option IpAddr × DnsCache
cached now domain none m = (none, remove domain m)
cached now domain (some (ip, t)) m =
    if leb (now - t) dns_cache_ttl then (some ip, m) else (none, remove domain m)

unfoldable pub dns_cache_get : ℕ → Str → DnsCache → Option IpAddr × DnsCache
dns_cache_get now domain m = cached now domain (lookup domain m) m

unfoldable pub dns_cache_put : ℕ → Str → IpAddr → DnsCache → DnsCache
dns_cache_put now domain ip m = insert domain (ip, now) m

module _ (parse_ip : Str → Option IpAddr) where
  abbrev address_of : Option Str → Option IpAddr
  address_of value = value >>= parse_ip

  abbrev only_v4 : Option IpAddr → Option IpAddr
  only_v4 none = none
  only_v4 (some ip) = if ip.is_ipv4 then some ip else none

  abbrev has_type : Str → DnsRecord → Bool
  has_type typ r = eq_ignore_ascii_case (unwrap_or r.type_text []) typ

  unfoldable pub pick_a : List DnsRecord → Option IpAddr
  pick_a [] = none
  pick_a (r ∷ rs) =
      let later = pick_a rs in
      if has_type (codes "A") r then or (only_v4 (address_of r.value)) later else later

  unfoldable pub pick_aaaa : List DnsRecord → Option IpAddr
  pick_aaaa [] = none
  pick_aaaa (r ∷ rs) =
      let later = pick_aaaa rs in
      if has_type (codes "AAAA") r then or (address_of r.value) later else later

  unfoldable pub pick_ip : List DnsRecord → Option IpAddr
  unfolding pick_a pick_aaaa
  pick_ip records = or (pick_a records) (pick_aaaa records)

abbrev is_dot : ℕ → Bool
is_dot c = c == b'.'

abbrev target_of : Option Str → Option Str
target_of none = none
target_of (some value) =
    let target = trim_end_by is_dot (trim value) in
    if is_empty_text target then none else some target

unfoldable pub pick_cname : List DnsRecord → Option Str
pick_cname [] = none
pick_cname (r ∷ rs) =
    let later = pick_cname rs in
    if eq_ignore_ascii_case (unwrap_or r.type_text []) (codes "CNAME")
    then or (target_of r.value) later
    else later

-- How an exchange with the service ends: late, with a failure of the connection or the protocol, or
-- with a status and the records of the body, where it is JSON with records.
pub data Exchange : Type 0 where
  late failed : Exchange
  response : ℕ → Option (List DnsRecord) → Exchange

-- The two exchanges about a name: the first for an address, the second for another name.
pub record Queries : Type 0 where
  pub parse_ip : Str → Option IpAddr
  pub first : Str → Exchange
  pub second : Str → Exchange

unfoldable pub picked_ip : Queries → Exchange → Option IpAddr
unfolding pick_ip
picked_ip q late = none
picked_ip q failed = none
picked_ip q (response code records) =
    if ltb code 200 then none else if leb 300 code then none else records >>= pick_ip q.parse_ip

unfoldable pub picked_cname : Exchange → Option Str
unfolding pick_cname
picked_cname late = none
picked_cname failed = none
picked_cname (response code records) = records >>= pick_cname

abbrev pub is_late : Exchange → Bool
is_late late = true
is_late failed = false
is_late (response code records) = false

abbrev pub max_cname_depth : ℕ
max_cname_depth = 5

-- The answer, the names that are put in the cache, and the number of names asked for.
pub record Answer : Type 0 where
  pub found : Option IpAddr
  pub cache : DnsCache
  pub asked : ℕ

abbrev pub one_more : Answer → Answer
one_more a = record a { asked = suc a.asked }

abbrev pub followed : Option Str → DnsCache → (Str → Answer) → Answer
followed none m later = record { found = none; cache = m; asked = 1 }
followed (some next) m later = one_more (later next)

abbrev pub resolved :
    ℕ → Str → Str → Bool → Option Str → Option IpAddr → DnsCache → (Str → Answer) → Answer
resolved now original current timed_out next (some ip) m later = record {
  found = some ip;
  cache = dns_cache_put now original ip (dns_cache_put now current ip m);
  asked = 1;
}
resolved now original current true next none m later = record { found = none; cache = m; asked = 1 }
resolved now original current false next none m later = followed next m later

unfoldable pub resolve_from : Queries → ℕ → Str → ℕ → Str → DnsCache → Answer
unfolding picked_ip picked_cname
resolve_from q now original zero current m = record { found = none; cache = m; asked = 0 }
resolve_from q now original (suc depth) current m =
    resolved now original current (is_late (q.first current)) (picked_cname (q.second current))
      (picked_ip q (q.first current)) m (λ next. resolve_from q now original depth next m)

abbrev pub resolve_uncached : Queries → ℕ → Str → Option IpAddr × DnsCache → Answer
resolve_uncached q now domain (some ip, m) = record { found = some ip; cache = m; asked = 0 }
resolve_uncached q now domain (none, m) = resolve_from q now domain max_cname_depth domain m

unfoldable pub resolve_via_gurt_dns : Queries → ℕ → Str → DnsCache → Answer
unfolding resolve_from dns_cache_get
resolve_via_gurt_dns q now domain m = resolve_uncached q now domain (dns_cache_get now domain m)
