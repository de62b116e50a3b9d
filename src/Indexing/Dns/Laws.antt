-- ===== src/Indexing/Dns/Laws.antt =====
-- How many names are asked for, and what the cache keeps.
use google_co.Base.{
  ℕ, zero, suc, ◌-◌, ◌≤◌, ◌≡◌, refl, arith, Bool, true, false, leb, Option, none, some, none≢some,
  sym, ◌∙◌,
}
use google_co.Str.Ascii.{Str, eq_refl}
use google_co.Dict.{lookup-insert}
use google_co.Indexing.Dns.{
  IpAddr, DnsCache, dns_cache_ttl, dns_cache_get, dns_cache_put, Queries, picked_ip, picked_cname,
  is_late, Answer, followed, resolved, resolve_from, resolve_uncached, resolve_via_gurt_dns,
}

-- What an answer says of the cache behind it.
abbrev pub Remembered : ℕ → Str → Answer → Type 0
Remembered now domain a =
    (ip : IpAddr) → a.found ≡ some ip → (dns_cache_get now domain a.cache).0 ≡ some ip

get_put :
    (now : ℕ) (domain : Str) (ip : IpAddr) (m : DnsCache)
    → (dns_cache_get now domain (dns_cache_put now domain ip m)).0 ≡ some ip
unfolding dns_cache_get dns_cache_put
get_put now domain ip m = rw (lookup-insert, eq_refl domain) (rw (within_ttl now) refl)
  where
    within_ttl : (n : ℕ) → leb (n - n) dns_cache_ttl ≡ true
    within_ttl n = ground arith

followed-Remembered :
    (now : ℕ) (original : Str) (next : Option Str) (m : DnsCache) (later : Str → Answer)
    → ((s : Str) → Remembered now original (later s))
    → Remembered now original (followed next m later)
followed-Remembered now original none m later h ip e = absurd (none≢some e)
followed-Remembered now original (some next) m later h ip e = h next ip e

resolved-Remembered :
    (now : ℕ) (original current : Str) (timed_out : Bool) (next : Option Str) (o : Option IpAddr)
    (m : DnsCache) (later : Str → Answer)
    → ((s : Str) → Remembered now original (later s))
    → Remembered now original (resolved now original current timed_out next o m later)
resolved-Remembered now original current t next (some ip) m later h ip' e =
    get_put now original ip (dns_cache_put now current ip m) ∙ e
resolved-Remembered now original current true next none m later h ip e = absurd (none≢some e)
resolved-Remembered now original current false next none m later h ip e =
    followed-Remembered now original next m later h ip e

resolve_from-Remembered :
    (q : Queries) (now : ℕ) (original : Str) (depth : ℕ) (current : Str) (m : DnsCache)
    → Remembered now original (resolve_from q now original depth current m)
unfolding resolve_from
resolve_from-Remembered q now original zero current m ip e = absurd (none≢some e)
resolve_from-Remembered q now original (suc depth) current m ip e =
    resolved-Remembered now original current (is_late (q.first current))
      (picked_cname (q.second current)) (picked_ip q (q.first current)) m
      (λ next. resolve_from q now original depth next m)
      (λ next. resolve_from-Remembered q now original depth next m) ip e

resolved-bound :
    (now : ℕ) (original current : Str) (t : Bool) (next : Option Str) (o : Option IpAddr)
    (m : DnsCache) (later : Str → Answer) (depth : ℕ)
    → ((n : Str) → (later n).asked ≤ depth)
    → (resolved now original current t next o m later).asked ≤ suc depth
resolved-bound now original current t next (some ip) m later depth h = omega arith
resolved-bound now original current true next none m later depth h = omega arith
resolved-bound now original current false none none m later depth h = omega arith
resolved-bound now original current false (some n) none m later depth h = omega (arith, h n)

asked-bound :
    (q : Queries) (now : ℕ) (original : Str) (depth : ℕ) (current : Str) (m : DnsCache)
    → (resolve_from q now original depth current m).asked ≤ depth
unfolding resolve_from
asked-bound q now original zero current m = omega arith
asked-bound q now original (suc depth) current m =
    resolved-bound now original current (is_late (q.first current))
      (picked_cname (q.second current)) (picked_ip q (q.first current)) m
      (λ next. resolve_from q now original depth next m) depth
      (λ next. asked-bound q now original depth next m)

-- A domain that is not in the cache is asked for under at most five names, whatever the service
-- answers, and an address that is found is in the cache under the domain itself at once.
pub resolve_via_gurt_dns_uncached :
    (q : Queries) (now : ℕ) (domain : Str) (m : DnsCache)
    → (dns_cache_get now domain m).0 ≡ none
    → ((resolve_via_gurt_dns q now domain m).asked ≤ 5)
      × Remembered now domain (resolve_via_gurt_dns q now domain m)
unfolding resolve_via_gurt_dns
resolve_via_gurt_dns_uncached q now domain m = uncached (dns_cache_get now domain m)
  where
    uncached :
        (g : Option IpAddr × DnsCache)
        → g.0 ≡ none
        → ((resolve_uncached q now domain g).asked ≤ 5)
          × Remembered now domain (resolve_uncached q now domain g)
    uncached (some ip, m) h = absurd (none≢some (sym h))
    uncached (none, m) h =
        (asked-bound q now domain 5 domain m, resolve_from-Remembered q now domain 5 domain m)
