-- ===== src/Connection/Laws.antt =====
-- The loop of a connection ends.
use google_co.Base.{
  ℕ, zero, suc, ◌<◌, ◌≡◌, refl, arith, Bool, true, false, Option, length, Bool-cases, inl, inr,
}
use google_co.Base.Results.{Result, ok, err}
use google_co.Str.Ascii.{Bytes}
use google_co.Api.Stream.{Stream}
use google_co.Api.Status.{StatusCode}
use google_co.Api.HttpLike.{Request, read_request}
use google_co.Api.HttpLike.Progress.{read_request-shorter}
use google_co.Router.RateLimit.{IpAddr}
use google_co.Router.Dispatch.{App, Server}
use google_co.Connection.{Clock, wants_close, Served, respond, serve_read, serve}

module _ {Score : Type 0} (server : Server Score) (clock : Clock) (peer : Option IpAddr) where
  respond-ended :
      (closes : Bool) (bytes : Bytes) (app : App Score) (later : App Score → Served Score)
      → ((a : App Score) → (later a).ended ≡ true)
      → (respond closes bytes app later).ended ≡ true
  respond-ended true bytes app later h = refl
  respond-ended false bytes app later h = h app

  serve_read-ended :
      (i : ℕ) (app : App Score) (later : Stream → App Score → Served Score)
      (r : Result StatusCode (Request × Stream))
      → ((req : Request) (s : Stream)
          → r ≡ ok (req, s)
          → (a : App Score) → (later s a).ended ≡ true)
      → (serve_read server clock peer i app later r).ended ≡ true
  serve_read-ended i app later (err code) h = refl
  serve_read-ended i app later (ok (req, s)) h =
      respond-ended (wants_close req.headers) _ _ (later s) (h req s refl)

  serve-ended :
      (fuel i : ℕ) (s : Stream) (app : App Score)
      → length s < fuel
      → (serve server clock peer fuel i s app).ended ≡ true
  unfolding serve
  serve-ended zero i s app h = absurd (omega arith)
  serve-ended (suc fuel) i s app h = elim (Bool-cases (clock.is_idle i)) [
    | inl e ↦ rw e refl
    | inr e ↦ rw e (
        serve_read-ended i app (λ s' app'. serve server clock peer fuel (suc i) s' app')
          (read_request s)
          (λ req s' k a.
            serve-ended fuel (suc i) s' a (omega (arith, read_request-shorter s (req, s') k))))
  ]

  -- The loop of a connection ends within one round more than there are reads in the stream, for every
  -- stream: each request that is read takes at least one read.
  pub serve_total :
      (s : Stream) (app : App Score)
      → (serve server clock peer (suc (length s)) 1 s app).ended ≡ true
  serve_total s app = serve-ended (suc (length s)) 1 s app (omega arith)
