-- ===== src/Indexing/Service.antt =====
-- gurtd/src/indexing/mod.rs: the queue of domains to index, with one worker. The set, the channel and
-- the worker's job are one state; a step is what one thread does while it holds the lock, or what
-- the channel does. The thread that is in `enqueue` between the lock and the send is in `sending`.
pub mod Laws
use google_co.Base.{Bool, true, false, List, [], ◌∷◌, ◌++◌, if◌then◌else◌, Option, none, some, ◌≡◌}
use google_co.Str.Ascii.{Str}
use google_co.Str.Bag.{contains, remove_first}

pub record IndexingService : Type 0 where
  pub in_flight : List Str
  pub sending : List Str
  pub channel : List Str
  pub processing : Option Str

unfoldable pub new : IndexingService
new = record { in_flight = []; sending = []; channel = []; processing = none }

-- `enqueue` up to the end of the first block.
unfoldable pub reserve : Str → IndexingService → IndexingService
reserve d s = if contains s.in_flight d then s else record {
  in_flight = d ∷ s.in_flight;
  sending = d ∷ s.sending;
  channel = s.channel;
  processing = s.processing;
}

-- The send of a domain, which succeeds or not; without success the domain is taken out again.
unfoldable pub send : Bool → Str → IndexingService → IndexingService
unfolding remove_first
send succeeds d s =
    if succeeds
    then record {
      in_flight = s.in_flight;
      sending = remove_first s.sending d;
      channel = s.channel ++ d ∷ [];
      processing = s.processing;
    }
    else record {
      in_flight = remove_first s.in_flight d;
      sending = remove_first s.sending d;
      channel = s.channel;
      processing = s.processing;
    }

abbrev received : List Str → Option Str → IndexingService → IndexingService
received [] p s = s
received (d ∷ ds) (some e) s = s
received (d ∷ ds) none s = record {
  in_flight = s.in_flight;
  sending = s.sending;
  channel = ds;
  processing = some d;
}

-- The worker takes the next job.
unfoldable pub receive : IndexingService → IndexingService
receive s = received s.channel s.processing s

abbrev finished : Option Str → IndexingService → IndexingService
finished none s = s
finished (some d) s = record {
  in_flight = remove_first s.in_flight d;
  sending = s.sending;
  channel = s.channel;
  processing = none;
}

-- The job is done, with or without an error.
unfoldable pub finish : IndexingService → IndexingService
unfolding remove_first
finish s = finished s.processing s

abbrev pub is_empty_text : Str → Bool
is_empty_text [] = true
is_empty_text (c ∷ s) = false

-- `enqueue_domain`, up to the send.
unfoldable pub enqueue_domain : Str → IndexingService → IndexingService
unfolding reserve
enqueue_domain d s = if is_empty_text d then s else reserve d s

-- What the worker and the threads of the server can do.
pub data Step : IndexingService → IndexingService → Type 0 where
  submits : {s : IndexingService} (d : Str) → Step s (enqueue_domain d s)
  sends :
      {s : IndexingService} (d : Str) (succeeds : Bool)
      → contains s.sending d ≡ true
      → Step s (send succeeds d s)
  receives : {s : IndexingService} → Step s (receive s)
  finishes : {s : IndexingService} → Step s (finish s)

pub data Steps : IndexingService → IndexingService → Type 0 where
  none_yet : {s : IndexingService} → Steps s s
  step_then : {s t u : IndexingService} → Step s t → Steps t u → Steps s u
