-- ===== src/Api/Stream.antt =====
-- A connection's input, as `AsyncReadExt::read` delivers it: the results of the successive reads.
-- A read that returns no byte, and any read behind the last one, is the end of the stream.
use google_co.Base.{◌≡◌, List, [], ◌∷◌, ◌++◌, All, is_empty, false}
use google_co.Str.Ascii.{Bytes}

pub data Read : Type 0 where
  got : Bytes → Read
  failed : Read

abbrev pub Stream : Type 0
Stream = List Read

-- The stream that delivers these chunks and then ends.
abbrev pub chunks : List Bytes → Stream
chunks [] = []
chunks (c ∷ cs) = got c ∷ chunks cs

abbrev pub concat : List Bytes → Bytes
concat [] = []
concat (c ∷ cs) = c ++ concat cs

abbrev pub NonEmptyChunks : List Bytes → Type 0
NonEmptyChunks = All (λ c. is_empty c ≡ false)
