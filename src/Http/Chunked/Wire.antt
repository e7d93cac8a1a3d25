-- ===== src/Http/Chunked/Wire.antt =====
-- The format that src/http/body_receivers/avs_chunked_body_receiver.c reads, as a relation between the bytes of
-- the connection and the body.
use avs_commons.Common.{ℕ, true, false, ◌≡◌, ap, ◌<◌, List, [], ◌++◌, length, length-append, arith}
use avs_commons.Common.Word.{size_mod}
use avs_commons.Http.Chunked.Number.{strtoul}
use avs_commons.Http.Chunked.{ends_number}
use avs_commons.Stream.Line.Terminated.{Plain, IsEnd, lf, crlf}

-- A line with a number in hexadecimal digits, with nothing or an extension behind it.
pub record IsHeadline (line : List ℕ) (k : ℕ) : Type 0 where
  pub no_error : (strtoul line).range_error ≡ false
  pub value_is : (strtoul line).value ≡ k
  pub whole : ends_number (strtoul line).rest ≡ true
  pub not_empty : 0 < length line

-- A line that fits into a buffer of `limit` bytes, with its end, at the start of `wire`; `more` follows.
pub record Starts (limit : ℕ) (wire line more : List ℕ) : Type 0 where
  pub plain : Plain line
  pub fits : length line < limit
  pub end : List ℕ
  pub is_end : IsEnd end
  pub splits : wire ≡ line ++ (end ++ more)

-- Lines of trailers up to an empty line, and then `rest`.
pub data Trailers (limit : ℕ) (rest : List ℕ) : List ℕ → Type 0 where
  no_more : {wire : List ℕ} → Starts limit wire [] rest → Trailers limit rest wire
  trailer :
      {wire : List ℕ} (line more : List ℕ)
      → Starts limit wire line more
      → 0 < length line
      → Trailers limit rest more
      → Trailers limit rest wire

-- With `left` bytes to come of the chunk, `wire` is the rest of a message with the body `body`, and then
-- `rest`.
pub data Chunks (limit : ℕ) (rest : List ℕ) : ℕ → List ℕ → List ℕ → Type 0 where
  in_data :
      {left : ℕ} {wire body : List ℕ} (d more b : List ℕ)
      → 0 < length d
      → left ≡ length d
      → wire ≡ d ++ more
      → body ≡ d ++ b
      → Chunks limit rest 0 more b
      → Chunks limit rest left wire body
  blank :
      {left : ℕ} {wire body : List ℕ} (more : List ℕ)
      → left ≡ 0
      → Starts limit wire [] more
      → Chunks limit rest 0 more body
      → Chunks limit rest left wire body
  headline :
      {left : ℕ} {wire body : List ℕ} (line more : List ℕ) (k : ℕ)
      → left ≡ 0
      → Starts limit wire line more
      → IsHeadline line k
      → 0 < k
      → k < size_mod
      → Chunks limit rest k more body
      → Chunks limit rest left wire body
  last :
      {left : ℕ} {wire body : List ℕ} (line more : List ℕ)
      → left ≡ 0
      → Starts limit wire line more
      → IsHeadline line 0
      → Trailers limit rest more
      → body ≡ []
      → Chunks limit rest left wire body

length-IsEnd : {end : List ℕ} → IsEnd end → 0 < length end
length-IsEnd lf = omega arith
length-IsEnd crlf = omega arith

pub length-Starts :
    {limit : ℕ} {wire line more : List ℕ} → Starts limit wire line more → length more < length wire
length-Starts {limit} {wire} {line} {more} s = omega (
  arith,
  length-IsEnd s.is_end,
  length-append line (s.end ++ more),
  length-append s.end more,
  ap (λ (l : List ℕ). length l) s.splits,
)

-- Between the chunks there is at least a line.
pub length-Chunks :
    {limit : ℕ} {rest wire body : List ℕ} → Chunks limit rest 0 wire body → 0 < length wire
length-Chunks (in_data d more b k e w f c) = absurd (omega (arith, k, e))
length-Chunks (blank more e s c) = omega (arith, length-Starts s)
length-Chunks (headline line more k e s h p q c) = omega (arith, length-Starts s)
length-Chunks (last line more e s h t b) = omega (arith, length-Starts s)
