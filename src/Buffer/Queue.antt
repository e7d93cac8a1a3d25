-- ===== src/Buffer/Queue.antt =====
-- What avs_buffer.h promises: a queue of at most `capacity` bytes, oldest first, and the calls that a
-- client can make.
use avs_commons.Common.{
  ℕ, ◌+◌, ◌%◌, List, [], ◌∷◌, ◌++◌, ltb, if◌then◌else◌, length, drop, replicate,
}
use avs_commons.Common.Word.{Status, ok, fail}

pub data Op : Type 0 where
  consume : ℕ → Op
  append : List ℕ → Op
  fill : ℕ → ℕ → Op
  clear : Op

-- `consume` takes the oldest bytes; `append` and `fill` add bytes at the end, all or none.
unfoldable pub step : ℕ → Op → List ℕ → Status × List ℕ
step cap (consume n) q = if ltb (length q) n then (fail, q) else (ok, drop n q)
step cap (append xs) q = if ltb cap (length q + length xs) then (fail, q) else (ok, q ++ xs)
step cap (fill v n) q =
    if ltb cap (length q + n) then (fail, q) else (ok, q ++ replicate n (v % 256))
step cap clear q = (ok, [])

-- What each call of a client returns, and the bytes that can be read after it.
unfoldable pub run : ℕ → List Op → List ℕ → List (Status × List ℕ)
unfolding step
run cap [] q = []
run cap (op ∷ ops) q = step cap op q ∷ run cap ops (step cap op q).1
