-- ===== src/Stream/Line.antt =====
-- `avs_stream_getline` and `avs_stream_peekline` of src/stream/avs_stream.c, which share their loop: it takes
-- its characters from a provider, which is a stream, or a stream and an offset.
pub mod Terminated
pub mod Streams
use avs_commons.Stream.{VTable, Err, success, eof, errno, eio, enobufs, einval, is_ok, getch, peek}
use avs_commons.Common.{
  ◌>>=◌, ℕ, zero, suc, Bool, true, false, not, ◌&&◌, ◌||◌, Option, none, some, List, [], ◌∷◌, ◌++◌,
  ◌==◌, leb, ◌+◌, ◌-◌, ◌*◌, if◌then◌else◌, length,
}

-- `getline_provider_t`: the character if one was read, and whether the message is finished.
pub record Provider (P : Type 0) : Type 0 where
  pub getch : P → Option (Err × (Option ℕ × (Bool × P)))
  pub peek : P → ℕ → Option (Err × (ℕ × P))

module _ {P : Type 0} (provider : Provider P) where
  unfoldable pub validate_line_finished : P → ℕ → Option (Err × P)
  validate_line_finished p last_read_char =
      if last_read_char == 10
      then some (success, p)
      else (provider.peek p 0 >>= λ r.
          if not (is_ok r.0) || (r.1.0 == 10)
          then some (r.0, r.1.1)
          else if r.1.0 == 13
          then (provider.peek r.1.1 1 >>= λ q.
              if not (is_ok q.0) || (q.1.0 == 10)
              then some (q.0, q.1.1)
              else some (errno enobufs, q.1.1))
          else some (errno enobufs, r.1.1))

  -- The character that a call of `getch` leaves.
  abbrev pub char_after : Option ℕ → ℕ → ℕ
  char_after none c = c
  char_after (some d) c = d

  -- `consume_line_terminator`, with the assertion at its end.
  unfoldable pub consume_line_terminator : P → ℕ → Bool → Option (Err × (Bool × P))
  consume_line_terminator p last_consumed_char finished =
      if last_consumed_char == 10
      then some (success, (finished, p))
      else (provider.getch p >>= λ r.
          let c = char_after r.1.0 last_consumed_char in
          if is_ok r.0 && (c == 13)
          then (provider.getch r.1.1.1 >>= λ q.
              if (char_after q.1.0 c == 10) || not (is_ok q.0) then some (q.0, q.1.1) else none)
          else if (c == 10) || not (is_ok r.0)
          then some (r.0, r.1.1)
          else none)

  -- The loop of `getline_helper`, with fuel: what is in the buffer, `tmp_char`, and whether the message is
  -- finished.
  unfoldable pub getline_loop :
      ℕ → P → ℕ → List ℕ → ℕ → Bool → Option (Err × (List ℕ × (ℕ × (Bool × P))))
  getline_loop zero p limit bytes tmp_char finished = none
  getline_loop (suc fuel) p limit bytes tmp_char finished =
      if leb limit (length bytes)
      then some (success, (bytes, (tmp_char, (finished, p))))
      else (provider.getch p >>= λ r.
          if not (is_ok r.0)
          then some (r.0, (bytes, (char_after r.1.0 tmp_char, r.1.1)))
          else (r.1.0 >>= λ c.
              let stored = getline_loop fuel r.1.1.1 limit (bytes ++ c ∷ []) c r.1.1.0 in
              if c == 0
              then some (errno eio, (bytes, (c, r.1.1)))
              else if c == 10
              then some (success, (bytes, (c, r.1.1)))
              else if c == 13
              then (provider.peek r.1.1.1 0 >>= λ q.
                  let skip = getline_loop fuel q.1.1 limit bytes c r.1.1.0 in
                  let kept = getline_loop fuel q.1.1 limit (bytes ++ c ∷ []) c r.1.1.0 in
                  if not (is_ok q.0)
                  then some (q.0, (bytes, (c, (r.1.1.0, q.1.1))))
                  else if q.1.0 == 10
                  then skip
                  else kept)
              else stored))

  -- `getline_helper`: the error, the line, whether the message is finished, and the provider. Each round
  -- but the last stores a byte, or is followed by the last; there is fuel for twice the buffer.
  unfoldable pub getline_helper : P → ℕ → Option (Err × (List ℕ × (Bool × P)))
  unfolding getline_loop validate_line_finished consume_line_terminator
  getline_helper p buffer_length =
      if buffer_length == 0
      then none
      else (getline_loop (2 * buffer_length) p (buffer_length - 1) [] 0 false >>= λ r.
          let bytes = r.1.0 in
          let tmp_char = r.1.1.0 in
          let finished = r.1.1.1.0 in
          if not (is_ok r.0)
          then some (r.0, (bytes, (finished, r.1.1.1.1)))
          else (validate_line_finished r.1.1.1.1 tmp_char >>= λ q.
              if not (is_ok q.0)
              then some (q.0, (bytes, (finished, q.1)))
              else (consume_line_terminator q.1 tmp_char finished >>= λ t.
                  some (t.0, (bytes, t.1)))))

module _ {S : Type 0} (v : VTable S) where
  -- `getline_reader_getch_func` and `getline_reader_peek_func`
  unfoldable pub reader : Provider S
  unfolding getch peek
  reader = record { getch = λ s. getch v s; peek = λ s offset. peek v s offset }

  -- `avs_stream_getline`; without a buffer, nothing is stored.
  unfoldable pub getline : S → ℕ → Option (Err × (List ℕ × (Bool × S)))
  unfolding reader getline_helper
  getline s buffer_length =
      if buffer_length == 0
      then some (errno einval, ([], (false, s)))
      else getline_helper reader s buffer_length

  -- `getline_peeker_getch_func` and `getline_peeker_peek_func`
  unfoldable pub peeker : Provider (S × ℕ)
  unfolding peek
  peeker = record {
    getch = λ p. peek v p.0 p.1 >>= λ r.
        some (r.0, (some r.1.0, (false, (r.1.1, if is_ok r.0 then p.1 + 1 else p.1))));
    peek = λ p offset. peek v p.0 (p.1 + offset) >>= λ r. some (r.0, (r.1.0, (r.1.1, p.1)));
  }

  -- `avs_stream_peekline`: the line, and the next offset.
  unfoldable pub peekline : S → ℕ → ℕ → Option (Err × (List ℕ × (ℕ × S)))
  unfolding peeker getline_helper
  peekline s offset buffer_length =
      if buffer_length == 0
      then some (errno einval, ([], (offset, s)))
      else (getline_helper peeker (s, offset) buffer_length >>= λ r.
          some (r.0, (r.1.0, (r.1.1.1.1, r.1.1.1.0))))
