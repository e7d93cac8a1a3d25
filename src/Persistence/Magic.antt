-- ===== src/Persistence/Magic.antt =====
-- `avs_persistence_magic` and `avs_persistence_version` of src/persistence/avs_persistence.c, restoring.
use avs_commons.Persistence.{restore_vtable, magic, same_bytes, bytes, direction}
use avs_commons.Persistence.Restore.{restore_bytes}
use avs_commons.Stream.{VTable, success, eof, errno, ebadmsg}
use avs_commons.Stream.Queue.{IsSource}
use avs_commons.Stream.Reliably.{read_reliably_lem}
use avs_commons.Common.{
  ℕ, Bool, true, false, some, ◌≡◌, refl, ap, ◌∙◌, ◌<◌, ◌==◌, leb, if◌then◌else◌, List, ◌++◌, length,
  length-replicate, replicate, take, drop, length-take, drop_over, append-nil, Bool-cases, inl, inr,
  arith,
}

module _ {S : Type 0} {v : VTable S} {Valid : S → Type 0} {content : S → List ℕ}
    (source : IsSource v Valid content) (malloc : ℕ → Bool) where
  -- A marker that is not empty, a stream that is a queue of bytes, and memory that can be had:
  -- avs_persistence_magic, restoring, takes the length of the marker from the front of the stream, and
  -- returns AVS_OK if these bytes are the marker, AVS_EBADMSG if they are not, and AVS_EOF if there are
  -- fewer.
  pub magic_lem :
      (s : S) (marker : List ℕ)
      → Valid s
      → 0 < length marker
      → malloc (length marker) ≡ true
      → (after : S) × ((magic v malloc (some restore_vtable) s marker
            ≡ some (
              if leb (length marker) (length (content s))
                  then (if same_bytes (take (length marker) (content s)) marker
                      then success
                      else errno ebadmsg)
                  else eof,
              after,
            ))
          × ((content after ≡ drop (length marker) (content s)) × Valid after))
  unfolding magic bytes direction restore_bytes
  magic_lem s marker h some_bytes e =
      let r = read_reliably_lem source s (length marker) h in
      let n = length marker in
      let zeros : List ℕ = replicate n 0 in
      let same : length zeros ≡ n = length-replicate n 0 in
      let front : List ℕ = take n (content s) in
      let more : (n == 0) ≡ false = ground (arith, some_bytes) in
      (
        r.0,
        (
          rw more (
              rw e (
                rw same (
                  rw r.1.0 (elim (Bool-cases (leb n (length (content s)))) [
                    | inl enough ↦
                        let full : length front ≡ n =
                          ground (arith, length-take n (content s), enough) in
                        let all : front ++ drop (length front) zeros ≡ front =
                          ap (λ l. front ++ l)
                            (drop_over zeros (length front) (omega (arith, full, same)))
                          ∙ append-nil front in
                        rw enough (
                          rw all (elim (Bool-cases (same_bytes front marker)) [
                            | inl q ↦ rw q refl
                            | inr q ↦ rw q refl
                          ]))
                    | inr few ↦ rw few refl
                  ])))),
          r.1.1,
        ),
      )
