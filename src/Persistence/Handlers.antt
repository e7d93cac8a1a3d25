-- ===== src/Persistence/Handlers.antt =====
-- `avs_persistence_list` of src/persistence/avs_persistence.c, on the elements of any type.
use avs_commons.Persistence.{Context, store_vtable, restore_vtable}
use avs_commons.Persistence.Collections.{list_handler, list}
use avs_commons.Persistence.Codec.{Stored, Restored, IsCodec, IsHandler, map-Stored, map-Restored}
use avs_commons.Stream.{VTable, Err}
use avs_commons.Stream.Queue.{IsSource, IsSink}
use avs_commons.Common.{
  ◌>>=◌, ℕ, Bool, true, Option, none, some, ◌≡◌, refl, ◌<◌, List, [], ◌++◌, length,
}
use avs_commons.Persistence.Lists.{All, list_encoding, custom_allocated_list-IsHandler}

-- A value behind a pointer, as the elements of avs_persistence_list are.
abbrev pub by_pointer :
    {S A : Type 0}
    → (Option Context → S → A → Option (Err × (A × S)))
    → Option Context
    → S
    → Option A
    → Option (Err × (Option A × S))
by_pointer f ctx s none = none
by_pointer f ctx s (some a) = f ctx s a >>= λ r. some (r.0, (some r.1.0, r.1.1))

module _ {S A : Type 0} {Valid : S → Type 0} {content : S → List ℕ} {good : A → Type 0}
    {encoding : A → List ℕ} where
  pub by_pointer-IsHandler :
      {blank : A} {f : Option Context → S → A → Option (Err × (A × S))}
      → IsCodec Valid content blank good encoding f
      → IsHandler Valid content (some blank) good encoding (by_pointer f)
  by_pointer-IsHandler c = record {
    stores = λ s a k g. map-Stored some refl (c.stores s a k g);
    restores = λ s a rest k g e. map-Restored some refl (c.restores s a rest k g e);
  }

  -- Where a new element can be had, avs_persistence_list hands it out.
  pub list_handler-IsHandler :
      {blank : A} {h : Option Context → S → Option A → Option (Err × (Option A × S))}
      (calloc : ℕ → Bool) (size : ℕ)
      → calloc size ≡ true
      → IsHandler Valid content (some blank) good encoding h
      → IsHandler Valid content none good encoding (list_handler calloc size blank h)
  unfolding list_handler
  list_handler-IsHandler calloc size e c = record {
    stores = λ s a k g. c.stores s a k g;
    restores = λ s a rest k g f. rw e (c.restores s a rest k g f);
  }

module _ {S A : Type 0} {v : VTable S} {Valid : S → Type 0} {content : S → List ℕ}
    {good : A → Type 0} {encoding : A → List ℕ} {blank : A}
    {h : Option Context → S → Option A → Option (Err × (Option A × S))}
    (source : IsSource v Valid content) (sink : IsSink v Valid content) (calloc : ℕ → Bool)
    (size : ℕ) (serves : calloc size ≡ true) (cleanup : Bool)
    (handler : IsHandler Valid content (some blank) good encoding h) where
  -- So that a list can be an element of a list.
  pub list-IsHandler :
      IsHandler Valid content
        (some [])
        (λ l. All good l × (length l < 4294967296))
        (list_encoding encoding)
        (list v calloc size blank h cleanup)
  unfolding list
  list-IsHandler =
      custom_allocated_list-IsHandler (list_handler-IsHandler calloc size serves handler) source
        sink cleanup

  -- On a stream that is a queue of bytes, where new elements can be had, and where their handler stores
  -- each element by its encoding and restores it from this into a new element: avs_persistence_list stores a
  -- list of less than 2^32 elements as four bytes for their number and then each element, or as much of this
  -- as the stream takes before an error; and from all of this at the front of the stream it restores the
  -- same list in place of an empty one, and takes no more bytes.
  pub list_round_trip :
      (s t : S) (l : List A) (rest : List ℕ)
      → Valid s
      → Valid t
      → All good l
      → length l < 4294967296
      → content t ≡ list_encoding encoding l ++ rest
      → Stored Valid content s
          (some l)
          (list_encoding encoding l)
          (list v calloc size blank h cleanup (some store_vtable) s (some l))
        × Restored Valid content
            (some l)
            rest
            (list v calloc size blank h cleanup (some restore_vtable) t (some []))
  list_round_trip s t l rest p q g small e =
      (list-IsHandler.stores s l p (g, small), list-IsHandler.restores t l rest q (g, small) e)
