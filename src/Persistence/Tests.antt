-- ===== src/Persistence/Tests.antt =====
-- Runs of src/persistence/avs_persistence.c on a stream in memory, and the witnesses.
use avs_commons.Persistence.{store_vtable, restore_vtable, u16, i64, string, version, to_word}
use avs_commons.Persistence.Collections.{list}
use avs_commons.Persistence.Codec.{Stored, Restored}
use avs_commons.Persistence.Words.{u16-IsCodec}
use avs_commons.Persistence.Signed.{InRange, i64_round_trip}
use avs_commons.Persistence.Strings.{text, text_encoding, string_round_trip}
use avs_commons.Persistence.Lists.{all_nil, all_cons, list_encoding}
use avs_commons.Persistence.Handlers.{by_pointer, by_pointer-IsHandler, list_round_trip}
use avs_commons.Numbers.ByteOrder.{big_endian}
use avs_commons.Membuf.{Membuf, create, vtable}
use avs_commons.Membuf.Queue.{contents, IsValid, Membuf-IsSource}
use avs_commons.Membuf.Write.{Serves, Membuf-IsSink}
use avs_commons.Stream.{errno, ebadmsg, VTable}
use avs_commons.Stream.Queue.{IsSource, IsSink}
use avs_commons.Common.Int.{pos, negsuc}
use avs_commons.Common.{
  ℕ, Bool, true, false, ◌≡◌, refl, none, some, List, [], ◌∷◌, ◌++◌, ltb, length, arith,
}

abbrev heap : ℕ → Bool
heap n = ltb n 1000

abbrev stream : VTable Membuf
stream = vtable heap

-- A stream with some bytes in it.
abbrev holding : List ℕ → Membuf
holding bytes = record {
  buffer = bytes;
  buffer_size = length bytes;
  index_write = length bytes;
  index_read = 0;
}

abbrev some_list : List ℕ
some_list = 258 ∷ 3 ∷ []

abbrev list_bytes : List ℕ
list_bytes = 0 ∷ 0 ∷ 0 ∷ 2 ∷ 1 ∷ 2 ∷ 0 ∷ 3 ∷ []

list_bytes_of : list_encoding (big_endian 2) some_list ≡ list_bytes
list_bytes_of = refl

heap-Serves : Serves heap
unfolding Serves
heap-Serves n e = ground (arith, e)

source : IsSource stream IsValid contents
source = Membuf-IsSource heap

sink : IsSink stream IsValid contents
sink = Membuf-IsSink heap heap-Serves

create-IsValid : IsValid create
unfolding create
create-IsValid = record {
  ordered = omega arith;
  filled = refl;
  fits = omega arith;
  in_memory = omega arith;
}

list_bytes-IsValid : IsValid (holding (list_bytes ++ 9 ∷ []))
list_bytes-IsValid = record {
  ordered = omega arith;
  filled = refl;
  fits = omega arith;
  in_memory = omega arith;
}

list_round_trip_example :
    Stored IsValid contents create (some some_list) (list_encoding (big_endian 2) some_list) (
      list stream heap 2 0
        (by_pointer (u16 stream))
        true
        (some store_vtable)
        create
        (some some_list))
    × Restored IsValid contents (some some_list) (9 ∷ []) (
        list stream heap 2 0
          (by_pointer (u16 stream))
          true
          (some restore_vtable)
          (holding (list_bytes ++ 9 ∷ []))
          (some []))
unfolding contents
list_round_trip_example =
    list_round_trip source sink heap 2 refl true (by_pointer-IsHandler (u16-IsCodec source sink 0))
      create (holding (list_bytes ++ 9 ∷ [])) some_list (9 ∷ []) create-IsValid list_bytes-IsValid
      (all_cons 258 (3 ∷ []) (omega arith) (all_cons 3 [] (omega arith) all_nil)) (omega arith) refl

abbrev hi : List ℕ
hi = 104 ∷ 105 ∷ 0 ∷ []

abbrev hi_bytes : List ℕ
hi_bytes = 0 ∷ 0 ∷ 0 ∷ 3 ∷ 104 ∷ 105 ∷ 0 ∷ 7 ∷ []

hi_bytes-IsValid : IsValid (holding hi_bytes)
hi_bytes-IsValid = record {
  ordered = omega arith;
  filled = refl;
  fits = omega arith;
  in_memory = omega arith;
}

abbrev plenty : ℕ → Bool
plenty n = true

string_round_trip_example :
    Stored IsValid contents create
      (some hi)
      (text_encoding (some hi))
      (string stream plenty (some store_vtable) create (some hi))
    × Restored IsValid contents
        (some hi)
        (7 ∷ [])
        (string stream plenty (some restore_vtable) (holding hi_bytes) none)
unfolding contents
string_round_trip_example =
    string_round_trip source sink plenty (λ n h. refl) create (holding hi_bytes) (some hi) (7 ∷ [])
      create-IsValid hi_bytes-IsValid (text (104 ∷ 105 ∷ []) refl (omega arith)) refl

abbrev minus_two : List ℕ
minus_two = 255 ∷ 255 ∷ 255 ∷ 255 ∷ 255 ∷ 255 ∷ 255 ∷ 254 ∷ []

minus_two-IsValid : IsValid (holding minus_two)
minus_two-IsValid = record {
  ordered = omega arith;
  filled = refl;
  fits = omega arith;
  in_memory = omega arith;
}

i64_round_trip_example :
    Stored IsValid contents create
      (negsuc 1)
      (big_endian 8 (to_word 18446744073709551616 (negsuc 1)))
      (i64 stream (some store_vtable) create (negsuc 1))
    × Restored IsValid contents
        (negsuc 1)
        []
        (i64 stream (some restore_vtable) (holding minus_two) (pos 0))
unfolding contents InRange
i64_round_trip_example =
    i64_round_trip source sink (pos 0) create (holding minus_two) (negsuc 1) [] create-IsValid
      minus_two-IsValid (omega arith) refl

-- A list handler gets a null pointer when the allocator serves no element.
list-no_memory :
    list stream
      (λ n. false)
      2
      0
      (by_pointer (u16 stream))
      true
      (some restore_vtable)
      (holding list_bytes)
      (some [])
    ≡ none
unfolding list vtable
list-no_memory = refl

version-unsupported :
    version stream (some restore_vtable) (holding (3 ∷ [])) 0 (1 ∷ 2 ∷ [])
    ≡ some (
      errno ebadmsg,
      (3, record { buffer = []; buffer_size = 1; index_write = 0; index_read = 0 }),
    )
unfolding version vtable
version-unsupported = refl
