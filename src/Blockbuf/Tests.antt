-- ===== src/Blockbuf/Tests.antt =====
-- A copy from one block into another, which is too small for it.
use avs_commons.Blockbuf.{Inbuf, inbuf_vtable, Outbuf, outbuf_vtable}
use avs_commons.Blockbuf.Sides.{OutbufIsValid, Fills, outbuf_write_some-Fills}
use avs_commons.Stream.{errno, emsgsize, copy, write_some}
use avs_commons.Common.{◌≡◌, refl, some, false, [], ◌∷◌, arith}

abbrev input : Inbuf
input = record { buffer = 7 ∷ 8 ∷ 9 ∷ []; buffer_size = 3; buffer_offset = 0 }

abbrev output : Outbuf
output = record { block = 0 ∷ 0 ∷ []; block_size = 2; block_offset = 0; message_finished = false }

output-IsValid : OutbufIsValid output
output-IsValid = record { whole = refl; inside = omega arith; in_memory = omega arith }

copy-short :
    copy inbuf_vtable outbuf_vtable 5 output input
    ≡ some (
      errno emsgsize,
      (record output { block = 7 ∷ 8 ∷ []; block_offset = 2 }, record input { buffer_offset = 3 }),
    )
unfolding copy inbuf_vtable outbuf_vtable
copy-short = refl

outbuf_write_some_example :
    Fills output (7 ∷ 8 ∷ 9 ∷ []) (write_some outbuf_vtable output (7 ∷ 8 ∷ 9 ∷ []))
outbuf_write_some_example =
    outbuf_write_some-Fills output (7 ∷ 8 ∷ 9 ∷ []) output-IsValid (omega arith)
