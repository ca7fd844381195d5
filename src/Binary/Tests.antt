-- ===== src/Binary/Tests.antt =====
-- Numbers in a buffer of twelve bytes.
use firefly_zephyr.Base.{◌≡◌, refl, List, [], ◌∷◌, replicate, arith}
use firefly_zephyr.Base.Bytes.{slice, copy_in}
use firefly_zephyr.Binary.{Binary, initialize, put_check}
use firefly_zephyr.Binary.Fields.{
  Field, uint8, uint16, uint24, uint48, put_all, get_all, values, pack, unpack,
}
use firefly_zephyr.Binary.RoundTrip.{unpack-pack}
use firefly_zephyr.Binary.Script.{put_all-get_all}

abbrev empty : Binary
empty = record { buffer = replicate 12 0; size = 12; put_index = 0; get_index = 0; errors = 0 }

abbrev fields : List Field
fields =
    record { width = uint16; value = 0x1234 }
    ∷ record { width = uint8; value = 7 }
    ∷ record { width = uint24; value = 0x563412 }
    ∷ []

start : initialize (replicate 12 0) 12 ≡ empty
unfolding initialize
start = refl

packed : slice (put_all empty fields).buffer 0 7 ≡ 0x34 ∷ 0x12 ∷ 7 ∷ 0x12 ∷ 0x34 ∷ 0x56 ∷ 0 ∷ []
unfolding put_all slice copy_in put_check
packed = refl

unpack-pack_example : unpack uint48 (pack uint48 0x123456789abc) ≡ 0x123456789abc
unpack-pack_example = unpack-pack uint48 0x123456789abc (omega arith)

put_all-get_all_example :
    let written = put_all empty fields in
    (get_all written fields ≡ (values fields, record written { get_index = written.put_index }))
    × (written.put_index ≡ 6)
    × (written.errors ≡ 0)
put_all-get_all_example = put_all-get_all empty fields (omega arith) (omega arith) refl
