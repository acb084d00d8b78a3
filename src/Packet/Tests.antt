-- ===== src/Packet/Tests.antt =====
-- Examples for the byte buffers of src/qqpacket.c.
use myqq.Base.{ℕ, ◌+◌, ◌≤◌, ◌<◌, ◌≡◌, refl, some, List, [], ◌∷◌, map, arith, replicate, overwrite}
use myqq.Packet.{ByteBuffer, Token, put_data, advance, get_token, get_string}
use myqq.Packet.Store.{IsWritable, Appends, put_data_lem}
use myqq.Packet.RoundTrip.{
  Field, byte, word, int, block, shape, put_fields, get_fields, reader, get_fields-put_fields,
}
use myqq.Packet.TokenRead.{get_token_lem}
use myqq.Packet.Text.{IsRead, get_string-IsRead}

abbrev empty : ByteBuffer
empty = record { pos = 0; len = 0; size = 16; bytes = replicate 16 0 }

empty-IsWritable : IsWritable empty
empty-IsWritable = record { cursor = omega arith; room = omega arith }

abbrev fields : List Field
fields = byte 2 ∷ word 4660 ∷ int 305419896 ∷ block (7 ∷ 8 ∷ 9 ∷ []) ∷ []

get_fields-put_fields_example :
    (r : ByteBuffer) × (get_fields (map shape fields) (reader (put_fields empty fields) 0)
      ≡ some (fields, r))
    × (r.pos ≡ r.len)
get_fields-put_fields_example =
    get_fields-put_fields fields empty (omega arith) empty-IsWritable (omega arith)

put_data_lem_example :
    IsWritable (put_data empty (1 ∷ 2 ∷ []))
    × ((0 + 2 ≤ 16 → Appends empty (1 ∷ 2 ∷ []) (put_data empty (1 ∷ 2 ∷ [])))
        × (16 < 0 + 2 → put_data empty (1 ∷ 2 ∷ []) ≡ empty))
put_data_lem_example = put_data_lem empty (1 ∷ 2 ∷ []) empty-IsWritable

abbrev no_token : Token
no_token = record { len = 0; bytes = replicate 256 0 }

abbrev three : List ℕ
three = 1 ∷ 2 ∷ 3 ∷ []

abbrev packet : ByteBuffer
packet = record { pos = 0; len = 5; size = 5; bytes = 0 ∷ 3 ∷ three }

get_token_lem_example :
    get_token no_token packet
    ≡ some (
      (3, record { len = 3; bytes = overwrite no_token.bytes 0 three }),
      advance (advance packet 2) 3,
    )
get_token_lem_example = get_token_lem no_token packet three [] 3 refl refl (omega arith) refl

-- an array of five bytes, three of which may be written to
get_string-IsRead_example :
    (k : ℕ) × (out : List ℕ) × (b : ByteBuffer) × (get_string (replicate 5 7) 3 packet
      ≡ some ((k, out), b))
    × IsRead 0 3 (replicate 5 7) packet k out b
get_string-IsRead_example = get_string-IsRead (replicate 5 7) 3 packet (omega arith) (omega arith)
