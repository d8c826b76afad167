-- ===== src/Guest/Tests.antt =====
-- The buffer functions at a small guest.
use plaid.Base.{◌≡◌, refl, [], ◌∷◌, arith}
use plaid.Base.Int.{pos}
use plaid.Guest.{calculate_max_buffer_size, write_or_code, Bytes}
use plaid.Guest.Laws.{write_or_code_protocol}
use plaid.Samples.{Cells, cells, view}

saturates : calculate_max_buffer_size 65536 ≡ 4294967295
unfolding calculate_max_buffer_size
saturates = refl

abbrev data_ : Bytes
data_ = 1 ∷ 2 ∷ 3 ∷ []

abbrev after : Cells
after = record view { bytes = (9, data_) ∷ view.bytes }

write_or_code_protocol_example :
    (write_or_code cells view data_ 9 0 ≡ (pos 3, view))
    × (write_or_code cells view data_ 9 3 ≡ (pos 3, after))
write_or_code_protocol_example =
    write_or_code_protocol cells view data_ 9 after (omega arith) (omega arith) refl refl
