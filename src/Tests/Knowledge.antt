-- ===== src/Tests/Knowledge.antt =====
-- A short text in one chunk.
use sentriqora.Base.{◌≡◌, refl, Text, units, length, arith, trim}
use sentriqora.Knowledge.Chunks.{chunks_from, chunk, unless, push, chunk_end, last_newline}
use sentriqora.Knowledge.Chunks.Laws.{Loop, enough_fuel, IsNumbered, chunks_from-IsNumbered}

abbrev text : Text
text = units "Rotate the key."

one_chunk : length (chunk text) ≡ 1
unfolding chunk chunks_from unless push chunk_end last_newline trim
one_chunk = refl

enough_fuel_example : Loop text 0 0 (chunks_from 15 text 0 0)
enough_fuel_example = enough_fuel text 15 0 0 (omega arith)

chunks_from-IsNumbered_example : IsNumbered 0 (chunks_from 15 text 0 0)
chunks_from-IsNumbered_example = chunks_from-IsNumbered 15 text 0 0
