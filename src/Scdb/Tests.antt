-- ===== src/Scdb/Tests.antt =====
-- The parts of a database that is being made, on concrete bytes.
use code_notebook.Base.{ℕ, ◌≡◌, refl, List, [], ◌∷◌, arith, replicate, true}
use code_notebook.Run.{Ends}
use code_notebook.Scdb.Pack.{
  uint32_pack, uint32_unpack, uint32_pack_big, uint32_unpack_big, uint32_unpack-uint32_pack,
}
use code_notebook.Scdb.Buffer.{moved, interrupted, Buffer, putalign}
use code_notebook.Scdb.Buffer.Writes.{Put, credit, held, putalign-Put}
use code_notebook.Scdb.Find.{Scdb, Status, find}
use code_notebook.Scdb.Find.Ending.{find-Ends}
use code_notebook.Scdb.Make.{Make, add}
use code_notebook.Scdb.Make.Records.{no_node, node_fits}
use code_notebook.Scdb.Make.Add.{IsMaking, Added, add-Added}
use mathlib.Core.List.{reverse}

uint32_unpack-uint32_pack_example :
    (uint32_unpack (uint32_pack 0xcafe0102) ≡ 0xcafe0102)
    × (uint32_unpack_big (uint32_pack_big 0xcafe0102) ≡ 0xcafe0102)
    × (uint32_pack_big 0xcafe0102 ≡ reverse (uint32_pack 0xcafe0102))
uint32_unpack-uint32_pack_example = uint32_unpack-uint32_pack 0xcafe0102 (omega arith)

abbrev letters : List ℕ
letters = b'd' ∷ b'e' ∷ b'f' ∷ b'g' ∷ b'h' ∷ []

-- One byte of the block is used; op is interrupted, takes one byte, and later two at a time.
abbrev small : Buffer
small = record {
  x = b'c' ∷ 0 ∷ 0 ∷ [];
  p = 1;
  n = 3;
  sent = b'a' ∷ b'b' ∷ [];
  answers =
      interrupted ∷ moved 0 ∷ moved 1 ∷ moved 1 ∷ moved 1 ∷ interrupted ∷ moved 1 ∷ moved 0 ∷ [];
}

putalign-Put_example : Ends (Put small letters) (putalign small letters)
unfolding credit
putalign-Put_example =
    putalign-Put small letters (omega arith, omega arith, omega arith) (omega arith)

-- The second record of a file whose first one has left nothing in the block.
abbrev half_made : Make
half_made = record {
  head = (record { h = 7; p = 2048 } ∷ []) ∷ [];
  numentries = 1;
  b = record small { p = 0; sent = replicate 10 b'x'; answers = replicate 16 (moved 0) };
  pos = 2058;
}

half_made-IsMaking : IsMaking half_made
unfolding held
half_made-IsMaking = record {
  buffer = (omega arith, omega arith, omega arith);
  nodes = node_fits _ _ (omega arith) no_node;
  place = refl;
}

add-Added_example :
    Ends (Added true half_made (b'k' ∷ []) letters) (add true half_made (b'k' ∷ []) letters)
unfolding credit
add-Added_example =
    add-Added true half_made (b'k' ∷ []) letters half_made-IsMaking (omega arith) (omega arith)

-- A file of 2048 bytes whose tables are all empty.
abbrev empty_tables : Scdb
empty_tables = record {
  map = replicate 2048 0;
  loop = 0;
  khash = 0;
  kpos = 0;
  hpos = 0;
  hslots = 0;
  dpos = 0;
  dlen = 0;
}

find-Ends_example :
    Ends (λ (r : Status × Scdb). r.1.map ≡ replicate 2048 0) (find empty_tables letters)
find-Ends_example = find-Ends empty_tables letters
