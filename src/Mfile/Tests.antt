-- ===== src/Mfile/Tests.antt =====
-- A file whose blocks have three bytes, one of which is in use.
use code_notebook.Base.{refl, true, false, [], ◌∷◌, some, arith, inr}
use code_notebook.Run.{Ends}
use code_notebook.Mfile.{DataBlock, Mfile, mwrite, mwrite_head}
use code_notebook.Mfile.Ready.{granted, has_room}
use code_notebook.Mfile.Writing.{Wrote, mwrite-Wrote}
use code_notebook.Mfile.RoundTrip.{ReadBack, mread-mwrite}
use code_notebook.Mfile.Heading.{Headed, mwrite_head-Headed}
use code_notebook.Mfile.Read.{mread, mgetc}
use code_notebook.Mfile.Read.Byte.{Next, mgetc-Next}
use code_notebook.Mfile.Read.InOrder.{Got, further, mread-Got}
use code_notebook.Mfile.Read.Place.{in_block}

abbrev first : DataBlock
first = record { text = b'a' ∷ b'b' ∷ b'c' ∷ []; current_read_count = 2 }

abbrev second : DataBlock
second = record { text = b'd' ∷ []; current_read_count = 0 }

abbrev small : Mfile
small = record {
  total_size = 4;
  new_header_size = 0;
  head = first ∷ second ∷ [];
  block_num = 2;
  current_write_p = some 1;
  current_read_p = some 0;
  is_full = false;
  is_empty = false;
  data_block_size = 3;
  ccache = 10;
  answers = true ∷ true ∷ true ∷ false ∷ [];
}

mwrite-Wrote_example :
    Ends
      (Wrote (record small { total_size = 8 }) (b'e' ∷ b'f' ∷ b'g' ∷ b'h' ∷ []))
      (mwrite small (b'e' ∷ b'f' ∷ b'g' ∷ b'h' ∷ []))
mwrite-Wrote_example = mwrite-Wrote small (b'e' ∷ b'f' ∷ b'g' ∷ b'h' ∷ []) (record {
  sized = omega arith;
  tail = inr (has_room (first ∷ []) second refl refl (omega arith));
})

mread-Got_example : Ends (Got small 5 (b'c' ∷ b'd' ∷ [])) (mread small 5)
mread-Got_example = mread-Got small 5 (b'c' ∷ b'd' ∷ []) (
    further _
      (in_block [] first (second ∷ []) refl refl (omega arith) refl (refl, omega arith, tt)))

mwrite_head-Headed_example : Headed small (b'x' ∷ b'y' ∷ []) (mwrite_head small (b'x' ∷ b'y' ∷ []))
mwrite_head-Headed_example = mwrite_head-Headed small (b'x' ∷ b'y' ∷ []) (record {
  sized = omega arith;
  tail = inr (has_room (first ∷ []) second refl refl (omega arith));
})

mread-mwrite_example :
    Ends (ReadBack 5 (b'a' ∷ b'b' ∷ b'c' ∷ b'd' ∷ b'e' ∷ [])) (mwrite small (b'e' ∷ []))
unfolding granted
mread-mwrite_example =
    mread-mwrite small (b'e' ∷ []) 5
      (record {
        sized = omega arith;
        tail = inr (has_room (first ∷ []) second refl refl (omega arith));
      })
      (omega arith) (omega arith) (omega arith)

mgetc-Next_example : Ends (Next (b'c' ∷ b'd' ∷ [])) (mgetc small)
mgetc-Next_example = mgetc-Next small (b'c' ∷ b'd' ∷ []) (
    further _
      (in_block [] first (second ∷ []) refl refl (omega arith) refl (refl, omega arith, tt)))
