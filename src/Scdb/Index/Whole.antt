-- ===== src/Scdb/Index/Whole.antt =====
-- scdb_make_finish as a whole.
use code_notebook.Base.{
  ℕ, suc, ◌+◌, ◌-◌, ◌*◌, ◌/◌, ◌%◌, ◌^◌, ◌≤◌, ◌<◌, ◌≡◌, refl, ap, ◌∙◌, Bool, List, [], Option, none,
  some, arith, ltb, ltb→lt, if-cases, length, get_or, take, length-take,
}
use code_notebook.Run.{ok, Ends, ends, Ends-bind, Ends-value}
use code_notebook.Scdb.Buffer.Writes.{credit, IsValid}
use code_notebook.Scdb.Make.{Hp, Make}
use code_notebook.Scdb.Make.Records.{entries}
use code_notebook.Scdb.Table.Placed.{AllUsed}
use code_notebook.Scdb.Index.{
  visited, no_counts, count_all, largest, starts_from, failed, build, finish,
}
use code_notebook.Scdb.Index.Counts.{
  before, before-le, length-count_all, length-no_counts, length-starts_from,
}
use code_notebook.Scdb.Index.Written.{Parts, room_for, write_tables-Tabled}
use code_notebook.Scdb.Index.Grouped.{split_all-groups, count_of, visited-entries, length-reverse}
use code_notebook.Scdb.Index.Finish.{slots_from, Done, no_memory, write_head-Done}
use code_notebook.Scdb.Index.Room.{
  largest-ge, largest-le, room_for-slots_from, length-slots_from, Parts-slots_from,
  length-split_all,
}

module _ (c : Make) (number : c.numentries ≡ length (entries c.head))
    (few : length (entries c.head) < 2 ^ 27) (used : AllUsed (entries c.head)) (valid : IsValid c.b)
    (below : c.pos + 16 * length (entries c.head) < 2 ^ 32)
    (patience : c.b.p + 16 * length (entries c.head) + 2048 ≤ credit c.b.answers) where
  abbrev es : List Hp
  es = entries c.head

  abbrev count : List ℕ
  count = count_all (visited c.head) no_counts

  abbrev groups : List (List Hp)
  groups = slots_from 0 256 es

  length-visited : length (visited c.head) ≡ length es
  length-visited = ap length (visited-entries c.head) ∙ length-reverse es

  length-count : length count ≡ 256
  length-count = length-count_all (visited c.head) no_counts ∙ length-no_counts

  count-le : (i : ℕ) → i < 256 → get_or count i 0 ≤ length es
  unfolding before
  count-le i h = omega (
    arith,
    length-visited,
    count_of (visited c.head) (visited c.head) (omega arith) (omega (arith, length-visited)) i h,
    before-le (suc i) (visited c.head),
  )

  largest_small : largest count 1 ≤ 2 * length es + 1
  largest_small =
      largest-le count 1 (2 * length es + 1)
        (λ i h. omega (arith, count-le i (omega (arith, length-count)))) (omega arith)

  room_for-le : room_for groups ≤ 16 * length es
  unfolding before
  room_for-le = omega (arith, room_for-slots_from 0 256 es, before-le 256 es)

  module _ (seeks : Bool) (memory : Type 0) (block : List Hp)
      (cells : length block ≡ largest count 1 + c.numentries) where
    length-split : length (take c.numentries block) ≡ c.numentries
    length-split = omega (arith, length-take c.numentries block)

    build-Done : Ends (Done c groups seeks memory) (build block seeks count c)
    unfolding build
    build-Done =
        let split = take c.numentries block in
        let (r, e, found) = Ends-value (
          split_all-groups c.head split (omega (arith, length-split, number))
            (omega (arith, length-split, number))) in
        let same : length r.0 ≡ length count =
          length-split_all (visited c.head) (starts_from 0 count) split r e
          ∙ length-starts_from count 0 in
        let parts : Parts (length block - c.numentries) r.1 count r.0
            (slots_from 0 (length count) es) =
          Parts-slots_from (length block - c.numentries) r.1 es count r.0 0 same
            (λ j h.
              (let zero_plus : 0 + j ≡ j = omega arith in
                rw zero_plus (found j (omega (arith, length-count)))))
            (λ j h. omega (
              arith,
              cells,
              number,
              largest-ge count 1 j h,
              count-le j (omega (arith, length-count)),
            ))
            used in
        let all_parts : Parts (length block - c.numentries) r.1 count r.0 groups =
          (rw length-count at parts) in
        rw e (
          Ends-bind
            (λ i h.
              write_head-Done c groups memory seeks i
                (omega (arith, room_for-le, length-slots_from 0 256 es)) h)
            (write_tables-Tabled (length block - c.numentries) r.1 count r.0 groups [] c all_parts
              valid (omega (arith, room_for-le)) (omega (arith, room_for-le))))

  abbrev memsize : ℕ
  memsize = (largest count 1 + c.numentries) % 2 ^ 32

  malloc-Done :
      (seeks : Bool) (memory : Type 0) (block? : Option (List Hp))
      → (block? ≡ none → memory)
      → ((block : List Hp) → block? ≡ some block → length block ≡ largest count 1 + c.numentries)
      → Ends
          (Done c groups seeks memory)
          (elim block? [ none ↦ ok (failed c) | some block ↦ build block seeks count c ])
  malloc-Done seeks memory none refused right = ends (no_memory _ refl (refused refl))
  malloc-Done seeks memory (some block) refused right =
      build-Done seeks memory block (right block refl)

  -- scdb_make_finish, for fewer than 2 ^ 27 entries that have a place in the file, whose number was
  -- counted, in a file that stays below 2 ^ 32 bytes, when malloc gives blocks of the size asked for
  -- and the calls of `op` are not interrupted for ever, ends inside its arrays. With 0 everything
  -- that was put, and behind it the filled tables of the 256 slots, each of twice as many cells as
  -- the slot has entries, in the order of their addition, has been handed to `op`, and then from the
  -- head of the file on the place and the size of each table. With -1 malloc or lseek or a call of
  -- `op` has failed.
  pub finish-Done :
      (malloc : ℕ → Option (List Hp))
      → ((n : ℕ) (block : List Hp) → malloc n ≡ some block → length block ≡ n)
      → (seeks : Bool)
      → Ends (Done c groups seeks ((n : ℕ) × (malloc n ≡ none))) (finish malloc seeks c)
  unfolding finish
  finish-Done malloc right seeks =
      let no_wrap : memsize ≡ largest count 1 + c.numentries =
        omega (arith, largest_small, number) in
      let memory : Type 0 = (n : ℕ) × (malloc n ≡ none) in
      if-cases (Ends (Done c groups seeks memory)) (ltb (0xffffffff / 8) memsize)
        (λ e.
          absurd (omega (arith, ltb→lt (0xffffffff / 8) memsize e, no_wrap, largest_small, number)))
        (λ _.
          malloc-Done seeks memory (malloc memsize) (λ e. (memsize, e))
            (λ block e. right memsize block e ∙ no_wrap))
