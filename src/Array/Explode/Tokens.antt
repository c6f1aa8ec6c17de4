-- ===== src/Array/Explode/Tokens.antt =====
-- What the array of array_explode_alloc of c/src/array/array.c holds.
use mathlib.Core.List.{append_assoc, append-nil}
use code_notebook.Base.{
  ℕ, zero, suc, ◌+◌, ◌*◌, ◌^◌, ◌≤◌, ◌<◌, ◌≡◌, refl, sym, ◌∙◌, inl, inr, true, false, ◌&&◌, List, [],
  ◌∷◌, ◌++◌, Option, none, some, arith, length, length-append, replicate, length-replicate,
  get_elem?, ◌==◌, if◌then◌else◌, Bool-cases,
}
use code_notebook.Run.{Run, ok, Ends, ends, ◌>>=◌}
use code_notebook.Array.{Array, Bytes, empty_slot, new, get}
use code_notebook.Array.Compare.{bytes_eq, bytes_eq_sound, bytes_eq_complete}
use code_notebook.Array.Slots.{find, used, occurs}
use code_notebook.Array.Laws.{IsValid, get-find, empty_slots}
use code_notebook.Array.Writes.{HasSet, enough, set-HasSet}
use code_notebook.Array.Explode.{decimal, tokens, explode_loop, array_explode_alloc}
use code_notebook.Array.Explode.Keys.{decimal_injective}

-- The array reads under each index, printed in decimal, as the list at the index.
pub record Holds (toks : List Bytes) (a : Array) : Type 0 where
  pub valid : IsValid a
  pub reads : (j : ℕ) → get a (decimal j) none ≡ get_elem? toks j
  pub few : a.n ≤ length toks
  pub some_slots : 0 < a.size
  pub small : a.size ≤ 2 * a.n + 128

pub data Exploded (toks : List Bytes) : Option Array → Type 0 where
  holds : {a : Array} → Holds toks a → Exploded toks (some a)

same_index : (i j : ℕ) → bytes_eq (decimal j) (decimal i) ≡ (j == i)
same_index i j = elim (Bool-cases (j == i)) [
  | inl same ↦
      let e : j ≡ i = ground arith in rw (same, e) (bytes_eq_complete (decimal i) (decimal i) refl)
  | inr other ↦ rw other (elim (Bool-cases (bytes_eq (decimal j) (decimal i))) [
    | inr d ↦ d
    | inl p ↦
        let e = decimal_injective j i (bytes_eq_sound (decimal j) (decimal i) p) in
        absurd (ground (arith, e, other))
  ])
]

get_elem?-snoc :
    (toks : List Bytes) (tok : Bytes) (j : ℕ)
    → get_elem? (toks ++ tok ∷ []) j ≡ (if j == length toks then some tok else get_elem? toks j)
get_elem?-snoc [] tok zero = refl
get_elem?-snoc [] tok (suc j) = let behind : (suc j == 0) ≡ false = ground arith in rw behind refl
get_elem?-snoc (t ∷ toks) tok zero =
    let before : (0 == suc (length toks)) ≡ false = ground arith in rw before refl
get_elem?-snoc (t ∷ toks) tok (suc j) =
    let same : (suc j == suc (length toks)) ≡ (j == length toks) = ground arith in
    rw same (get_elem?-snoc toks tok j)

doubled_size :
    (n size occ n' size' : ℕ)
    → n' + occ ≡ n + 1
    → occ ≤ 1
    → size' ≡ (if n == size && occ == 0 then size * 2 else size)
    → 0 < size
    → size ≤ 2 * n + 128
    → (0 < size') × (size' ≤ 2 * n' + 128)
doubled_size n size occ n' size' number once room some_slots small =
    elim (Bool-cases (n == size && occ == 0)) [
      | inl full ↦
          let size_is : size' ≡ size * 2 = room ∙ rw full refl in
          let both : (n ≡ size) × (occ ≡ 0) = ground arith in
          let n_is = both.0 in let occ_is = both.1 in (omega arith, omega arith)
      | inr spare ↦ let size_is : size' ≡ size = room ∙ rw spare refl in (omega arith, omega arith)
    ]

Holds-set :
    (toks : List Bytes) (tok : Bytes) (a a' : Array)
    → Holds toks a
    → HasSet a (decimal (length toks)) (some tok) a'
    → Holds (toks ++ tok ∷ []) a'
Holds-set toks tok a a' h s =
    let once = h.valid.once (decimal (length toks)) in
    let number = s.number in
    let few = h.few in
    let small = h.small in
    let sizes =
      doubled_size a.n a.size (occurs (decimal (length toks)) a.slots) a'.n a'.size number once
        s.room h.some_slots small in
    record {
      valid = s.valid;
      reads = λ j.
          rw (s.gets (decimal j) none, same_index (length toks) j, h.reads j)
            (sym (get_elem?-snoc toks tok j));
      few = rw (length-append toks (tok ∷ [])) (omega arith);
      some_slots = sizes.0;
      small = sizes.1;
    }

explode_loop-Exploded :
    (done toks : List Bytes) (a : Array)
    → Holds done a
    → length done + length toks ≤ 2 ^ 24
    → Ends (Exploded (done ++ toks)) (explode_loop (λ i. enough) (length done) (some a) toks)
unfolding explode_loop
explode_loop-Exploded done [] a h bound = rw (append-nil done) (ends (holds h))
explode_loop-Exploded done (tok ∷ toks) a h bound =
    let few = h.few in
    let small = h.small in
    let (a', stored, s) =
      set-HasSet a (decimal (length done)) (some tok) h.valid h.some_slots (omega arith) in
    let more = length-append done (tok ∷ []) in
    rw (explode_loop, stored, sym (append_assoc done (tok ∷ []) toks), sym more)
      (explode_loop-Exploded (done ++ tok ∷ []) toks a' (Holds-set done tok a a' h s) (omega arith))

abbrev fresh : Array
fresh = record { n = 0; size = 128; slots = replicate 128 empty_slot }

fresh-Holds : Holds [] fresh
unfolding used occurs find
fresh-Holds =
    let empty = empty_slots 128 in
    record {
      valid = record {
        sized = length-replicate 128 empty_slot;
        counted = sym empty.used_same;
        hashed = empty.hashed;
        once = λ key. rw (empty.occurs_same key) (omega arith);
      };
      reads =
          λ j. get-find fresh (decimal j) none empty.hashed ∙ rw (empty.find_same (decimal j)) refl;
      few = omega arith;
      some_slots = omega arith;
      small = omega arith;
    }

loop_value :
    (toks : List Bytes) (loop : Run (Option Array))
    → Ends (Exploded toks) loop
    → (a : Array) × (loop >>= (λ a'. ok (some a')) ≡ ok (some (some a))) × Holds toks a
loop_value toks _ (ends (holds {a = a} h)) = (a, refl, h)

-- With memory for each call and at most 2 ^ 24 tokens, array_explode_alloc returns an array that is
-- valid and reads, under each index printed in decimal, as the tokens at the index: the token, or
-- no value behind the last.
pub array_explode_alloc-Exploded :
    (sep s : Bytes)
    → length (tokens sep [] s) ≤ 2 ^ 24
    → (a : Array) × (array_explode_alloc true true (λ i. enough) sep s ≡ ok (some (some a)))
      × Holds (tokens sep [] s) a
unfolding array_explode_alloc new
array_explode_alloc-Exploded sep s bound =
    let toks = tokens sep [] s in
    loop_value toks (explode_loop (λ i. enough) 0 (some fresh) toks)
      (explode_loop-Exploded [] toks fresh fresh-Holds (omega arith))
