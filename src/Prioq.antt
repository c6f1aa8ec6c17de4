-- ===== src/Prioq.antt =====
-- c/src/prioq/prioq.c: a priority queue, kept as a binary min-heap in a growing block.
-- A block is the list of its cells. `malloc` is given to each call that allocates: for a number
-- of bytes it answers with a block or with `none`. `unsigned int` wraps at 2 ^ 32, and the `int`
-- indices stay below 2 ^ 31 for every queue that the theorems speak of.
pub mod Order
pub mod Up
pub mod Down
pub mod Grow
pub mod Queue
pub mod Drain
mod Tests
use Prim.Native.Nat.{bit_and}
use code_notebook.Base.{
  Bool, ℕ, zero, suc, ◌+◌, ◌-◌, ◌*◌, ◌/◌, ◌%◌, ◌^◌, List, [], ◌∷◌, ◌++◌, Option, none, some, ltb,
  leb, ◌==◌, if◌then◌else◌, length, get_elem?, set, take, drop,
}
use code_notebook.Run.{Run, ok, fault, out_of_fuel, ◌>>=◌, or_fault}

-- struct prioq_elt
pub record Elt : Type 0 where
  pub id : ℕ
  pub dt : ℕ

-- struct prioq; `none` is the null pointer
pub record Prioq : Type 0 where
  pub p : Option (List Elt)
  pub len : ℕ
  pub size : ℕ

abbrev pub u32 : ℕ → ℕ
u32 n = n % 2 ^ 32

-- sizeof(struct prioq_elt)
abbrev pub elt_bytes : ℕ
elt_bytes = 16

abbrev pub alignment : ℕ
alignment = 16

abbrev pub Malloc : Type 0
Malloc = ℕ → Option (List Elt)

pub alloc : Malloc → ℕ → Option (List Elt)
alloc malloc bytes =
    let n = u32 bytes in malloc (u32 (u32 (alignment + n) + 2 ^ 32 - bit_and n (alignment - 1)))

-- memcpy(y, x, bytes), which must stay inside both blocks
pub memcpy : List Elt → List Elt → ℕ → Run (List Elt)
memcpy y x bytes =
    let n = bytes / elt_bytes in
    if ltb (length x) n
    then fault
    else if ltb (length y) n
    then fault
    else ok (take n x ++ drop n y)

-- _alloc_re, with `none` for its 1: the new block in the place of `x`
pub alloc_re : Malloc → List Elt → ℕ → ℕ → Run (Option (List Elt))
alloc_re malloc x old_size new_size = elim (alloc malloc new_size) [
  | none ↦ ok none
  | some y ↦ do z ← memcpy y x (u32 old_size); ok (some z)
]

-- prioq_readplus: the returned number, and the queue
pub readplus : Malloc → Prioq → ℕ → Run (ℕ × Prioq)
readplus malloc x n = elim x.p [
  | none ↦ elim (alloc malloc (n * elt_bytes)) [
    | none ↦ ok (1, record { p = none; len = 0; size = n })
    | some b ↦ ok (0, record { p = some b; len = 0; size = n })
  ]
  | some b ↦
      let i = x.size in
      let n' = u32 (n + x.len) in
      let wanted = u32 (100 + n' + n' / 8) in
      if ltb n' i then ok (0, x) else do
        grown ← alloc_re malloc b (i * elt_bytes) (wanted * elt_bytes)
        elim grown [
          | some y ↦ ok (0, record x { p = some y; size = wanted })
          | none ↦ ok (1, record x { size = i })
        ]
]

pub load : List Elt → ℕ → Run Elt
load b i = or_fault (get_elem? b i)

pub store : List Elt → ℕ → Elt → Run (List Elt)
store b i e = if ltb i (length b) then ok (set b i e) else fault

abbrev pub parent : ℕ → ℕ
parent j = (j - 1) / 2

-- the loop of prioq_insert, and the write behind it
pub up_loop : ℕ → List Elt → ℕ → Elt → Run (List Elt)
up_loop zero b j pe = out_of_fuel
up_loop (suc fuel) b j pe =
    let i = parent j in
    let rise : Run (List Elt) = do
      e ← load b i
      let shift = store b j e >>= λ b'. up_loop fuel b' i pe
      if leb e.dt pe.dt then store b j pe else shift
    in if j == 0 then store b j pe else rise

pub insert : Malloc → Prioq → Elt → Run (ℕ × Prioq)
insert malloc pq pe = do
  (failed, q) ← readplus malloc pq 1
  let placed : Run (ℕ × Prioq) = elim q.p [
    | none ↦ fault
    | some b ↦ up_loop (q.len + 1) b q.len pe >>= λ b'.
        ok (0, record q { p = some b'; len = u32 (q.len + 1) })
  ]
  if failed == 0 then placed else ok (1, q)

-- prioq_min, with `none` for its 1
pub min_elt : Prioq → Run (Option Elt)
min_elt pq = elim pq.p [
  | none ↦ ok none
  | some b ↦
      let first : Run (Option Elt) = load b 0 >>= λ e. ok (some e) in
      if pq.len == 0 then ok none else first
]

-- the `for` of prioq_del_min, and the write behind it
pub down_loop : ℕ → List Elt → ℕ → ℕ → Run (List Elt)
down_loop zero b i n = out_of_fuel
down_loop (suc fuel) b i n =
    let last = load b n >>= λ e. store b i e in
    let right = i + i + 2 in
    let sink : Run (List Elt) = do
      l ← load b (right - 1)
      r ← load b right
      let j = if leb l.dt r.dt then right - 1 else right
      e ← load b n
      c ← load b j
      let shift = store b i c >>= λ b'. down_loop fuel b' j n
      if leb e.dt c.dt then last else shift
    in if ltb n right then last else sink

pub del_min : Prioq → Run Prioq
del_min pq = elim pq.p [
  | none ↦ ok pq
  | some b ↦
      let n = pq.len - 1 in
      let removed : Run Prioq = do
        b' ← down_loop (n + 1) b 0 n
        ok (record pq { p = some b'; len = n })
      in if pq.len == 0 then ok pq else removed
]

-- prioq_free
pub free_cells : Prioq → Prioq
free_cells pq = record { p = none; len = 0; size = 0 }

-- spq_new, whose own allocation succeeds or not
pub spq_new : Bool → Option Prioq
spq_new allocated = if allocated then some (record { p = none; len = 0; size = 0 }) else none

-- spq_clean leaves nothing behind
pub spq_clean : Option Prioq → Option Prioq
spq_clean pq = none

-- spq_add
pub spq_add : Malloc → Option Prioq → Option Elt → Run (ℕ × Option Prioq)
spq_add malloc none pe = ok (1, none)
spq_add malloc (some pq) none = ok (1, some pq)
spq_add malloc (some pq) (some pe) = do
  (failed, q) ← insert malloc pq pe
  ok (if failed == 0 then 0 else 1, some q)

-- spq_get: the element stands for the caller's memory that is filled, `none` for a failure
pub spq_get : Option Prioq → Run (Option Elt × Option Prioq)
spq_get none = ok (none, none)
spq_get (some pq) = do
  found ← min_elt pq
  elim found [ none ↦ ok (none, some pq) | some pe ↦ do q ← del_min pq; ok (some pe, some q) ]
