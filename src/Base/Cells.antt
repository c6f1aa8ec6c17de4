-- ===== src/Base/Cells.antt =====
-- A block of memory as a list of cells: reads with a default, writes, and rearrangements.
use native.Mathlib.Bridge.{from_ℕ}
use mathlib.Core.List
use mathlib.Core.List.{Perm, perm_middle, append-nil, ◌++◌, List, [], ◌∷◌}
use mathlib.Core.List.Perm
use Prim.Native.Nat.{ℕ, zero, suc, ◌-◌, ◌<◌, ◌≤◌}
use mathlib.Core.Path.{◌≡◌, refl, sym, ap, subst, ◌∙◌}
use mathlib.Core.Option.{some}
use native.Mathlib.Omega.{arith}
use code_notebook.Base.Tests.{◌==◌, leb, if◌then◌else◌}
use mathlib.Core.Logic.{◌≢◌}
use code_notebook.Base.Lists.{length, get_elem?, get_or, set, take, drop, length-set}

module _ {ℓ} {A : Type ℓ} where
  native_length : (a : List A) → length a ≡ from_ℕ (List.length a)
  native_length [] = refl
  native_length (x ∷ a) = ap suc (native_length a)

  pub length-perm : {a b : List A} → Perm a b → length a ≡ length b
  length-perm {a} {b} p = native_length a ∙ ap from_ℕ (Perm.length-eq p) ∙ sym (native_length b)

  -- A cell of the block, and the cells around it.
  split_at :
      (d : A) (i : ℕ) (a : List A)
      → i < length a
      → (front back : List A) × (a ≡ front ++ get_or a i d ∷ back)
        × ((v : A) → set a i v ≡ front ++ v ∷ back)
  split_at d i [] h = absurd (omega arith)
  split_at d zero (x ∷ a) h = ([], a, refl, λ v. refl)
  split_at d (suc i) (x ∷ a) h =
      let (front, back, whole, written) = split_at d i a (omega arith) in
      (x ∷ front, back, ap (◌∷◌ x) whole, λ v. ap (◌∷◌ x) (written v))

  pub concat-perm : (a : List A) (x : A) → Perm (a ++ x ∷ []) (x ∷ a)
  concat-perm a x =
      subst (λ (t : List A). Perm (a ++ x ∷ []) (x ∷ t)) (append-nil a) (perm_middle a [])

  -- What a read inside the block finds, and what it finds after a write.
  pub get_or-set :
      (a : List A) (i j : ℕ) (v d : A)
      → i < length a
      → get_or (set a i v) j d ≡ (if i == j then v else get_or a j d)
  get_or-set (x ∷ a) (suc i) (suc j) v d h = ground (arith, get_or-set a i j v d)
  get_or-set (x ∷ a) (suc i) zero v d h = ground arith
  get_or-set (x ∷ a) zero zero v d h = refl
  get_or-set (x ∷ a) zero (suc j) v d h = ground arith
  get_or-set [] i j v d h = absurd (omega arith)

  pub get_elem?-get_or :
      (a : List A) (i : ℕ) (d : A) → i < length a → get_elem? a i ≡ some (get_or a i d)
  get_elem?-get_or (x ∷ a) (suc i) d h = get_elem?-get_or a i d (omega arith)
  get_elem?-get_or (x ∷ a) zero d h = refl
  get_elem?-get_or [] i d h = absurd (omega arith)

  pub get_or-take :
      (n : ℕ) (a : List A) (i : ℕ) (d : A) → i < n → get_or (take n a) i d ≡ get_or a i d
  get_or-take zero a i d h = absurd (omega arith)
  get_or-take (suc n) [] i d h = refl
  get_or-take (suc n) (x ∷ a) zero d h = refl
  get_or-take (suc n) (x ∷ a) (suc i) d h = get_or-take n a i d (omega arith)

  -- Writes past the prefix do not show in it, and others are made in it.
  pub take-set : (n : ℕ) (a : List A) (i : ℕ) (v : A) → take n (set a i v) ≡ set (take n a) i v
  take-set zero a i v = refl
  take-set (suc n) [] i v = refl
  take-set (suc n) (x ∷ a) zero v = refl
  take-set (suc n) (x ∷ a) (suc i) v = ap (◌∷◌ x) (take-set n a i v)

  pub take-suc :
      (n : ℕ) (a : List A) (d : A) → n < length a → take (suc n) a ≡ take n a ++ get_or a n d ∷ []
  take-suc n [] d h = absurd (omega arith)
  take-suc zero (x ∷ a) d h = refl
  take-suc (suc n) (x ∷ a) d h = ap (◌∷◌ x) (take-suc n a d (omega arith))

  pub take-append-le : (n : ℕ) (a b : List A) → n ≤ length a → take n (a ++ b) ≡ take n a
  take-append-le zero a b h = refl
  take-append-le (suc n) [] b h = absurd (omega arith)
  take-append-le (suc n) (x ∷ a) b h = ap (◌∷◌ x) (take-append-le n a b (omega arith))

  pub take-take : (n m : ℕ) (a : List A) → n ≤ m → take n (take m a) ≡ take n a
  take-take zero m a h = refl
  take-take (suc n) zero a h = absurd (omega arith)
  take-take (suc n) (suc m) [] h = refl
  take-take (suc n) (suc m) (x ∷ a) h = ap (◌∷◌ x) (take-take n m a (omega arith))

  -- The old entry beside the block that was written is the new one beside the block as it was.
  pub set-perm :
      (a : List A) (i : ℕ) (v d : A) → i < length a → Perm (get_or a i d ∷ set a i v) (v ∷ a)
  set-perm a i v d h =
      let (front, back, whole, written) = split_at d i a h in
      let old = get_or a i d in
      let left : Perm (old ∷ set a i v) (old ∷ v ∷ (front ++ back)) =
        Perm.cons old (rw (written v) (perm_middle front back)) in
      let right : Perm (v ∷ a) (v ∷ old ∷ (front ++ back)) = Perm.cons v (
        subst (λ (t : List A). Perm t (old ∷ (front ++ back))) (sym whole)
          (perm_middle front back)) in
      Perm.trans left (Perm.trans (Perm.swap _ _ _) (Perm.symm right))

  -- Moving cell `i` to `j` and then writing `v` at `i` holds the same as writing `v` at `j`.
  pub move-perm :
      (a : List A) (i j : ℕ) (v d : A)
      → i ≢ j
      → i < length a
      → j < length a
      → Perm (set (set a j (get_or a i d)) i v) (set a j v)
  move-perm a i j v d ne hi hj =
      let moved = set a j (get_or a i d) in
      let kept : get_or moved i d ≡ get_or a i d =
        ground (arith, get_or-set a j i (get_or a i d) d) in
      let second = rw kept at (set-perm moved i v d (rw length-set hi)) in
      let first = set-perm a j (get_or a i d) d hj in
      let direct = set-perm a j v d hj in
      Perm.cons_inv (
        Perm.cons_inv (
          Perm.trans (Perm.cons _ second) (
            Perm.trans (Perm.swap _ _ _) (
              Perm.trans (Perm.cons _ first) (
                Perm.trans (Perm.swap _ _ _)
                  (Perm.trans (Perm.cons _ (Perm.symm direct)) (Perm.swap _ _ _)))))))

  -- A write past the end changes nothing.
  pub set-beyond : (a : List A) (i : ℕ) (v : A) → length a ≤ i → set a i v ≡ a
  set-beyond [] i v h = refl
  set-beyond (x ∷ a) zero v h = absurd (omega arith)
  set-beyond (x ∷ a) (suc i) v h = ap (◌∷◌ x) (set-beyond a i v (omega arith))

  pub drop-set :
      (k : ℕ) (a : List A) (w : ℕ) (x : A)
      → drop k (set a w x) ≡ (if leb k w then set (drop k a) (w - k) x else drop k a)
  drop-set zero a w x = ground arith
  drop-set (suc k) [] w x = ground arith
  drop-set (suc k) (y ∷ a) zero x = ground arith
  drop-set (suc k) (y ∷ a) (suc w) x = ground (arith, drop-set k a w x)

  pub drop-set_self :
      (k : ℕ) (a : List A) (x : A) → k < length a → drop k (set a k x) ≡ x ∷ drop (suc k) a
  drop-set_self k [] x h = absurd (omega arith)
  drop-set_self zero (y ∷ a) x h = refl
  drop-set_self (suc k) (y ∷ a) x h = drop-set_self k a x (omega arith)
