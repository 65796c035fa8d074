-- ===== src/Event/Hll.antt =====
-- internal/event/hll: the registers of a HyperLogLog sketch, as a function of the register's index.
-- `Marshal` and `Unmarshal` copy the 16384 registers, and are the identity here. The estimate, which
-- is computed in floats, is not modelled.
use mathlib.Core.Path.{fun_ext}
use citywalk.Prelude.{
  ℕ, zero, suc, ◌+◌, ◌-◌, ◌/◌, ◌%◌, ◌^◌, String, ◌≡◌, refl, sym, ap, ◌∙◌, List, [], ◌∷◌, ◌++◌, ltb,
  ◌==◌, arith, if◌then◌else◌,
}
use citywalk.Assign.Bucket.{bytes, fnv_write, fnv_offset}

abbrev pub precision : ℕ
precision = 14

abbrev pub Sketch : Type 0
Sketch = ℕ → ℕ

pub empty : Sketch
empty i = 0

-- `bits.TrailingZeros64` of a number that is not zero, by fuel.
trailing_zeros : ℕ → ℕ → ℕ
trailing_zeros zero x = 0
trailing_zeros (suc fuel) x =
    let rest = trailing_zeros fuel (x / 2) in if x % 2 == 1 then 0 else suc rest

unfoldable pub rank : ℕ → ℕ
unfolding trailing_zeros
rank hash =
    let rest = hash / 2 ^ precision in
    if rest == 0 then 64 - precision + 1 else trailing_zeros 64 rest + 1

-- A register keeps the larger rank.
abbrev pub raise : ℕ → ℕ → ℕ
raise r candidate = if ltb r candidate then candidate else r

unfoldable pub add : ℕ → Sketch → Sketch
add hash s i = if i == hash % 2 ^ precision then raise (s i) (rank hash) else s i

unfoldable pub hash_of : String → ℕ
hash_of identity = fnv_write fnv_offset (bytes identity)

unfoldable pub add_identity : String → Sketch → Sketch
add_identity identity s = add (hash_of identity) s

unfoldable pub merge : Sketch → Sketch → Sketch
merge s other i = raise (s i) (other i)

-- The sketch of some identities, added in order to a sketch.
unfoldable pub add_all : List String → Sketch → Sketch
add_all [] s = s
add_all (id ∷ identities) s = add_all identities (add_identity id s)

raise_assoc : (a b c : ℕ) → raise (raise a b) c ≡ raise a (raise b c)
raise_assoc a b c = ground arith

add-merge : (hash : ℕ) (s t : Sketch) → merge s (add hash t) ≡ add hash (merge s t)
unfolding merge add
add-merge hash s t = fun_ext λ i. ground (arith, raise_assoc (s i) (t i) (rank hash))

-- Adding identities twice or in another order changes no register.
pub add_identity-commute :
    (a b : String) (s : Sketch)
    → add_identity a (add_identity b s) ≡ add_identity b (add_identity a s)
unfolding add_identity add
add_identity-commute a b s = fun_ext λ i. ground arith

pub add_identity_idem :
    (a : String) (s : Sketch) → add_identity a (add_identity a s) ≡ add_identity a s
unfolding add_identity add
add_identity_idem a s = fun_ext λ i. ground arith

merge-add_all :
    (identities : List String) (s t : Sketch)
    → merge s (add_all identities t) ≡ add_all identities (merge s t)
unfolding add_all add_identity
merge-add_all [] s t = refl
merge-add_all (id ∷ identities) s t =
    merge-add_all identities s (add_identity id t)
    ∙ ap (λ (u : Sketch). add_all identities u) (add-merge (hash_of id) s t)

merge_comm : (s t : Sketch) → merge s t ≡ merge t s
unfolding merge
merge_comm s t = fun_ext λ i. ground arith

merge_idem : (s : Sketch) → merge s s ≡ s
unfolding merge
merge_idem s = fun_ext λ i. ground arith

merge-empty : (s : Sketch) → merge s empty ≡ s
unfolding merge empty
merge-empty s = fun_ext λ i. ground arith

add_all-append :
    (xs ys : List String) (s : Sketch) → add_all (xs ++ ys) s ≡ add_all ys (add_all xs s)
unfolding add_all
add_all-append [] ys s = refl
add_all-append (x ∷ xs) ys s = add_all-append xs ys (add_identity x s)

-- The sketch of two lists of identities, one after the other, is the merge of their two sketches; the
-- order of the merge does not matter, nor does merging a sketch again.
pub merge-add_all-empty :
    (xs ys : List String)
    → (merge (add_all xs empty) (add_all ys empty) ≡ add_all (xs ++ ys) empty)
      × (merge (add_all ys empty) (add_all xs empty) ≡ add_all (xs ++ ys) empty)
      × (merge (add_all xs empty) (add_all xs empty) ≡ add_all xs empty)
merge-add_all-empty xs ys =
    let joined : merge (add_all xs empty) (add_all ys empty) ≡ add_all (xs ++ ys) empty =
      rw (merge-add_all ys (add_all xs empty) empty, merge-empty (add_all xs empty))
        (sym (add_all-append xs ys empty)) in
    (
      joined,
      merge_comm (add_all ys empty) (add_all xs empty) ∙ joined,
      merge_idem (add_all xs empty),
    )
