-- ===== src/Prelude/Sorting.antt =====
-- sort.Strings, and what sorting leaves as it is.
use Prim.Native.Nat.{suc}
use Prim.Native.String.{String}
use mathlib.Core.Path.{◌≡◌, refl}
use mathlib.Core.Bool.{true, false}
use mathlib.Core.List.{List, [], ◌∷◌}
use native.Mathlib.Omega.{arith}
use depengine.Prelude.Tests.{◌==◌, if◌then◌else◌, string_eq}
use depengine.Prelude.Lists.{contains, distinct, occurrences}
use depengine.Prelude.Text.{text_lt}

insert_text : String → List String → List String
insert_text s [] = s ∷ []
insert_text s (t ∷ ts) = let rest = insert_text s ts in if text_lt t s then t ∷ rest else s ∷ t ∷ ts

unfoldable pub sort_texts : List String → List String
unfolding insert_text
sort_texts [] = []
sort_texts (s ∷ ss) = insert_text s (sort_texts ss)

contains-insert_text :
    (x s : String) (ts : List String)
    → contains (insert_text s ts) x ≡ (if s == x then true else contains ts x)
unfolding insert_text
contains-insert_text x s [] = refl
contains-insert_text x s (t ∷ ts) = ground (arith, contains-insert_text x s ts)

pub contains-sort_texts :
    (x : String) (ts : List String) → contains (sort_texts ts) x ≡ contains ts x
unfolding sort_texts
contains-sort_texts x [] = refl
contains-sort_texts x (t ∷ ts) =
    ground (arith, contains-insert_text x t (sort_texts ts), contains-sort_texts x ts)

occurrences-insert_text :
    (x s : String) (ts : List String)
    → occurrences (insert_text s ts) x
      ≡ (if s == x then suc (occurrences ts x) else occurrences ts x)
unfolding insert_text
occurrences-insert_text x s [] = refl
occurrences-insert_text x s (t ∷ ts) = ground (arith, occurrences-insert_text x s ts)

pub occurrences-sort_texts :
    (x : String) (ts : List String) → occurrences (sort_texts ts) x ≡ occurrences ts x
unfolding sort_texts
occurrences-sort_texts x [] = refl
occurrences-sort_texts x (t ∷ ts) =
    ground (arith, occurrences-insert_text x t (sort_texts ts), occurrences-sort_texts x ts)

distinct-insert_text :
    (s : String) (ts : List String)
    → distinct ts ≡ true
    → contains ts s ≡ false
    → distinct (insert_text s ts) ≡ true
unfolding insert_text
distinct-insert_text s [] d f = refl
distinct-insert_text s (t ∷ ts) d f =
    ground (arith, distinct-insert_text s ts, contains-insert_text t s ts)

pub distinct-sort_texts : (ts : List String) → distinct ts ≡ true → distinct (sort_texts ts) ≡ true
unfolding sort_texts
distinct-sort_texts [] d = refl
distinct-sort_texts (t ∷ ts) d = ground (
  arith,
  distinct-sort_texts ts,
  contains-sort_texts t ts,
  distinct-insert_text t (sort_texts ts),
)
