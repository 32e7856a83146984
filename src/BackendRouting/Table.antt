-- ===== src/BackendRouting/Table.antt =====
-- std::map from texts: entries in the byte order of their keys.
use turbo_ocr.Common.{
  Bool, true, false, ◌||◌, ◌&&◌, Option, none, some, List, [], ◌∷◌, ltb, ◌==◌, if◌then◌else◌, Bytes,
  bytes_eq,
}

abbrev pub Table : Type 0 → Type 0
Table V = List (Bytes × V)

-- The byte order of std::string.
unfoldable pub bytes_lt : Bytes → Bytes → Bool
bytes_lt [] [] = false
bytes_lt [] (y ∷ ys) = true
bytes_lt (x ∷ xs) [] = false
bytes_lt (x ∷ xs) (y ∷ ys) = ltb x y || (x == y && bytes_lt xs ys)

unfoldable pub find : {V : Type 0} → Bytes → Table V → Option V
find key [] = none
find key ((k, v) ∷ rest) = if bytes_eq k key then some v else find key rest

-- `m[key] = value`
unfoldable pub put : {V : Type 0} → Bytes → V → Table V → Table V
put key value [] = (key, value) ∷ []
put key value ((k, v) ∷ rest) =
    if bytes_eq k key
    then (key, value) ∷ rest
    else if bytes_lt key k
    then (key, value) ∷ (k, v) ∷ rest
    else (k, v) ∷ put key value rest
