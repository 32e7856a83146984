-- ===== src/Formula/VocabBounds.antt =====
-- The tokens of a file with their ids, and how the first pass of `load` bounds the ids.
use mathlib.Core.Option.{bind, bind-eq-some_iff, some-injective}
use turbo_ocr.Common.{
  ℕ, ◌≤◌, ◌<◌, ◌≡◌, refl, Option, none, some, List, [], ◌∷◌, ◌++◌, Bytes, All, All-append, arith,
}
use turbo_ocr.Formula.Tokenizer.{
  TokenizerJson, max_token_id, raise_max, max_of_vocab, raise_by, max_of_added,
}

-- An independent view of a vocabulary: the tokens of a file with their ids, in the order of the file.
abbrev pub Entries : Type 0
Entries = List (ℕ × Bytes)

abbrev pub id_entry : Option ℕ → Bytes → Entries
id_entry none token = []
id_entry (some id) token = (id, token) ∷ []

abbrev pub text_or_empty : Option Bytes → Bytes
text_or_empty none = []
text_or_empty (some text) = text

raise_max_bounds :
    (m : ℕ) (o : Option ℕ) (n : ℕ)
    → m ≤ max_token_id
    → raise_max m o ≡ some n
    → (id : ℕ) × (o ≡ some id) × (m ≤ n) × (id ≤ n) × (n ≤ max_token_id)
unfolding raise_max
raise_max_bounds m none n cap h = absurd (cc h)
raise_max_bounds m (some id) n cap h = (id, refl, ground arith, ground arith, ground arith)

pub ids_below : (n k : ℕ) (es : Entries) → n < k → All (λ e. e.0 ≤ n) es → All (λ e. e.0 < k) es
ids_below n k [] lt h = tt
ids_below n k (e ∷ es) lt (here, there) = (omega arith, ids_below n k es lt there)

module _ (json : TokenizerJson) where
  unfoldable pub vocab_entries : List (Bytes × json.J) → Entries
  vocab_entries [] = []
  vocab_entries ((key, v) ∷ rest) = id_entry (json.as_size v) key ++ vocab_entries rest

  unfoldable pub added_entries : List json.J → Entries
  added_entries [] = []
  added_entries (at ∷ rest) =
      id_entry (bind (json.id_member at) json.as_size) (text_or_empty (json.content at))
      ++ added_entries rest

  -- The greatest id so far bounds the id that was read.
  raise_by_bounds :
      (m : ℕ) (o : Option json.J) (token : Bytes) (k : ℕ)
      → m ≤ max_token_id
      → raise_by json m o ≡ some k
      → (m ≤ k)
        × (k ≤ max_token_id)
        × ((n : ℕ) → k ≤ n → All (λ e. e.0 ≤ n) (id_entry (bind o json.as_size) token))
  unfolding bind
  raise_by_bounds m none token k room h =
      let same = some-injective _ _ h in (omega arith, omega arith, λ n le. tt)
  raise_by_bounds m (some v) token k room h =
      let (id, size, up, this, low) = raise_max_bounds m (json.as_size v) k room h in
      (up, low, λ n le. rw size (omega arith, tt))

  pub max_of_vocab_bounds :
      (m : ℕ) (vs : List (Bytes × json.J)) (n : ℕ)
      → m ≤ max_token_id
      → max_of_vocab json m vs ≡ some n
      → (m ≤ n) × (n ≤ max_token_id) × All (λ e. e.0 ≤ n) (vocab_entries vs)
  unfolding max_of_vocab vocab_entries bind
  max_of_vocab_bounds m [] n room h =
      let same = some-injective _ _ h in (omega arith, omega arith, tt)
  max_of_vocab_bounds m ((key, v) ∷ vs) n room h =
      let (k, raised, later) = (bind-eq-some_iff (raise_max m (json.as_size v)) _).0 h in
      let (up, low, here) = raise_by_bounds m (some v) key k room raised in
      let (more, bound, all) = max_of_vocab_bounds k vs n low later in
      (omega arith, bound, All-append _ (id_entry (json.as_size v) key) _ (here n more) all)

  pub max_of_added_bounds :
      (m : ℕ) (added : List json.J) (n : ℕ)
      → m ≤ max_token_id
      → max_of_added json m added ≡ some n
      → (m ≤ n) × (n ≤ max_token_id) × All (λ e. e.0 ≤ n) (added_entries added)
  unfolding max_of_added added_entries
  max_of_added_bounds m [] n room h =
      let same = some-injective _ _ h in (omega arith, omega arith, tt)
  max_of_added_bounds m (at ∷ added) n room h =
      let (k, raised, later) = (bind-eq-some_iff (raise_by json m (json.id_member at)) _).0 h in
      let (up, low, here) = raise_by_bounds m (json.id_member at) _ k room raised in
      let (more, bound, all) = max_of_added_bounds k added n low later in
      (
        omega arith,
        bound,
        All-append _ (id_entry (bind (json.id_member at) json.as_size) _) _ (here n more) all,
      )
