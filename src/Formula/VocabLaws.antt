-- ===== src/Formula/VocabLaws.antt =====
-- What a loaded vocabulary holds.
use mathlib.Core.Option.{bind, bind-eq-some_iff, some-injective}
use turbo_ocr.Common.{
  ℕ, zero, suc, ◌+◌, ◌^◌, ◌≤◌, ◌<◌, ◌≡◌, refl, sym, ap, subst, ◌∙◌, Bool, false, Option, none, some,
  List, [], ◌∷◌, ◌++◌, ◌==◌, if◌then◌else◌, length, length-set, length-replicate, get_elem?, set,
  replicate, Bytes, codes, bytes_eq, All, All-append, ℤ, pos, ◌⊎◌, inl, inr, arith,
}
use turbo_ocr.Formula.Tokenizer.{
  TokenizerJson, FormulaTokenizer, keep_token, max_of_vocab, max_of_added, write_vocab, add_token,
  write_added, fresh, fill, load_vocab,
}
use turbo_ocr.Formula.VocabBounds.{
  Entries, vocab_entries, added_entries, ids_below, max_of_vocab_bounds, max_of_added_bounds,
}

-- The last of some tokens with an id, else `token`.
unfoldable pub last_token : ℕ → Bytes → Entries → Bytes
last_token i token [] = token
last_token i token ((id, next) ∷ rest) = last_token i (if id == i then next else token) rest

-- The id of the last `</s>`, else `eos`.
unfoldable pub last_eos : ℤ → Entries → ℤ
last_eos eos [] = eos
last_eos eos ((id, token) ∷ rest) =
    last_eos (if bytes_eq token (codes "</s>") then pos id else eos) rest

get_elem?-set :
    (ts : List Bytes) (id i : ℕ) (new old : Bytes)
    → get_elem? ts i ≡ some old
    → get_elem? (set ts id new) i ≡ some (if id == i then new else old)
get_elem?-set [] id i new old h = absurd (cc h)
get_elem?-set (t ∷ ts) zero zero new old h = refl
get_elem?-set (t ∷ ts) zero (suc i) new old h =
    let apart : (0 == suc i) ≡ false = ground arith in rw apart h
get_elem?-set (t ∷ ts) (suc id) zero new old h =
    let apart : (suc id == 0) ≡ false = ground arith in rw apart h
get_elem?-set (t ∷ ts) (suc id) (suc i) new old h =
    let same : (suc id == suc i) ≡ (id == i) = ground arith in
    rw same (get_elem?-set ts id i new old h)

get_elem?-replicate :
    (n i : ℕ) (token : Bytes) → i < n → get_elem? (replicate n token) i ≡ some token
get_elem?-replicate zero i token h = absurd (omega arith)
get_elem?-replicate (suc n) zero token h = refl
get_elem?-replicate (suc n) (suc i) token h = get_elem?-replicate n i token (omega arith)

module _ (json : TokenizerJson) where
  write_vocab-get_elem? :
      (vs : List (Bytes × json.J)) (ts : List Bytes) {done : List Bytes} (i : ℕ) (token : Bytes)
      → get_elem? ts i ≡ some token
      → write_vocab json vs ts ≡ some done
      → (length done ≡ length ts)
        × (get_elem? done i ≡ some (last_token i token (vocab_entries json vs)))
  unfolding write_vocab vocab_entries last_token
  write_vocab-get_elem? [] ts i token h e =
      let same = sym (some-injective _ _ e) in (ap length same, ap (λ l. get_elem? l i) same ∙ h)
  write_vocab-get_elem? ((key, v) ∷ vs) ts i token h e =
      let (id, size, later) = (bind-eq-some_iff (json.as_size v) _).0 e in
      let (len, found) =
        write_vocab-get_elem? vs (set ts id key) i _ (get_elem?-set ts id i key token h) later in
      (len ∙ length-set ts id key, rw size found)

  add_token-cases :
      (at : json.J) (m : Option json.J) (tok next : FormulaTokenizer)
      → add_token json at m tok ≡ some next
      → ((bind m json.as_size ≡ none) × (next ≡ tok))
        ⊎ ((id : ℕ) × (content : Bytes) × (special : Bool) × (bind m json.as_size ≡ some id)
            × (json.content at ≡ some content)
            × (next ≡ keep_token content special id tok))
  unfolding bind
  add_token-cases at none tok next h = inl (refl, sym (some-injective _ _ h))
  add_token-cases at (some v) tok next h =
      let (id, size, h1) = (bind-eq-some_iff (json.as_size v) _).0 h in
      let (content, text, h2) = (bind-eq-some_iff (json.content at) _).0 h1 in
      let (special, flag, h3) = (bind-eq-some_iff (json.special at) _).0 h2 in
      inr (id, content, special, size, text, sym (some-injective _ _ h3))

  -- What one added token does to the tokens and to the end of a sequence.
  IsAdded : ℕ → Bytes → Entries → FormulaTokenizer → FormulaTokenizer → Type 0
  IsAdded i token file_entries tok done =
      (length done.id_to_token ≡ length tok.id_to_token)
      × (get_elem? done.id_to_token i ≡ some (last_token i token file_entries))
      × (done.eos_id ≡ last_eos tok.eos_id file_entries)

  write_added-IsAdded :
      (added : List json.J) (tok done : FormulaTokenizer) (i : ℕ) (token : Bytes)
      → get_elem? tok.id_to_token i ≡ some token
      → write_added json added tok ≡ some done
      → IsAdded i token (added_entries json added) tok done
  unfolding write_added added_entries last_token last_eos IsAdded
  write_added-IsAdded [] tok done i token h e =
      let same = sym (some-injective _ _ e) in
      (
        ap (λ t. length t.id_to_token) same,
        ap (λ t. get_elem? t.id_to_token i) same ∙ h,
        ap (λ t. t.eos_id) same,
      )
  write_added-IsAdded (at ∷ added) tok done i token h e =
      let (next, stepped, later) =
        (bind-eq-some_iff (add_token json at (json.id_member at) tok) _).0 e in
      elim (add_token-cases at (json.id_member at) tok next stepped) [
        | inl (no_id, same) ↦
            let rest =
              write_added-IsAdded added tok done i token h
                (subst (λ t. write_added json added t ≡ some done) same later) in
            rw no_id rest
        | inr (id, content, special, size, text, same) ↦
            let kept = keep_token content special id tok in
            let (len, found, eos) =
              write_added-IsAdded added kept done i _
                (get_elem?-set tok.id_to_token id i content token h)
                (subst (λ t. write_added json added t ≡ some done) same later) in
            rw (size, text) (len ∙ length-set tok.id_to_token id content, found, eos)
      ]

  -- The tokens of a file in the order in which they are written.
  abbrev pub file_entries : List (Bytes × json.J) → List json.J → Entries
  file_entries vocab added = vocab_entries json vocab ++ added_entries json added

  last_token-append :
      (i : ℕ) (token : Bytes) (front back : Entries)
      → last_token i token (front ++ back) ≡ last_token i (last_token i token front) back
  unfolding last_token
  last_token-append i token [] back = refl
  last_token-append i token ((id, next) ∷ front) back =
      last_token-append i (if id == i then next else token) front back

  fill-IsFilled :
      (vocab : List (Bytes × json.J)) (added : List json.J) (m i : ℕ) (tok : FormulaTokenizer)
      → i < m + 1
      → fill json vocab added m ≡ some tok
      → (length tok.id_to_token ≡ m + 1)
        × (get_elem? tok.id_to_token i ≡ some (last_token i [] (file_entries vocab added)))
        × (tok.eos_id ≡ last_eos (pos 2) (added_entries json added))
  unfolding fill IsAdded
  fill-IsFilled vocab added m i tok inside h =
      let (tokens, written, last) =
        (bind-eq-some_iff (write_vocab json vocab (replicate (m + 1) [])) _).0 h in
      let (len, found) =
        write_vocab-get_elem? vocab (replicate (m + 1) []) i []
          (get_elem?-replicate (m + 1) i [] inside) written in
      let (same, there, eos) = write_added-IsAdded added (fresh json tokens) tok i _ found last in
      (
        same ∙ len ∙ length-replicate (m + 1) [],
        there
            ∙ ap some (
                sym (last_token-append i [] (vocab_entries json vocab) (added_entries json added))),
        eos,
      )

  -- When a vocabulary loads, it has at most 2^20 + 1 places, every id of the file is one of them, each
  -- place `i` has the last token given to the id, with the vocabulary in the order of its keys and added
  -- tokens behind it, or the empty token, and the end-of-sequence id is that of the last added `</s>`, or 2.
  pub load_vocab-last_token :
      (vocab : List (Bytes × json.J)) (added : List json.J) (tok : FormulaTokenizer) (i : ℕ)
      → load_vocab json vocab added ≡ some tok
      → i < length tok.id_to_token
      → (length tok.id_to_token ≤ 2 ^ 20 + 1)
        × All (λ e. e.0 < length tok.id_to_token) (file_entries vocab added)
        × (get_elem? tok.id_to_token i ≡ some (last_token i [] (file_entries vocab added)))
        × (tok.eos_id ≡ last_eos (pos 2) (added_entries json added))
  unfolding load_vocab
  load_vocab-last_token vocab added tok i h inside =
      let (m, greatest, filled) =
        (bind-eq-some_iff (bind (max_of_vocab json 0 vocab) (λ n. max_of_added json n added)) _).0
          h in
      let (k, of_vocab, of_added) = (bind-eq-some_iff (max_of_vocab json 0 vocab) _).0 greatest in
      let (_, low, in_vocab) = max_of_vocab_bounds json 0 vocab k (omega arith) of_vocab in
      let (up, room, in_added) = max_of_added_bounds json k added m low of_added in
      let size = (fill-IsFilled vocab added m 0 tok (omega arith) filled).0 in
      let (_, found, eos) = fill-IsFilled vocab added m i tok (omega arith) filled in
      (
        omega arith,
        All-append _ (vocab_entries json vocab) _ (ids_below k _ _ (omega arith) in_vocab)
            (ids_below m _ _ (omega arith) in_added),
        found,
        eos,
      )
