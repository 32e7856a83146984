-- ===== src/Formula/Tokenizer.antt =====
-- The vocabulary of a tokenizer and the text of token ids: `load` and `decode` of
-- src/formula/ppformulanet/formula_tokenizer.cpp. nlohmann::json and the file system are parameters, with
-- `none` for an exception. `decode` is without the last step, latex_post_process, which its callers
-- switch off.
use mathlib.Core.Option.{bind}
use turbo_ocr.Common.{
  ℕ, ◌+◌, ◌^◌, Bool, false, ◌||◌, Option, none, some, List, [], ◌∷◌, ◌++◌, ltb, if◌then◌else◌,
  get_elem?, set, replicate, Bytes, codes, bytes_eq, trim, ℤ, pos, negsuc, eq_ℤ,
}
use turbo_ocr.Formula.ByteLevel.{byte_level_to_utf8, strip_frame_markers}

pub record TokenizerJson : Type 1 where
  pub J : Type 0
  -- `stream >> j`
  pub read : Bytes → Option J
  -- The members of j["model"]["vocab"] in the order of their keys, when it is there and an object.
  pub vocab_members : J → Option (List (Bytes × J))
  -- The elements of j["added_tokens"], when it is there and an array, else nothing.
  pub added_tokens : J → List J
  -- at["id"], when `at` has one.
  pub id_member : J → Option J
  -- `get<std::size_t>()`
  pub as_size : J → Option ℕ
  -- `at.value("content", "")` and `at.value("special", false)`
  pub content : J → Option Bytes
  pub special : J → Option Bool

pub record FormulaTokenizer : Type 0 where
  pub id_to_token : List Bytes
  pub special_ids : List ℤ
  pub eos_id : ℤ

abbrev pub max_token_id : ℕ
max_token_id = 2 ^ 20

-- One id on the way to the greatest.
unfoldable pub raise_max : ℕ → Option ℕ → Option ℕ
raise_max max_id none = none
raise_max max_id (some id) =
    if ltb max_token_id id then none else some (if ltb max_id id then id else max_id)

-- An added token with its id.
abbrev pub keep_token : Bytes → Bool → ℕ → FormulaTokenizer → FormulaTokenizer
keep_token content special id tok = record {
  id_to_token = set tok.id_to_token id content;
  special_ids = if special then pos id ∷ tok.special_ids else tok.special_ids;
  eos_id = if bytes_eq content (codes "</s>") then pos id else tok.eos_id;
}

module _ (json : TokenizerJson) where
  unfoldable pub max_of_vocab : ℕ → List (Bytes × json.J) → Option ℕ
  max_of_vocab max_id [] = some max_id
  max_of_vocab max_id ((key, v) ∷ rest) =
      bind (raise_max max_id (json.as_size v)) (λ m. max_of_vocab m rest)

  abbrev pub raise_by : ℕ → Option json.J → Option ℕ
  raise_by max_id none = some max_id
  raise_by max_id (some v) = raise_max max_id (json.as_size v)

  unfoldable pub max_of_added : ℕ → List json.J → Option ℕ
  max_of_added max_id [] = some max_id
  max_of_added max_id (at ∷ rest) =
      bind (raise_by max_id (json.id_member at)) (λ m. max_of_added m rest)

  unfoldable pub write_vocab : List (Bytes × json.J) → List Bytes → Option (List Bytes)
  write_vocab [] tokens = some tokens
  write_vocab ((key, v) ∷ rest) tokens =
      bind (json.as_size v) (λ id. write_vocab rest (set tokens id key))

  abbrev pub add_token : json.J → Option json.J → FormulaTokenizer → Option FormulaTokenizer
  add_token at none tok = some tok
  add_token at (some v) tok = bind (json.as_size v) (λ id.
      bind (json.content at)
        (λ content. bind (json.special at) (λ special. some (keep_token content special id tok))))

  unfoldable pub write_added : List json.J → FormulaTokenizer → Option FormulaTokenizer
  write_added [] tok = some tok
  write_added (at ∷ rest) tok =
      bind (add_token at (json.id_member at) tok) (λ next. write_added rest next)

  abbrev pub fresh : List Bytes → FormulaTokenizer
  fresh tokens = record { id_to_token = tokens; special_ids = []; eos_id = pos 2 }

  unfoldable pub fill : List (Bytes × json.J) → List json.J → ℕ → Option FormulaTokenizer
  fill vocab added max_id =
      bind (write_vocab vocab (replicate (max_id + 1) []))
        (λ tokens. write_added added (fresh tokens))

  unfoldable pub load_vocab : List (Bytes × json.J) → List json.J → Option FormulaTokenizer
  load_vocab vocab added =
      bind (bind (max_of_vocab 0 vocab) (λ m. max_of_added m added)) (λ m. fill vocab added m)

  -- From the open file on; `files` is what the file system is_byte.
  unfoldable pub load : (Bytes → Option Bytes) → Bytes → Option FormulaTokenizer
  load files json_path = bind (files json_path) (λ text.
      bind (json.read text)
        (λ j. bind (json.vocab_members j) (λ vocab. load_vocab vocab (json.added_tokens j))))

-- special_ids_.count
unfoldable pub is_member : ℤ → List ℤ → Bool
is_member id [] = false
is_member id (x ∷ xs) = eq_ℤ x id || is_member id xs

abbrev pub or_no_token : Option Bytes → Bytes
or_no_token none = []
or_no_token (some token) = token

-- The token of an id; nothing for an id outside the vocabulary.
abbrev pub token_at : List Bytes → ℤ → Bytes
token_at tokens (pos i) = or_no_token (get_elem? tokens i)
token_at tokens (negsuc i) = []

-- The loop over the ids.
unfoldable pub raw_text : FormulaTokenizer → List ℤ → Bytes
raw_text tok [] = []
raw_text tok (id ∷ ids) =
    let rest = raw_text tok ids in
    if eq_ℤ id tok.eos_id
    then []
    else if is_member id tok.special_ids
    then rest
    else token_at tok.id_to_token id ++ rest

-- From the concatenated tokens on.
unfoldable pub decode_raw : Bytes → Bytes
decode_raw raw = trim (strip_frame_markers (byte_level_to_utf8 raw))

unfoldable pub decode : FormulaTokenizer → List ℤ → Bytes
decode tok ids = decode_raw (raw_text tok ids)
