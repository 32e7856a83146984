-- ===== src/Decode/Reader.antt =====
-- Reads of the header sniffers (decode/image_dims.h) from `data[0 .. len)`.
-- The C++ code indexes a raw pointer: a read at `len` or beyond is an outcome of its own here, and so
-- is a loop that has used up its fuel. `unknown` is `std::nullopt`; `data` with its `len` is a list
-- of bytes.
use turbo_ocr.Common.{
  ℕ, ◌+◌, ◌-◌, ◌*◌, ◌^◌, ◌≤◌, ◌<◌, ◌≡◌, refl, Bool, true, false, ◌&&◌, Option, none, some, [], ◌∷◌,
  arith, ◌==◌, if◌then◌else◌, Bytes, IsByte, All, All-get, get_elem?, length, get_elem?_of_lt,
}

pub data Reader {ℓ} (A : Type ℓ) : Type ℓ where
  found : A → Reader A
  unknown : Reader A
  overrun : Reader A
  stalled : Reader A

infixl 5 ◌>>=◌ ◌>>◌
unfoldable pub ◌>>=◌ {ℓ κ} : {A : Type ℓ} {B : Type κ} → Reader A → (A → Reader B) → Reader B
found a >>= f = f a
unknown >>= f = unknown
overrun >>= f = overrun
stalled >>= f = stalled

unfoldable pub ◌>>◌ {ℓ} : {B : Type ℓ} → Reader (Unit {0}) → Reader B → Reader B
m >> k = m >>= λ _. k

-- `if (b) return std::nullopt;`
unfoldable pub reject_if : Bool → Reader (Unit {0})
reject_if true = unknown
reject_if false = found tt

pub record ImageDims : Type 0 where
  pub width : ℕ
  pub height : ℕ

abbrev pub int_max : ℕ
int_max = 2 ^ 31 - 1

or_overrun : Option ℕ → Reader ℕ
or_overrun none = overrun
or_overrun (some b) = found b

-- `data[i]`.
unfoldable pub read : Bytes → ℕ → Reader ℕ
unfolding or_overrun
read buf i = or_overrun (get_elem? buf i)

-- `memcmp(data + i, lit, n) == 0`, which may read all n bytes.
unfoldable pub matches_at : Bytes → ℕ → Bytes → Reader Bool
matches_at buf i [] = found true
matches_at buf i (c ∷ cs) = do b ← read buf i; r ← matches_at buf (i + 1) cs; found (b == c && r)

-- Big- and little-endian numbers. The shifted bytes have no common bit, so `|` is a sum.
unfoldable pub rd16_be : Bytes → ℕ → Reader ℕ
rd16_be buf i = do a ← read buf i; b ← read buf (i + 1); found (a * 2 ^ 8 + b)

unfoldable pub rd16_le : Bytes → ℕ → Reader ℕ
rd16_le buf i = do a ← read buf i; b ← read buf (i + 1); found (a + b * 2 ^ 8)

unfoldable pub rd32_be : Bytes → ℕ → Reader ℕ
rd32_be buf i = do
  a ← read buf i
  b ← read buf (i + 1)
  c ← read buf (i + 2)
  d ← read buf (i + 3)
  found (a * 2 ^ 24 + b * 2 ^ 16 + c * 2 ^ 8 + d)

unfoldable pub rd32_le : Bytes → ℕ → Reader ℕ
rd32_le buf i = do
  a ← read buf i
  b ← read buf (i + 1)
  c ← read buf (i + 2)
  d ← read buf (i + 3)
  found (a + b * 2 ^ 8 + c * 2 ^ 16 + d * 2 ^ 24)

-- The computation ends without an overrun, and a value that it returns has the property.
pub data Ensures {ℓ} {A : Type ℓ} (P : A → Type 0) : Reader A → Type ℓ where
  returns : {a : A} → P a → Ensures P (found a)
  gives_up : Ensures P unknown

pub Ensures-bind {ℓ κ} :
    {A : Type ℓ} {B : Type κ} {P : A → Type 0} {Q : B → Type 0} {m : Reader A} {f : A → Reader B}
    → Ensures P m
    → ((a : A) → P a → Ensures Q (f a))
    → Ensures Q (m >>= f)
unfolding ◌>>=◌
Ensures-bind (returns {a} h) k = k a h
Ensures-bind gives_up k = gives_up

pub Ensures-if {ℓ} :
    {A : Type ℓ} {P : A → Type 0} (b : Bool) (x y : Reader A)
    → (b ≡ true → Ensures P x)
    → (b ≡ false → Ensures P y)
    → Ensures P (if b then x else y)
Ensures-if true x y h k = h refl
Ensures-if false x y h k = k refl

pub Ensures-mono {ℓ} :
    {A : Type ℓ} {P Q : A → Type 0} {m : Reader A}
    → Ensures P m
    → ((a : A) → P a → Q a)
    → Ensures Q m
Ensures-mono (returns {a} h) k = returns (k a h)
Ensures-mono gives_up k = gives_up

pub Ensures-reject {ℓ} :
    {A : Type ℓ} {P : A → Type 0} {b : Bool} {k : Reader A}
    → (b ≡ false → Ensures P k)
    → Ensures P (reject_if b >> k)
unfolding ◌>>=◌ ◌>>◌ reject_if
Ensures-reject {b = true} h = gives_up
Ensures-reject {b = false} h = h refl

module _ (buf : Bytes) (bytes : All IsByte buf) where
  pub Ensures-read : (i : ℕ) → i < length buf → Ensures IsByte (read buf i)
  unfolding read
  Ensures-read i h = go (get_elem? buf i) refl
    where
      go : (o : Option ℕ) → get_elem? buf i ≡ o → Ensures IsByte (or_overrun o)
      go none e = let (a, hit) = get_elem?_of_lt buf i h in absurd (cc)
      go (some b) e = returns (All-get IsByte buf i bytes e)

  pub Ensures-matches_at :
      (i : ℕ) (lit : Bytes)
      → i + length lit ≤ length buf
      → Ensures (λ _. Unit {0}) (matches_at buf i lit)
  unfolding matches_at
  Ensures-matches_at i [] h = returns tt
  Ensures-matches_at i (c ∷ cs) h =
      Ensures-bind (Ensures-read i (omega arith))
        λ b _. Ensures-bind (Ensures-matches_at (i + 1) cs (omega arith)) λ r _. returns tt

  pub Ensures-rd16_be : (i : ℕ) → i + 2 ≤ length buf → Ensures (λ n. n < 2 ^ 16) (rd16_be buf i)
  unfolding rd16_be
  Ensures-rd16_be i h =
      Ensures-bind (Ensures-read i (omega arith))
        λ a ha. Ensures-bind (Ensures-read (i + 1) (omega arith)) λ b hb. returns (omega arith)

  pub Ensures-rd16_le : (i : ℕ) → i + 2 ≤ length buf → Ensures (λ n. n < 2 ^ 16) (rd16_le buf i)
  unfolding rd16_le
  Ensures-rd16_le i h =
      Ensures-bind (Ensures-read i (omega arith))
        λ a ha. Ensures-bind (Ensures-read (i + 1) (omega arith)) λ b hb. returns (omega arith)

  pub Ensures-rd32_be : (i : ℕ) → i + 4 ≤ length buf → Ensures (λ n. n < 2 ^ 32) (rd32_be buf i)
  unfolding rd32_be
  Ensures-rd32_be i h = Ensures-bind (Ensures-read i (omega arith)) λ a ha.
      Ensures-bind (Ensures-read (i + 1) (omega arith)) λ b hb.
        Ensures-bind (Ensures-read (i + 2) (omega arith))
          λ c hc. Ensures-bind (Ensures-read (i + 3) (omega arith)) λ d hd. returns (omega arith)

  pub Ensures-rd32_le : (i : ℕ) → i + 4 ≤ length buf → Ensures (λ n. n < 2 ^ 32) (rd32_le buf i)
  unfolding rd32_le
  Ensures-rd32_le i h = Ensures-bind (Ensures-read i (omega arith)) λ a ha.
      Ensures-bind (Ensures-read (i + 1) (omega arith)) λ b hb.
        Ensures-bind (Ensures-read (i + 2) (omega arith))
          λ c hc. Ensures-bind (Ensures-read (i + 3) (omega arith)) λ d hd. returns (omega arith)
