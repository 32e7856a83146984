-- ===== src/Validation/Check.antt =====
-- Outcomes of validation. The code is the identifier of the error envelope; the message is a
-- constructor that holds what the source formats into the text, and is never an empty text.
use turbo_ocr.Common.{◌≡◌, refl, Bool, true, false, Bytes, codes}

pub data Message : Type 0 where
  -- A fixed text, or the spec's `routing_unsupported_reason`.
  text : Bytes → Message
  -- A text about a parameter name or a backend name.
  about : Bytes → Bytes → Message

pub data Check {ℓ} (V : Type ℓ) : Type ℓ where
  err : Bytes → Message → Check V
  ok : V → Check V

-- The first error ends the chain.
infixl 5 ◌>>=◌
abbrev pub ◌>>=◌ {ℓ₀ ℓ₁} : {V : Type ℓ₀} {W : Type ℓ₁} → Check V → (V → Check W) → Check W
err code m >>= rest = err code m
ok v >>= rest = rest v

infixl 5 ◌>>◌
abbrev pub ◌>>◌ {ℓ₁} : {W : Type ℓ₁} → Check (Unit {0}) → Check W → Check W
first >> rest = first >>= λ _. rest

-- `if (b) return {message, code};`
abbrev pub fail_if : Bool → Bytes → Message → Check (Unit {0})
fail_if true code m = err code m
fail_if false code m = ok tt

-- A passed chain: its first check passed with a value, and the rest passed on that.
pub bind-ok {ℓ₀ ℓ₁} :
    {V : Type ℓ₀} {W : Type ℓ₁} (first : Check V) (rest : V → Check W) {w : W}
    → (first >>= rest) ≡ ok w
    → (v : V) × (first ≡ ok v) × (rest v ≡ ok w)
bind-ok (ok v) rest passed = (v, refl, passed)
bind-ok (err code m) rest passed = cc

abbrev pub invalid_parameter : Bytes
invalid_parameter = codes "INVALID_PARAMETER"

abbrev pub layout_disabled : Bytes
layout_disabled = codes "LAYOUT_DISABLED"

pub ok-injective {ℓ} : {A : Type ℓ} {a b : A} → ok a ≡ ok b → a ≡ b
ok-injective e = cc

pub fail_if-ok {ℓ} :
    {A : Type ℓ} (b : Bool) (code : Bytes) (m : Message) (k : Check A) {a : A}
    → (fail_if b code m >> k) ≡ ok a
    → (b ≡ false) × (k ≡ ok a)
fail_if-ok true code m k e = cc
fail_if-ok false code m k e = (refl, e)
