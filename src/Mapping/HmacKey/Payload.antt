-- ===== src/Mapping/HmacKey/Payload.antt =====
-- The payload of `source_hmac`: its encoding, its group and its value.
use db_sanitizer.Base.{
  ℕ, ◌<◌, ◌≡◌, ◌≢◌, ◌⊎◌, refl, sym, ◌∙◌, ap, Bool, true, false, [], ◌∷◌, ◌++◌, All, arith,
  Bool-cases, inl, inr, if◌then◌else◌,
}
use db_sanitizer.Base.Text.{Text, text_eq, text_eq_iff}
use db_sanitizer.Errors.{Error, Result, ok, err, ◌>>=◌}
use db_sanitizer.Mapping.HmacKey.{Bytes, utf8_char, is_surrogate, encode, Crypto, source_hmac}

-- The code points of Unicode.
abbrev pub IsText : Text → Type 0
IsText = All (λ c. c < 1114112)

utf8_char-prefix :
    (c d : ℕ) (s t : Bytes)
    → c < 1114112
    → d < 1114112
    → utf8_char c ++ s ≡ utf8_char d ++ t
    → (c ≡ d) × (s ≡ t)
unfolding utf8_char
utf8_char-prefix c d s t hc hd h = ground arith

utf8_char-ne-nil : (c : ℕ) (s : Bytes) → utf8_char c ++ s ≡ [] → ⊥
unfolding utf8_char
utf8_char-ne-nil c s h = ground arith

encode-cons :
    (c : ℕ) (s : Text) (b : Bytes)
    → encode (c ∷ s) ≡ ok b
    → (r : Bytes) × (encode s ≡ ok r) × (b ≡ utf8_char c ++ r)
unfolding is_surrogate encode
encode-cons c s b h = go (is_surrogate c) (encode s) refl h
  where
    go :
        (test : Bool) (rest : Result Bytes)
        → encode s ≡ rest
        → (if test then err Error.unexpected else (do bytes ← rest; ok (utf8_char c ++ bytes)))
          ≡ ok b
        → (r : Bytes) × (encode s ≡ ok r) × (b ≡ utf8_char c ++ r)
    go true rest e k = cc
    go false (err f) e k = cc
    go false (ok r) e k = (r, e, cc)

encode-nil : (b : Bytes) → encode [] ≡ ok b → b ≡ []
unfolding encode
encode-nil b h = cc

-- Two texts with one encoding are one text.
pub encode-injective :
    (s t : Text) (b : Bytes) → IsText s → IsText t → encode s ≡ ok b → encode t ≡ ok b → s ≡ t
encode-injective [] [] b hs ht es et = refl
encode-injective [] (d ∷ t) b hs ht es et =
    let (r, e, p) = encode-cons d t b et in absurd (utf8_char-ne-nil d r (sym p ∙ encode-nil b es))
encode-injective (c ∷ s) [] b hs ht es et =
    let (r, e, p) = encode-cons c s b es in absurd (utf8_char-ne-nil c r (sym p ∙ encode-nil b et))
encode-injective (c ∷ s) (d ∷ t) b hs ht es et =
    let (r, e, p) = encode-cons c s b es in
    let (r', e', p') = encode-cons d t b et in
    let (same, rest) = utf8_char-prefix c d r r' hs.0 ht.0 (sym p ∙ p') in
    cc (same, encode-injective s t r hs.1 ht.1 e (e' ∙ ap ok (sym rest)))

-- No NUL, as in an identifier.
abbrev pub HasNoNul : Text → Type 0
HasNoNul = All (λ c. 0 < c)

split_at_nul :
    (g h v w : Text) → HasNoNul g → HasNoNul h → g ++ (0 ∷ v) ≡ h ++ (0 ∷ w) → (g ≡ h) × (v ≡ w)
split_at_nul [] [] v w hg hh e = ground arith
split_at_nul [] (d ∷ h) v w hg hh e = ground arith
split_at_nul (c ∷ g) [] v w hg hh e = ground arith
split_at_nul (c ∷ g) (d ∷ h) v w hg hh e = ground (arith, split_at_nul g h v w hg.1 hh.1)

-- The payloads of two values are different messages that the keyed hash does not tell apart.
abbrev pub PayloadsCollide : Crypto → Bytes → Text → Text → Text → Text → Type 0
PayloadsCollide crypto secret g v h w =
    (m : Bytes) × (n : Bytes) × (encode (g ++ (0 ∷ v)) ≡ ok m)
    × (encode (h ++ (0 ∷ w)) ≡ ok n)
    × (m ≢ n)
    × (crypto.hmac_sha256_hex secret m ≡ crypto.hmac_sha256_hex secret n)

-- A digest comes from an encoded payload.
source_hmac-payload :
    (crypto : Crypto) (secret : Bytes) (g v d : Text)
    → source_hmac crypto secret g v ≡ ok d
    → (b : Bytes) × (encode (g ++ (0 ∷ v)) ≡ ok b) × (crypto.hmac_sha256_hex secret b ≡ d)
unfolding source_hmac
source_hmac-payload crypto secret g v d h = ground arith

-- If one key gives two values the same digest, in one group or in two, then the groups and the
-- normalized values are equal, or the payloads of these two values are different messages with
-- one HMAC-SHA256. The groups hold no
-- NUL, and all texts consist of code points of Unicode.
pub source_hmac-separates :
    (crypto : Crypto) (secret : Bytes) (g h v w d : Text)
    → HasNoNul g
    → HasNoNul h
    → IsText (g ++ (0 ∷ v))
    → IsText (h ++ (0 ∷ w))
    → source_hmac crypto secret g v ≡ ok d
    → source_hmac crypto secret h w ≡ ok d
    → ((g ≡ h) × (v ≡ w)) ⊎ PayloadsCollide crypto secret g v h w
source_hmac-separates crypto secret g h v w d ng nh tg th e f =
    let (b, eb, db) = source_hmac-payload crypto secret g v d e in
    let (c, ec, dc) = source_hmac-payload crypto secret h w d f in
    elim (Bool-cases (text_eq b c)) [
      | inl same ↦ inl (
          split_at_nul g h v w ng nh (
            encode-injective (g ++ (0 ∷ v)) (h ++ (0 ∷ w)) b tg th eb
              (ec ∙ ap ok (sym ((text_eq_iff b c).0 same)))))
      | inr differ ↦ inr (b, c, eb, ec, (λ p. cc (differ, (text_eq_iff b c).1 p)), db ∙ sym dc)
    ]
