-- ===== src/Server/Classify/Signature.antt =====
-- What the class of a file says of its bytes.
use corpus.Prelude.{
  ℕ, ◌+◌, ◌*◌, ◌^◌, ◌≡◌, ◌≢◌, ◌≤◌, refl, sym, ap, ◌↔◌, ◌∙◌, arith, true, inl, inr, Bool-cases, some,
  none, Option-cases, [], ◌∷◌, length, take, drop, leb, if◌then◌else◌,
}
use corpus.Agent.Spool.{Bytes, from_le_bytes}
use corpus.Agent.Sensors.Notify.{length-drop}
use corpus.Server.Cas.{text_eq}
use corpus.Server.Cas.Put.{text_eq-true}
use corpus.Server.Classify.{pe, magic_class, e_lfanew, is_pe, classify_rest, classify}

-- The magic numbers are of other classes.
magic_class_not_pe : (m : Bytes) → magic_class m ≢ some pe
unfolding magic_class
magic_class_not_pe m h = ground (arith, h)

-- A file of the class PE is long enough, starts with MZ, and has the bytes PE 0 0 inside it, at the
-- offset that its bytes 60 to 63 are, the lowest first.
pub record IsPe (bytes : Bytes) : Type 0 where
  pub long : 64 ≤ length bytes
  pub mz : take 2 bytes ≡ 77 ∷ 90 ∷ []
  pub b0 : ℕ
  pub b1 : ℕ
  pub b2 : ℕ
  pub b3 : ℕ
  pub bytes_60 : take 4 (drop 60 bytes) ≡ b0 ∷ b1 ∷ b2 ∷ b3 ∷ []
  pub offset : ℕ
  pub value : offset ≡ b0 + 2 ^ 8 * b1 + 2 ^ 16 * b2 + 2 ^ 24 * b3
  pub inside : offset + 4 ≤ length bytes
  pub signature : take 4 (drop offset bytes) ≡ 80 ∷ 69 ∷ 0 ∷ 0 ∷ []

four_bytes :
    (xs : Bytes)
    → 4 ≤ length xs
    → (a : ℕ) × (b : ℕ) × (c : ℕ) × (d : ℕ) × (take 4 xs ≡ a ∷ b ∷ c ∷ d ∷ [])
four_bytes [] h = absurd (omega (arith, h))
four_bytes (a ∷ []) h = absurd (omega (arith, h))
four_bytes (a ∷ b ∷ []) h = absurd (omega (arith, h))
four_bytes (a ∷ b ∷ c ∷ []) h = absurd (omega (arith, h))
four_bytes (a ∷ b ∷ c ∷ d ∷ xs) h = (a, b, c, d, refl)

e_lfanew_lem :
    (bytes : Bytes) (b0 b1 b2 b3 : ℕ)
    → take 4 (drop 60 bytes) ≡ b0 ∷ b1 ∷ b2 ∷ b3 ∷ []
    → e_lfanew bytes ≡ b0 + 2 ^ 8 * b1 + 2 ^ 16 * b2 + 2 ^ 24 * b3
unfolding e_lfanew from_le_bytes
e_lfanew_lem bytes b0 b1 b2 b3 h = rw (e_lfanew, h) (omega arith)

is_pe-IsPe : (bytes : Bytes) → is_pe bytes ≡ true → IsPe bytes
unfolding is_pe
is_pe-IsPe bytes h =
    let long : 64 ≤ length bytes = ground (arith, h) in
    let (b0, b1, b2, b3, at_60) =
      four_bytes (drop 60 bytes) (omega (arith, long, length-drop 60 bytes)) in
    record {
      long = long;
      mz = text_eq-true _ _ (ground (arith, h));
      b0 = b0;
      b1 = b1;
      b2 = b2;
      b3 = b3;
      bytes_60 = at_60;
      offset = e_lfanew bytes;
      value = e_lfanew_lem bytes b0 b1 b2 b3 at_60;
      inside = ground (arith, h);
      signature = text_eq-true _ _ (ground (arith, h));
    }

rest_pe : (bytes : Bytes) → classify_rest bytes ≡ pe → is_pe bytes ≡ true
unfolding classify_rest
rest_pe bytes h = ground (arith, h)

only_if : (bytes : Bytes) → classify bytes ≡ pe → IsPe bytes
unfolding classify
only_if bytes h =
    elim (Option-cases (if leb 4 (length bytes) then magic_class (take 4 bytes) else none)) [
      | inl plain ↦ is_pe-IsPe bytes (rest_pe bytes (rw (plain, classify) at h))
      | inr (class, magic) ↦
          let same : class ≡ pe = rw (magic, classify) at h in
          elim (Bool-cases (leb 4 (length bytes))) [
            | inl long ↦
                absurd
                  (magic_class_not_pe (take 4 bytes) ((rw long at magic) ∙ ap (λ c. some c) same))
            | inr short ↦ absurd (ground (arith, rw short at magic))
          ]
    ]

IsPe-is_pe : (bytes : Bytes) → IsPe bytes → is_pe bytes ≡ true
unfolding is_pe
IsPe-is_pe bytes p =
    let mz : text_eq (take 2 bytes) (77 ∷ 90 ∷ []) ≡ true = rw p.mz refl in
    let at : e_lfanew bytes ≡ p.offset =
      e_lfanew_lem bytes p.b0 p.b1 p.b2 p.b3 p.bytes_60 ∙ sym p.value in
    let sign : text_eq (take 4 (drop (e_lfanew bytes) bytes)) (80 ∷ 69 ∷ 0 ∷ 0 ∷ []) ≡ true =
      rw at (rw p.signature refl) in
    let inside : e_lfanew bytes + 4 ≤ length bytes = rw at p.inside in
    ground (arith, p.long, inside, mz, sign)

-- MZ starts none of the magic numbers.
no_magic : (bytes : Bytes) → take 2 bytes ≡ 77 ∷ 90 ∷ [] → magic_class (take 4 bytes) ≡ none
unfolding magic_class
no_magic [] h = cc
no_magic (a ∷ bytes) h = let first : a ≡ 77 = ground (arith, h) in ground (arith, first)

if_pe : (bytes : Bytes) → IsPe bytes → classify bytes ≡ pe
unfolding classify classify_rest
if_pe bytes p =
    let long : leb 4 (length bytes) ≡ true = ground (arith, p.long) in
    rw (long, no_magic bytes p.mz, IsPe-is_pe bytes p, classify, classify_rest) refl

-- A file is classified as PE exactly if it is of 64 bytes at least, starts with MZ, and has the bytes
-- PE 0 0 inside the file, at the offset that its bytes 60 to 63 are, the lowest first.
pub classify-IsPe : (bytes : Bytes) → (classify bytes ≡ pe) ↔ IsPe bytes
classify-IsPe bytes = (only_if bytes, if_pe bytes)
