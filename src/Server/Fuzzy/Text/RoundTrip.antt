-- ===== src/Server/Fuzzy/Text/RoundTrip.antt =====
-- fuzzy.rs: what `compare` reads is what `fuzzy_hash` has printed.
use corpus.Prelude.{ℕ, ◌^◌, ◌≤◌, ◌<◌, ◌≡◌, refl, arith, false, some, [], ◌∷◌, ◌++◌, length, ◌==◌}
use corpus.Agent.Spool.{Bytes}
use corpus.Server.Fuzzy.{Digest, compare}
use corpus.Server.Fuzzy.Hash.{fuzzy_hash}
use corpus.Server.Fuzzy.Hash.Bounds.{has_colon, fuzzy_hash-IsComputed}
use corpus.Server.Fuzzy.Total.{compare_total}
use corpus.Server.Fuzzy.Score.{compare-IsScore}
use corpus.Server.Fuzzy.Text.{
  Numbers, split_colon, digest_text, parse_digest, fuzzy_text, compare_texts,
}

split_colon-append :
    (xs ys : Bytes) → has_colon xs ≡ false → split_colon (xs ++ (58 ∷ ys)) ≡ some (xs, ys)
unfolding split_colon
split_colon-append [] ys h = refl
split_colon-append (x ∷ xs) ys h =
    let head : (x == 58) ≡ false = ground (arith, h) in
    let tail : has_colon xs ≡ false = ground (arith, h) in
    rw (head, split_colon-append xs ys tail) refl

module _ (n : Numbers) where
  -- A digest whose first half has no colon is read back from its text.
  pub parse_digest-digest_text :
      (d : Digest)
      → d.block_size < 2 ^ 32
      → has_colon d.first ≡ false
      → parse_digest n (digest_text n d) ≡ some d
  unfolding parse_digest digest_text
  parse_digest-digest_text d small clean =
      rw
        (
          digest_text,
          parse_digest,
          split_colon-append (n.to_text d.block_size) (d.first ++ (58 ∷ d.second))
              (n.no_colon d.block_size),
          n.parse-to_text d.block_size small,
          split_colon-append d.first d.second clean,
        )
        refl

  -- The texts of the digests of two files, which are read back, and the score of their comparison.
  pub record IsCompared (a b : Bytes) : Type 0 where
    pub one : Digest
    pub two : Digest
    pub is_one : fuzzy_hash a ≡ some one
    pub is_two : fuzzy_hash b ≡ some two
    pub first : Bytes
    pub second : Bytes
    pub is_first : fuzzy_text n a ≡ some first
    pub is_second : fuzzy_text n b ≡ some second
    pub read_first : parse_digest n first ≡ some one
    pub read_second : parse_digest n second ≡ some two
    pub same : compare_texts n first second ≡ compare (some one) (some two)
    pub score : ℕ
    pub compared : compare_texts n first second ≡ some score
    pub at_most : score ≤ 100

  -- Any two files of fewer than 2 ^ 30 bytes have digests, both digests are read back from their texts,
  -- and the comparison of the texts is that of the digests: a score of at most 100.
  pub fuzzy_text-IsCompared : (a b : Bytes) → length a < 2 ^ 30 → length b < 2 ^ 30 → IsCompared a b
  unfolding fuzzy_text compare_texts
  fuzzy_text-IsCompared a b short short' =
      let one = fuzzy_hash-IsComputed a short in
      let two = fuzzy_hash-IsComputed b short' in
      let (score, e) =
        compare_total one.digest two.digest one.first (omega (arith, one.second)) one.block_size
          two.block_size in
      let back = parse_digest-digest_text one.digest (omega (arith, one.block_size)) one.clean in
      let back' = parse_digest-digest_text two.digest (omega (arith, two.block_size)) two.clean in
      record {
        one = one.digest;
        two = two.digest;
        is_one = one.is;
        is_two = two.is;
        read_first = back;
        read_second = back';
        same = rw (back, back') refl;
        first = digest_text n one.digest;
        second = digest_text n two.digest;
        is_first = rw (one.is, fuzzy_text) refl;
        is_second = rw (two.is, fuzzy_text) refl;
        score = score;
        compared = rw (back, back') e;
        at_most = compare-IsScore (some one.digest) (some two.digest) score e;
      }
