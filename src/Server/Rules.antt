-- ===== src/Server/Rules.antt =====
-- crates/corpus-core/src/rules.rs: the name of a rule source, and the digest of a bundle of rules.
-- A text is the list of its UTF-8 bytes; the stripped source, of which every byte is pushed as a
-- character, the list of these characters' codes.
pub mod Names
pub mod Order
pub mod Framing
use corpus.Prelude.{
  ℕ, zero, suc, ◌+◌, Bool, true, false, ◌&&◌, ◌||◌, not, Option, none, some, List, [], ◌∷◌, ◌++◌,
  length, leb, ltb, ◌==◌, if◌then◌else◌, keep_if, get_elem?,
}
use corpus.Server.Hash.{Text, Digests, sha256_hex}
use corpus.Server.Cas.{text_eq}

-- Where the loop of `strip_comments` stands: outside, in a `//`, at the second byte of a `/*`, inside
-- it, at the second byte of its `*/`.
pub data Mode : Type 0 where
  outside line opening block closing : Mode

-- Whether the next byte is `b`.
unfoldable pub starts_with : ℕ → List ℕ → Bool
starts_with b [] = false
starts_with b (c ∷ cs) = c == b

unfoldable pub next_mode : Mode → ℕ → List ℕ → Mode
unfolding starts_with
next_mode outside b rest =
    if b == 47 && starts_with 47 rest
    then line
    else (if b == 47 && starts_with 42 rest then opening else outside)
next_mode line b rest = if starts_with 10 rest then outside else line
next_mode opening b rest = block
next_mode block b rest = if b == 42 && starts_with 47 rest then closing else block
next_mode closing b rest = outside

unfoldable pub is_kept : Mode → Mode → Bool
is_kept outside outside = true
is_kept _ _ = false

unfoldable pub strip_from : Mode → List ℕ → List ℕ
unfolding next_mode is_kept
strip_from mode [] = []
strip_from mode (b ∷ rest) =
    let next = next_mode mode b rest in
    let later = strip_from next rest in if is_kept mode next then b ∷ later else later

unfoldable pub strip_comments : Text → List ℕ
unfolding strip_from
strip_comments src = strip_from outside src

abbrev pub is_letter : ℕ → Bool
is_letter c = (leb 65 c && leb c 90) || (leb 97 c && leb c 122)

-- `c.is_ascii_alphanumeric() || c == '_'`
abbrev pub is_word_char : ℕ → Bool
is_word_char c = is_letter c || (leb 48 c && leb c 57) || c == 95

-- `c.is_ascii_alphabetic() || c == '_'`
abbrev pub is_name_start : ℕ → Bool
is_name_start c = is_letter c || c == 95

-- One more character of the first piece.
abbrev pub grow : ℕ → List (List ℕ) → List (List ℕ)
grow c [] = (c ∷ []) ∷ []
grow c (piece ∷ pieces) = (c ∷ piece) ∷ pieces

-- `split(|c| !(…))`
unfoldable pub split : List ℕ → List (List ℕ)
split [] = [] ∷ []
split (c ∷ cs) = let later = split cs in if is_word_char c then grow c later else [] ∷ later

abbrev pub is_nonempty : List ℕ → Bool
is_nonempty [] = false
is_nonempty (c ∷ cs) = true

unfoldable pub tokens : Text → List (List ℕ)
unfolding strip_comments split
tokens src = keep_if is_nonempty (split (strip_comments src))

-- The bytes of `rule`.
abbrev pub rule_word : List ℕ
rule_word = 114 ∷ 117 ∷ 108 ∷ 101 ∷ []

-- `enumerate().filter(|(_, t)| **t == "rule")`, from the index `i` on.
unfoldable pub rule_positions : ℕ → List (List ℕ) → List ℕ
rule_positions i [] = []
rule_positions i (t ∷ ts) =
    let later = rule_positions (suc i) ts in if text_eq t rule_word then i ∷ later else later

-- What a call ends in. The index past the last token panics.
pub data NameResult : Type 0 where
  named : List ℕ → NameResult
  invalid_name : List ℕ → NameResult
  no_rule : NameResult
  many_rules : ℕ → NameResult
  panics : NameResult

unfoldable pub check_name : Option (List ℕ) → NameResult
check_name none = panics
check_name (some []) = invalid_name []
check_name (some (c ∷ cs)) = if is_name_start c then named (c ∷ cs) else invalid_name (c ∷ cs)

unfoldable pub name_at : List (List ℕ) → List ℕ → NameResult
unfolding check_name
name_at ts [] = no_rule
name_at ts (p ∷ []) = check_name (get_elem? ts (p + 1))
name_at ts (p ∷ q ∷ ps) = many_rules (length (p ∷ q ∷ ps))

unfoldable pub parse_rule_name : Text → NameResult
unfolding tokens rule_positions name_at
parse_rule_name source = name_at (tokens source) (rule_positions 0 (tokens source))

-- `str::cmp` is that of the bytes: whether `a` is `Less` or `Equal`.
unfoldable pub text_leb : Text → Text → Bool
text_leb [] t = true
text_leb (s ∷ ss) [] = false
text_leb (s ∷ ss) (t ∷ ts) = ltb s t || (s == t && text_leb ss ts)

-- `sort_by(|a, b| a.0.cmp(&b.0))`, which is stable.
unfoldable pub insert_rule : Text × Text → List (Text × Text) → List (Text × Text)
unfolding text_leb
insert_rule r [] = r ∷ []
insert_rule r (s ∷ rules) =
    let later = insert_rule r rules in if text_leb r.0 s.0 then r ∷ s ∷ rules else s ∷ later

unfoldable pub sort_rules : List (Text × Text) → List (Text × Text)
unfolding insert_rule
sort_rules [] = []
sort_rules (r ∷ rules) = insert_rule r (sort_rules rules)

-- What the loop feeds to the hash for each rule.
unfoldable pub frame_rules : List (Text × Text) → Text
frame_rules [] = []
frame_rules ((stable_id, source) ∷ rules) = stable_id ++ (0 ∷ (source ++ (0 ∷ frame_rules rules)))

-- The bytes of `corpus-rule-bundle-v1\0`.
abbrev pub bundle_tag : Text
bundle_tag =
    99 ∷ 111 ∷ 114 ∷ 112 ∷ 117 ∷ 115 ∷ 45 ∷ 114 ∷ 117 ∷ 108 ∷ 101 ∷ 45 ∷ 98 ∷ 117 ∷ 110 ∷ 100 ∷ 108
    ∷ 101 ∷ 45 ∷ 118 ∷ 49 ∷ 0 ∷ []

-- All that is hashed.
unfoldable pub bundle_bytes : List (Text × Text) → Text → Text
unfolding sort_rules frame_rules
bundle_bytes rules compiler_config = bundle_tag ++ frame_rules (sort_rules rules) ++ compiler_config

unfoldable pub bundle_digest : Digests → List (Text × Text) → Text → Text
unfolding bundle_bytes sha256_hex
bundle_digest d rules compiler_config = sha256_hex d (bundle_bytes rules compiler_config)
